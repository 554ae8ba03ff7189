-- ===== src/Client/Process.antt =====
-- The runs of `process_response` on a response whose parts can be read.
use cachetron.Prelude.{ℕ, zero, suc, ◌+◌, ◌%◌, ◌^◌, ◌≤◌, ◌<◌, ◌≡◌, refl, List, [], ◌∷◌, ◌++◌, arith}
use cachetron.Prelude.{false, ltb, add_size, sub_size, length, drop}
use cachetron.Prelude.Result.{Result, ok}
use cachetron.Wire.{bytes_of}
use cachetron.Wire.Words.{read_word_lem}
use cachetron.Client.{Printed, p_err, p_str, p_int, p_dbl, p_arr, text_upto, print_text}
use cachetron.Client.{
  process_err, process_str, process_int, process_dbl, process_tag, process_arr, process_response,
  process_items, is_below_zero,
}

-- A text as C reads it, up to a zero byte.
unfoldable pub c_text : List ℕ → List ℕ
c_text [] = []
c_text (zero ∷ cs) = []
c_text (suc c ∷ cs) = suc c ∷ c_text cs

text_upto-append : (text rest : List ℕ) → text_upto (length text) (text ++ rest) ≡ ok (c_text text)
unfolding text_upto c_text
text_upto-append [] rest = refl
text_upto-append (zero ∷ text) rest = refl
text_upto-append (suc c ∷ text) rest = rw (text_upto-append text rest) refl

pub print_text-append :
    (text rest : List ℕ)
    → length text < 2 ^ 31
    → print_text (length text) (text ++ rest) ≡ ok (c_text text)
unfolding print_text
print_text-append text rest small =
    let short : is_below_zero (length text) ≡ false = ground arith in
    rw short (text_upto-append text rest)

-- A test that a size is not too small.
enough : (m n : ℕ) → n ≤ m → ltb m n ≡ false
enough m n h = ground arith

pub process_str_run :
    (text rest : List ℕ) (size : ℕ)
    → 5 + length text ≤ size
    → 5 + length text < 2 ^ 31
    → process_str (2 ∷ (bytes_of 4 (length text) ++ (text ++ rest))) size
      ≡ ok (p_str (c_text text) ∷ [], 5 + length text)
unfolding process_str
process_str_run text rest size fits small =
    let len = read_word_lem 4 (length text) (2 ∷ []) (text ++ rest) 1 refl (omega arith) in
    let wrap : (5 + length text) % 2 ^ 32 ≡ 5 + length text = omega arith in
    rw
      (
        enough size 5 (omega arith),
        len,
        wrap,
        enough size (5 + length text) fits,
        print_text-append text rest (omega arith),
      )
      refl

pub process_err_run :
    (code : ℕ) (text rest : List ℕ) (size : ℕ)
    → code < 2 ^ 32
    → 9 + length text ≤ size
    → 9 + length text < 2 ^ 31
    → process_err (1 ∷ (bytes_of 4 code ++ (bytes_of 4 (length text) ++ (text ++ rest)))) size
      ≡ ok (p_err code (c_text text) ∷ [], 9 + length text)
unfolding process_err
process_err_run code text rest size word fits small =
    let first =
      read_word_lem 4 code (1 ∷ []) (bytes_of 4 (length text) ++ (text ++ rest)) 1 refl word in
    let second =
      read_word_lem 4 (length text) (1 ∷ bytes_of 4 code) (text ++ rest) 5 refl (omega arith) in
    let wrap : (9 + length text) % 2 ^ 32 ≡ 9 + length text = omega arith in
    rw
      (
        enough size 9 (omega arith),
        first,
        second,
        wrap,
        enough size (9 + length text) fits,
        print_text-append text rest (omega arith),
      )
      refl

pub process_int_run :
    (n : ℕ) (rest : List ℕ) (size : ℕ)
    → n < 2 ^ 64
    → 9 ≤ size
    → process_int (3 ∷ (bytes_of 8 n ++ rest)) size ≡ ok (p_int n ∷ [], 9)
unfolding process_int
process_int_run n rest size word fits =
    rw (enough size 9 fits, read_word_lem 8 n (3 ∷ []) rest 1 refl word) refl

pub process_dbl_run :
    (n : ℕ) (rest : List ℕ) (size : ℕ)
    → n < 2 ^ 64
    → 9 ≤ size
    → process_dbl (4 ∷ (bytes_of 8 n ++ rest)) size ≡ ok (p_dbl n ∷ [], 9)
unfolding process_dbl
process_dbl_run n rest size word fits =
    rw (enough size 9 fits, read_word_lem 8 n (4 ∷ []) rest 1 refl word) refl

-- A response by its tag.
pub process_tag_run :
    (depth tag : ℕ) (cells : List ℕ) (size : ℕ)
    → 1 ≤ size
    → process_response (suc depth) (tag ∷ cells) size
      ≡ process_tag (process_response depth) tag (tag ∷ cells) size
unfolding process_response
process_tag_run depth tag cells size some_bytes =
    rw (process_response, enough size 1 some_bytes) refl

-- An array of `len` elements.
pub process_arr_run :
    (process : List ℕ → ℕ → Result (List Printed × ℕ)) (len : ℕ) (cells : List ℕ) (size rv : ℕ)
    (out : List Printed)
    → len < 2 ^ 32
    → 5 ≤ size
    → process_items process len (5 ∷ (bytes_of 4 len ++ cells)) size 5 ≡ ok (out, rv)
    → process_tag process 5 (5 ∷ (bytes_of 4 len ++ cells)) size ≡ ok (p_arr len ∷ out, rv)
unfolding process_tag process_arr
process_arr_run process len cells size rv out word fits run =
    rw (enough size 5 fits, read_word_lem 4 len (5 ∷ []) cells 1 refl word, run) refl

pub process_item_run :
    (process : List ℕ → ℕ → Result (List Printed × ℕ)) (count size arr_bytes rv rv' : ℕ)
    (cells : List ℕ) (out out' : List Printed)
    → process (drop arr_bytes cells) (sub_size size arr_bytes) ≡ ok (out, rv)
    → rv < 2 ^ 31
    → process_items process count cells size (add_size arr_bytes rv) ≡ ok (out', rv')
    → process_items process (suc count) cells size arr_bytes ≡ ok (out ++ out', rv')
unfolding process_items
process_item_run process count size arr_bytes rv rv' cells out out' run small run' =
    let positive : is_below_zero rv ≡ false = ground arith in cc
