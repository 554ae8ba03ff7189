-- ===== src/Client/Items.antt =====
-- What the client prints of a reply, and its loop over the elements of an array.
use cachetron.Prelude.{
  ℕ, suc, ◌+◌, ◌-◌, ◌%◌, ◌^◌, ◌≤◌, ◌<◌, ◌≡◌, refl, sym, ap, ◌∙◌, List, [], ◌∷◌, ◌++◌, append_assoc,
  arith,
}
use cachetron.Prelude.{length, length-append, drop, add_size, sub_size, max}
use cachetron.Prelude.Result.{Result, ok}
use cachetron.Wire.Words.{drop-length}
use cachetron.Wire.Response.Encode.{
  Reply, Replies, nil, err, str, int, dbl, arr, end, more, count_replies, encode, encode_all,
}
use cachetron.Client.{Printed, p_nil, p_err, p_str, p_int, p_dbl, p_arr, p_arr_end, process_items}
use cachetron.Client.Process.{c_text, process_item_run}

-- What the client prints of a reply.
unfoldable mutual
  unfolding c_text

  pub printed : Reply → List Printed
  printed nil = p_nil ∷ []
  printed (err code text) = p_err code (c_text text) ∷ []
  printed (str text) = p_str (c_text text) ∷ []
  printed (int n) = p_int n ∷ []
  printed (dbl n) = p_dbl n ∷ []
  printed (arr rs) = p_arr (count_replies rs) ∷ printed_all rs

  pub printed_all : Replies → List Printed
  printed_all end = p_arr_end ∷ []
  printed_all (more r rs) = printed r ++ printed_all rs

-- The numbers of a reply fit their words.
unfoldable mutual
  pub Fits : Reply → Type 0
  Fits nil = Unit
  Fits (err code text) = code < 2 ^ 32
  Fits (str text) = Unit
  Fits (int n) = n < 2 ^ 64
  Fits (dbl n) = n < 2 ^ 64
  Fits (arr rs) = FitAll rs

  pub FitAll : Replies → Type 0
  FitAll end = Unit
  FitAll (more r rs) = Fits r × FitAll rs

-- The levels of arrays in a reply.
unfoldable mutual
  pub levels : Reply → ℕ
  levels nil = 0
  levels (err code text) = 0
  levels (str text) = 0
  levels (int n) = 0
  levels (dbl n) = 0
  levels (arr rs) = 1 + levels_all rs

  pub levels_all : Replies → ℕ
  levels_all end = 0
  levels_all (more r rs) = max (levels r) (levels_all rs)

pub encode-not_empty : (r : Reply) → 1 ≤ length (encode r)
unfolding encode
encode-not_empty nil = omega arith
encode-not_empty (err code text) = omega arith
encode-not_empty (str text) = omega arith
encode-not_empty (int n) = omega arith
encode-not_empty (dbl n) = omega arith
encode-not_empty (arr rs) = omega arith

pub length-more :
    (r : Reply) (rs : Replies)
    → length (encode_all (more r rs)) ≡ length (encode r) + length (encode_all rs)
unfolding encode_all
length-more r rs = length-append (encode r) (encode_all rs)

pub count-encode_all : (rs : Replies) → count_replies rs ≤ length (encode_all rs)
unfolding count_replies
count-encode_all end = omega arith
count-encode_all (more r rs) =
    omega (arith, length-more r rs, encode-not_empty r, count-encode_all rs)

-- The length of a response in other words.
pub sized :
    (x : Result (List Printed × ℕ)) (out : List Printed) (m n : ℕ)
    → x ≡ ok (out, m)
    → m ≡ n
    → x ≡ ok (out, n)
sized x out m n run e = cc

-- The place behind an element.
behind :
    (pre bytes others rest : List ℕ)
    → pre ++ ((bytes ++ others) ++ rest) ≡ (pre ++ bytes) ++ (others ++ rest)
behind pre bytes others rest =
    ap (λ l. pre ++ l) (append_assoc bytes others rest)
    ∙ sym (append_assoc pre bytes (others ++ rest))

element :
    (pre bytes others rest : List ℕ)
    → drop (length pre) (pre ++ ((bytes ++ others) ++ rest)) ≡ bytes ++ (others ++ rest)
element pre bytes others rest =
    drop-length pre ((bytes ++ others) ++ rest) ∙ append_assoc bytes others rest

-- A run of the loop over elements of which the first is taken.
pub items_more :
    (process : List ℕ → ℕ → Result (List Printed × ℕ)) (count size total : ℕ)
    (pre bytes others rest : List ℕ) (out out' : List Printed)
    → length pre + length bytes < 2 ^ 31
    → length pre + length bytes ≤ size
    → size < 2 ^ 64
    → process (bytes ++ (others ++ rest)) (size - length pre) ≡ ok (out, length bytes)
    → process_items process count ((pre ++ bytes) ++ (others ++ rest)) size (length (pre ++ bytes))
      ≡ ok (out', total)
    → process_items process (count + 1) (pre ++ ((bytes ++ others) ++ rest)) size (length pre)
      ≡ ok (out ++ out', total)
items_more process count size total pre bytes others rest out out' small fits word run run' =
    let cells = pre ++ ((bytes ++ others) ++ rest) in
    let next : count + 1 ≡ suc count = omega arith in
    let left : sub_size size (length pre) ≡ size - length pre = omega arith in
    let here : add_size (length pre) (length bytes) ≡ length (pre ++ bytes) =
      omega (arith, length-append pre bytes) in
    rw next (
      process_item_run process count size (length pre) (length bytes) total cells out out'
        (ap (λ l. process l (sub_size size (length pre))) (element pre bytes others rest)
          ∙ ap (process (bytes ++ (others ++ rest))) left
          ∙ run)
        (omega arith)
        (ap (λ l. process_items process count l size (add_size (length pre) (length bytes)))
            (behind pre bytes others rest)
          ∙ ap (process_items process count ((pre ++ bytes) ++ (others ++ rest)) size) here
          ∙ run'))

pub items_end :
    (process : List ℕ → ℕ → Result (List Printed × ℕ)) (cells : List ℕ) (size pos : ℕ)
    → pos < 2 ^ 31
    → process_items process 0 cells size pos ≡ ok (p_arr_end ∷ [], pos)
unfolding process_items
items_end process cells size pos small =
    sized (ok (p_arr_end ∷ [], pos % 2 ^ 32)) (p_arr_end ∷ []) (pos % 2 ^ 32) pos refl (omega arith)
