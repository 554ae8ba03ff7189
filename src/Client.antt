-- ===== src/Client.antt =====
-- client.c: the reading of a response. A function of the client returns an `int32_t`, which stands
-- here as the word that holds it, so -1 is 2^32 - 1. What `printf` writes is a list of `Printed`
-- values. The operating system gives a list of what the calls of `read` return: none for an error or
-- the end of the stream, else the bytes read.
pub mod Transfer
pub mod Process
pub mod Items
pub mod RoundTrip
use cachetron.Prelude.{
  ℕ, zero, suc, ◌+◌, ◌-◌, ◌%◌, ◌^◌, Bool, true, false, Option, none, some, List, [], ◌∷◌, ◌++◌,
}
use cachetron.Prelude.{
  ltb, leb, ◌==◌, not, ◌&&◌, if◌then◌else◌, length, drop, take, add_size, sub_size,
}
use cachetron.Prelude.Result.{Result, ok, fault, assertion, out_of_bounds, diverged, ◌>>=◌, at}
use cachetron.Wire.{read_word, strlen, word_of}
use cachetron.Wire.Request.{k_max_msg}
use cachetron.Wire.Response.{ser_nil, ser_err, ser_str, ser_int, ser_dbl, ser_arr}

pub data Printed : Type 0 where
  p_nil : Printed
  p_err : ℕ → List ℕ → Printed
  p_str : List ℕ → Printed
  p_int : ℕ → Printed
  p_dbl : ℕ → Printed
  p_arr : ℕ → Printed
  p_arr_end : Printed

abbrev pub minus_one : ℕ
minus_one = 2 ^ 32 - 1

abbrev pub is_below_zero : ℕ → Bool
is_below_zero rv = leb (2 ^ 31) rv

-- The characters that `printf` takes from a string of at most `n` characters.
pub text_upto : ℕ → List ℕ → Result (List ℕ)
text_upto zero cells = ok []
text_upto (suc n) [] = fault out_of_bounds
text_upto (suc n) (zero ∷ cells) = ok []
text_upto (suc n) (suc c ∷ cells) = do text ← text_upto n cells; ok (suc c ∷ text)

-- `%.*s`: a negative precision is taken as if it were omitted.
pub print_text : ℕ → List ℕ → Result (List ℕ)
unfolding text_upto
print_text len cells =
    if is_below_zero len then (do n ← strlen cells; text_upto n cells) else text_upto len cells

abbrev pub bad_response : Result (List Printed × ℕ)
bad_response = ok ([], minus_one)

-- The response of the tag SER_ERR; `1 + 8 + len` is a `uint32_t`.
pub process_err : List ℕ → ℕ → Result (List Printed × ℕ)
unfolding print_text
process_err cells size = if ltb size 9 then bad_response else do
  code ← read_word 4 cells 1
  len ← read_word 4 cells 5
  if ltb size ((9 + len) % 2 ^ 32)
      then bad_response
      else do text ← print_text len (drop 9 cells); ok (p_err code text ∷ [], (9 + len) % 2 ^ 32)

pub process_str : List ℕ → ℕ → Result (List Printed × ℕ)
unfolding print_text
process_str cells size = if ltb size 5 then bad_response else do
  len ← read_word 4 cells 1
  if ltb size ((5 + len) % 2 ^ 32)
      then bad_response
      else do text ← print_text len (drop 5 cells); ok (p_str text ∷ [], (5 + len) % 2 ^ 32)

pub process_int : List ℕ → ℕ → Result (List Printed × ℕ)
process_int cells size =
    if ltb size 9 then bad_response else do val ← read_word 8 cells 1; ok (p_int val ∷ [], 9)

pub process_dbl : List ℕ → ℕ → Result (List Printed × ℕ)
process_dbl cells size =
    if ltb size 9 then bad_response else do val ← read_word 8 cells 1; ok (p_dbl val ∷ [], 9)

-- The cases but that of SER_ARR.
pub process_flat : ℕ → List ℕ → ℕ → Result (List Printed × ℕ)
unfolding process_err process_str process_int process_dbl
process_flat tag cells size =
    if tag == ser_nil
    then ok (p_nil ∷ [], 1)
    else if tag == ser_err
    then process_err cells size
    else if tag == ser_str
    then process_str cells size
    else if tag == ser_int
    then process_int cells size
    else if tag == ser_dbl
    then process_dbl cells size
    else bad_response

-- The loop over the elements of an array, each of which `process` takes.
unfoldable pub process_items :
    (List ℕ → ℕ → Result (List Printed × ℕ)) → ℕ → List ℕ → ℕ → ℕ → Result (List Printed × ℕ)
process_items process zero cells size arr_bytes = ok (p_arr_end ∷ [], arr_bytes % 2 ^ 32)
process_items process (suc count) cells size arr_bytes = do
  (out, rv) ← process (drop arr_bytes cells) (sub_size size arr_bytes)
  elim (is_below_zero rv) [
    | true ↦ ok (out, rv)
    | false ↦ do
      (out', rv') ← process_items process count cells size (add_size arr_bytes rv)
      ok (out ++ out', rv')
  ]

pub process_arr : (List ℕ → ℕ → Result (List Printed × ℕ)) → List ℕ → ℕ → Result (List Printed × ℕ)
unfolding process_items
process_arr process cells size = if ltb size 5 then bad_response else do
  len ← read_word 4 cells 1
  (out, rv) ← process_items process len cells size 5
  ok (p_arr len ∷ out, rv)

-- The cases by the tag.
pub process_tag :
    (List ℕ → ℕ → Result (List Printed × ℕ)) → ℕ → List ℕ → ℕ → Result (List Printed × ℕ)
unfolding process_flat process_arr
process_tag process tag cells size =
    if tag == ser_arr then process_arr process cells size else process_flat tag cells size

-- `process_response`, with the levels of arrays inside arrays that it may still enter.
unfoldable pub process_response : ℕ → List ℕ → ℕ → Result (List Printed × ℕ)
unfolding process_tag
process_response zero cells size = fault diverged
process_response (suc depth) cells size = elim (ltb size 1) [
  | true ↦ bad_response
  | false ↦ do tag ← at cells 0; process_tag (process_response depth) tag cells size
]

-- `read_full` of `n` bytes: the bytes, or none where it returns -1, and the reads that are left.
unfoldable pub read_full :
    List (Option (List ℕ)) → ℕ → Result (Option (List ℕ) × List (Option (List ℕ)))
read_full reads zero = ok (some [], reads)
read_full [] (suc n) = ok (none, [])
read_full (none ∷ reads) (suc n) = ok (none, reads)
read_full (some chunk ∷ reads) (suc n) = elim (length chunk == 0) [
  | true ↦ ok (none, reads)
  | false ↦ elim (leb (length chunk) (suc n)) [
    | false ↦ fault assertion
    | true ↦ do
      (rest, reads') ← read_full reads (suc n - length chunk)
      elim rest [ none ↦ ok (none, reads') | some bytes ↦ ok (some (chunk ++ bytes), reads') ]
  ]
]

-- `write_all` of some bytes, by the numbers that the calls of `write` return, where 0 stands for an
-- error: what is written and whether all is.
unfoldable pub write_all : List ℕ → List ℕ → Result (List ℕ × Bool)
write_all writes [] = ok ([], true)
write_all [] (b ∷ bytes) = ok ([], false)
write_all (zero ∷ writes) (b ∷ bytes) = ok ([], false)
write_all (suc k ∷ writes) (b ∷ bytes) = elim (leb (suc k) (length (b ∷ bytes))) [
  | false ↦ fault assertion
  | true ↦ do (sent, done) ← write_all writes (drop k bytes); ok (b ∷ (take k bytes ++ sent), done)
]

-- `read_res`: what is printed and returned. The bytes behind the reply in `rbuf` are `rest`.
unfoldable pub read_res : ℕ → List (Option (List ℕ)) → List ℕ → Result (List Printed × ℕ)
unfolding read_full process_response
read_res fuel reads rest = do
  (header, reads₁) ← read_full reads 4
  elim header [
    | none ↦ bad_response
    | some word ↦ elim (ltb k_max_msg (word_of word)) [
      | true ↦ bad_response
      | false ↦ do
        (reply, reads₂) ← read_full reads₁ (word_of word)
        elim reply [
          | none ↦ bad_response
          | some bytes ↦ do
            (out, rv) ← process_response fuel (bytes ++ rest) (word_of word)
            ok (
              out,
              if not (is_below_zero rv) && (ltb 0 rv && not (rv == word_of word))
                  then minus_one
                  else rv,
            )
        ]
    ]
  ]
