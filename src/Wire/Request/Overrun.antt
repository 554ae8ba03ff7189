-- ===== src/Wire/Request/Overrun.antt =====
-- `parse_req` where no zero byte stands behind the last argument.
use cachetron.Prelude.{
  ℕ, zero, suc, ◌+◌, ◌^◌, ◌<◌, ◌≡◌, refl, false, List, [], ◌∷◌, ◌++◌, arith, length, ge→ltb, ◌==◌,
  length-append,
}
use cachetron.Prelude.Result.{ok, fault, out_of_bounds}
use cachetron.Wire.{bytes_of, read_word, strlen}
use cachetron.Wire.Words.{length-bytes_of, drop-length, read_word_lem}
use cachetron.Wire.Request.{append_arg, parse_args, parse_req}
use cachetron.Wire.Request.RoundTrip.{IsText}

strlen-overrun : (s : List ℕ) → IsText s → strlen s ≡ fault out_of_bounds
unfolding strlen
strlen-overrun [] text = refl
strlen-overrun (zero ∷ s) text = absurd (text.0 refl)
strlen-overrun (suc c ∷ s) text = rw (strlen-overrun s text.1) refl

append_arg-overrun :
    (pre s : List ℕ) (pos : ℕ)
    → pos ≡ length pre
    → IsText s
    → 0 < length s
    → append_arg (pre ++ s) pos (length s) ≡ fault out_of_bounds
unfolding append_arg
append_arg-overrun pre s pos e text some_in =
    let some_text : (length s == 0) ≡ false = ground arith in
    rw (some_text, e, drop-length pre s, strlen-overrun s text) refl

-- A request of one argument that is not empty and holds no zero byte, in a buffer that ends with it,
-- is read behind the end of the buffer.
pub parse_req-overrun :
    (s : List ℕ)
    → IsText s
    → 0 < length s
    → length s < 2 ^ 31
    → parse_req (bytes_of 4 1 ++ (bytes_of 4 (length s) ++ s)) (8 + length s) ≡ fault out_of_bounds
unfolding parse_req parse_args
parse_req-overrun s text some_in small =
    let n = bytes_of 4 1 in
    let size = bytes_of 4 (length s) in
    let cells = n ++ (size ++ s) in
    let count : read_word 4 cells 0 ≡ ok 1 =
      read_word_lem 4 1 [] (size ++ s) 0 refl (omega arith) in
    let word : read_word 4 cells 4 ≡ ok (length s) =
      read_word_lem 4 (length s) n s 4 refl (omega arith) in
    let arg : append_arg cells 8 (length s) ≡ fault out_of_bounds =
      append_arg-overrun (n ++ size) s 8
        (omega (arith, length-append n size, length-bytes_of 4 (length s))) text some_in in
    rw
      (
        ge→ltb (8 + length s) 4 (omega arith),
        count,
        ge→ltb (8 + length s) 8 (omega arith),
        word,
        ge→ltb (8 + length s) (8 + length s) (omega arith),
        arg,
      )
      refl
