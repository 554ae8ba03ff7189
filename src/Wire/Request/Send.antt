-- ===== src/Wire/Request/Send.antt =====
-- What `send_req` writes into its local arrays.
use cachetron.Prelude.{
  ℕ, ◌+◌, ◌%◌, ◌^◌, ◌<◌, ◌≤◌, ◌≡◌, refl, sym, ap, ◌∙◌, true, List, [], ◌∷◌, ◌++◌, some, arith,
  length, take, drop, replicate, length-replicate, leb, le→leb, length-append, append_assoc,
  append-nil, ge→ltb,
}
use cachetron.Prelude.Memory.{read_range, write_range, length-drop}
use cachetron.Prelude.Result.{ok, ◌>>=◌}
use cachetron.Wire.{bytes_of}
use cachetron.Wire.Words.{length-bytes_of, drop-length, read_range_lem}
use cachetron.Wire.Request.{add_lengths, write_args, fill_strbuf, copy_args, send_req, k_max_msg}
use cachetron.Connection.Buffers.{drop_add}

take-length : (xs ys : List ℕ) → take (length xs) (xs ++ ys) ≡ xs
take-length [] ys = refl
take-length (x ∷ xs) ys = ap (λ l. x ∷ l) (take-length xs ys)

-- A write behind the first part of an array.
write_range_lem :
    (pre new old : List ℕ) (i : ℕ)
    → i ≡ length pre
    → length new ≤ length old
    → write_range (pre ++ old) i new ≡ ok ((pre ++ new) ++ drop (length new) old)
write_range_lem pre new old i e fits =
    let inside : leb (length pre + length new) (length (pre ++ old)) ≡ true =
      le→leb _ _ (omega (arith, length-append pre old)) in
    let rest : drop (length pre + length new) (pre ++ old) ≡ drop (length new) old =
      drop_add (length pre) (length new) (pre ++ old)
      ∙ ap (drop (length new)) (drop-length pre old) in
    rw (e, inside, rest, take-length pre old)
      (ap ok (sym (append_assoc pre new (drop (length new) old))))

-- The text that is copied out of `strbuf` is the argument.
fill_strbuf_lem :
    (s : List ℕ)
    → length s < k_max_msg
    → (strbuf : List ℕ) × (fill_strbuf s ≡ ok strbuf) × (read_range strbuf 0 (length s) ≡ ok s)
unfolding fill_strbuf
fill_strbuf_lem [] small = (replicate k_max_msg 0, refl, refl)
fill_strbuf_lem (c ∷ s) small =
    let zeros = replicate k_max_msg 0 in
    let text = (c ∷ s) ++ 0 ∷ [] in
    let left = drop (length text) zeros in
    let run : write_range zeros 0 text ≡ ok (text ++ left) =
      write_range_lem [] text zeros 0 refl
        (omega (arith, length-append (c ∷ s) (0 ∷ []), length-replicate {A = ℕ} k_max_msg 0)) in
    (
      text ++ left,
      run,
      ap (λ l. read_range l 0 (length (c ∷ s))) (append_assoc (c ∷ s) (0 ∷ []) left)
          ∙ read_range_lem [] (c ∷ s) (0 ∷ left) 0 (length (c ∷ s)) refl refl,
    )

-- The second loop writes the arguments one behind the other.
copy_args_lem :
    (cmd : List (List ℕ)) (pre old : List ℕ) (cur : ℕ)
    → cur ≡ length pre
    → length (write_args cmd) ≤ length old
    → length (write_args cmd) ≤ k_max_msg
    → copy_args cmd (pre ++ old) cur
      ≡ ok ((pre ++ write_args cmd) ++ drop (length (write_args cmd)) old)
unfolding copy_args write_args
copy_args_lem [] pre old cur e fits small = ap (λ l. ok (l ++ old)) (sym (append-nil pre))
copy_args_lem (s ∷ cmd) pre old cur e fits small =
    let size = bytes_of 4 (length s) in
    let four = length-bytes_of 4 (length s) in
    let rest = write_args cmd in
    let total : length (size ++ (s ++ rest)) ≡ 4 + (length s + length rest) =
      omega (arith, length-append size (s ++ rest), length-append s rest) in
    let plain : length s % 2 ^ 32 ≡ length s = omega arith in
    let (strbuf, filled, text) = fill_strbuf_lem s (omega arith) in
    let old1 = drop (length size) old in
    let old2 = drop (length s) old1 in
    let left1 = length-drop (length size) old in
    let left2 = length-drop (length s) old1 in
    let sized : write_range (pre ++ old) cur size ≡ ok ((pre ++ size) ++ old1) =
      write_range_lem pre size old cur e (omega arith) in
    let put : write_range ((pre ++ size) ++ old1) (cur + 4) s ≡ ok (((pre ++ size) ++ s) ++ old2) =
      write_range_lem (pre ++ size) s old1 (cur + 4) (omega (arith, length-append pre size))
        (omega arith) in
    let others : copy_args cmd (((pre ++ size) ++ s) ++ old2) (cur + (4 + length s))
        ≡ ok ((((pre ++ size) ++ s) ++ rest) ++ drop (length rest) old2) =
      copy_args_lem cmd ((pre ++ size) ++ s) old2 (cur + (4 + length s))
        (omega (arith, length-append (pre ++ size) s, length-append pre size)) (omega arith)
        (omega arith) in
    let shape : ((pre ++ size) ++ s) ++ rest ≡ pre ++ (size ++ (s ++ rest)) =
      append_assoc (pre ++ size) s rest ∙ append_assoc pre size (s ++ rest) in
    let behind : drop (length rest) old2 ≡ drop (length (size ++ (s ++ rest))) old =
      sym (drop_add (length s) (length rest) old1)
      ∙ sym (drop_add (length size) (length s + length rest) old)
      ∙ ap (λ n. drop n old) {y = length (size ++ (s ++ rest))} (omega arith) in
    rw (plain, filled, sized, text, put)
      (others
        ∙ ap ok (
            ap (λ l. l ++ drop (length rest) old2) shape
            ∙ ap (λ l. (pre ++ (size ++ (s ++ rest))) ++ l) behind))

-- A length, a count and the arguments, written into an array that has room for them.
frame_lem :
    (cmd : List (List ℕ)) (zeros len n : List ℕ)
    → length len ≡ 4
    → length n ≡ 4
    → length zeros ≡ 4 + k_max_msg
    → 4 + length (write_args cmd) ≤ k_max_msg
    → (write_range zeros 0 len >>= λ with_len. write_range with_len 4 n >>= λ with_n.
        copy_args cmd with_n 8 >>= λ wbuf.
        read_range wbuf 0 (8 + length (write_args cmd)) >>= λ bytes. ok (some bytes))
      ≡ ok (some (len ++ (n ++ write_args cmd)))
frame_lem cmd zeros len n four four' room fits =
    let args = write_args cmd in
    let old1 = drop (length len) zeros in
    let old2 = drop (length n) old1 in
    let left = drop (length args) old2 in
    let left1 = length-drop (length len) zeros in
    let left2 = length-drop (length n) old1 in
    let first : write_range zeros 0 len ≡ ok (len ++ old1) =
      write_range_lem [] len zeros 0 refl (omega arith) in
    let second : write_range (len ++ old1) 4 n ≡ ok ((len ++ n) ++ old2) =
      write_range_lem len n old1 4 (omega arith) (omega arith) in
    let third : copy_args cmd ((len ++ n) ++ old2) 8 ≡ ok (((len ++ n) ++ args) ++ left) =
      copy_args_lem cmd (len ++ n) old2 8 (omega (arith, length-append len n)) (omega arith)
        (omega arith) in
    let sent : read_range (((len ++ n) ++ args) ++ left) 0 (8 + length args)
        ≡ ok ((len ++ n) ++ args) =
      read_range_lem [] ((len ++ n) ++ args) left 0 (8 + length args) refl
        (omega (arith, length-append (len ++ n) args, length-append len n)) in
    rw (first, second, third, sent) (ap (λ l. ok (some l)) (append_assoc len n args))

-- All bytes that `send_req` hands to `write_all`.
pub send_req-bytes :
    (cmd : List (List ℕ))
    → add_lengths 4 cmd ≡ 4 + length (write_args cmd)
    → 4 + length (write_args cmd) ≤ k_max_msg
    → length cmd < 2 ^ 32
    → send_req cmd
      ≡ ok (
          some (
            bytes_of 4 (4 + length (write_args cmd))
            ++ (bytes_of 4 (length cmd) ++ write_args cmd)))
unfolding send_req
send_req-bytes cmd added fits few =
    let size = 4 + length (write_args cmd) in
    let plain : length cmd % 2 ^ 32 ≡ length cmd = omega arith in
    let all : 4 + size ≡ 8 + length (write_args cmd) = omega arith in
    rw (added, ge→ltb k_max_msg size fits, plain, all)
      (frame_lem cmd (replicate (4 + k_max_msg) 0) (bytes_of 4 size) (bytes_of 4 (length cmd))
        (length-bytes_of 4 size) (length-bytes_of 4 (length cmd))
        (length-replicate {A = ℕ} (4 + k_max_msg) 0) fits)
