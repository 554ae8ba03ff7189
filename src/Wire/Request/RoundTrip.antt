-- ===== src/Wire/Request/RoundTrip.antt =====
-- What the client sends is what the server parses.
use cachetron.Prelude.{ℕ, ◌+◌, ◌*◌, ◌%◌, ◌^◌, ◌<◌, ◌≤◌, ◌≡◌, ◌≢◌, refl, sym, ap, ◌∙◌}
use cachetron.Prelude.{true, List, [], ◌∷◌, ◌++◌, some, arith, length, drop, All}
use cachetron.Prelude.{leb, ge→ltb, le→leb, ◌==◌, eqb_refl, length-append}
use cachetron.Prelude.{append_assoc, append-nil, Bool-cases, inl, inr, eqb→eq}
use cachetron.Prelude.Result.{ok}
use cachetron.Wire.{bytes_of, read_word, strlen}
use cachetron.Wire.Words.{
  length-bytes_of, drop-length, read_range_lem, read_word_lem, HasNul, HasNul-append, strlen-append,
}
use cachetron.Wire.Request.Send.{send_req-bytes}
use cachetron.Wire.Request.{
  append_arg, parse_args, parse_req, add_lengths, write_args, send_req, k_max_args, k_max_msg,
}

-- No byte is zero.
abbrev pub IsText : List ℕ → Type 0
IsText s = All (λ c. c ≢ 0) s

empty_of_length : (s : List ℕ) → length s ≡ 0 → s ≡ []
empty_of_length [] e = refl
empty_of_length (c ∷ s) e = absurd (omega arith)

append_arg_lem :
    (pre s post : List ℕ) (pos : ℕ)
    → pos ≡ length pre
    → IsText s
    → HasNul post
    → append_arg (pre ++ (s ++ post)) pos (length s) ≡ ok s
unfolding append_arg
append_arg_lem pre s post pos e text (k, nul) = elim (Bool-cases (length s == 0)) [
  | inl empty ↦ rw empty (ap ok (sym (empty_of_length s (eqb→eq (length s) 0 empty))))
  | inr some_text ↦
      let long : leb (length s) (length s + k) ≡ true = le→leb _ _ (omega arith) in
      let there : strlen (drop (length pre) (pre ++ (s ++ post))) ≡ ok (length s + k) =
        rw (drop-length pre (s ++ post)) (strlen-append s post k text nul) in
      rw (some_text, e, there, long) (read_range_lem pre s post (length pre) (length s) refl refl)
]

-- The arguments behind a place are read one by one, up to the place behind the last.
parse_args_lem :
    (cmd : List (List ℕ)) (pre post : List ℕ) (pos len : ℕ) (out : List (List ℕ))
    → pos ≡ length pre
    → len ≡ pos + length (write_args cmd)
    → len < 2 ^ 32
    → All IsText cmd
    → HasNul post
    → parse_args (length cmd) (pre ++ (write_args cmd ++ post)) len pos out
      ≡ ok (some (len, out ++ cmd))
unfolding parse_args write_args
parse_args_lem [] pre post pos len out e f small text nul =
    let there : pos ≡ len = omega arith in rw (there, append-nil out)
parse_args_lem (s ∷ cmd) pre post pos len out e f small text nul =
    let size = bytes_of 4 (length s) in
    let four = length-bytes_of 4 (length s) in
    let rest = write_args cmd ++ post in
    let total : length (size ++ (s ++ write_args cmd)) ≡ 4 + (length s + length (write_args cmd)) =
      omega (arith, length-append size (s ++ write_args cmd), length-append s (write_args cmd)) in
    let shape : pre ++ ((size ++ (s ++ write_args cmd)) ++ post) ≡ pre ++ (size ++ (s ++ rest)) =
      ap (λ l. pre ++ l)
        (append_assoc size (s ++ write_args cmd) post
          ∙ ap (λ l. size ++ l) (append_assoc s (write_args cmd) post)) in
    let shape2 : pre ++ (size ++ (s ++ rest)) ≡ (pre ++ size) ++ (s ++ rest) =
      sym (append_assoc pre size (s ++ rest)) in
    let shape3 : (pre ++ size) ++ (s ++ rest) ≡ ((pre ++ size) ++ s) ++ rest =
      sym (append_assoc (pre ++ size) s rest) in
    let next : pos + 4 ≡ length (pre ++ size) = omega (arith, length-append pre size) in
    let after : pos + 4 + length s ≡ length ((pre ++ size) ++ s) =
      omega (arith, length-append (pre ++ size) s) in
    let word : read_word 4 (pre ++ (size ++ (s ++ rest))) pos ≡ ok (length s) =
      read_word_lem 4 (length s) pre (s ++ rest) pos e (omega arith) in
    let arg : append_arg (pre ++ (size ++ (s ++ rest))) (pos + 4) (length s) ≡ ok s = rw shape2 (
      append_arg_lem (pre ++ size) s rest (pos + 4) next text.0
        (HasNul-append (write_args cmd) post nul)) in
    let others : parse_args (length cmd) (pre ++ (size ++ (s ++ rest))) len (pos + 4 + length s)
          (out ++ s ∷ [])
        ≡ ok (some (len, (out ++ s ∷ []) ++ cmd)) =
      rw (shape2, shape3)
        (parse_args_lem cmd ((pre ++ size) ++ s) post (pos + 4 + length s) len (out ++ s ∷ []) after
          (omega arith) small text.1 nul) in
    rw
      (
        shape,
        ge→ltb len (pos + 4) (omega arith),
        word,
        ge→ltb len (pos + 4 + length s) (omega arith),
        arg,
      )
      (others ∙ ap (λ l. ok (some (len, l))) (append_assoc out (s ∷ []) cmd))

-- The length that the client adds up, as long as the 32-bit counter does not wrap.
add_lengths_lem :
    (cmd : List (List ℕ)) (len : ℕ)
    → len + length (write_args cmd) < 2 ^ 32
    → add_lengths len cmd ≡ len + length (write_args cmd)
unfolding add_lengths write_args
add_lengths_lem [] len h = omega arith
add_lengths_lem (s ∷ cmd) len h =
    let size = bytes_of 4 (length s) in
    let total : length (size ++ (s ++ write_args cmd)) ≡ 4 + (length s + length (write_args cmd)) =
      omega (
        arith,
        length-append size (s ++ write_args cmd),
        length-append s (write_args cmd),
        length-bytes_of 4 (length s),
      ) in
    let next : (len + (4 + length s)) % 2 ^ 32 ≡ len + 4 + length s = omega arith in
    rw next (omega (arith, add_lengths_lem cmd (len + 4 + length s) (omega arith)))

-- Each argument takes four bytes at least.
length-le-write_args : (cmd : List (List ℕ)) → 4 * length cmd ≤ length (write_args cmd)
unfolding write_args
length-le-write_args [] = omega arith
length-le-write_args (s ∷ cmd) =
    let size = bytes_of 4 (length s) in
    omega (
      arith,
      length-append size (s ++ write_args cmd),
      length-append s (write_args cmd),
      length-bytes_of 4 (length s),
      length-le-write_args cmd,
    )

-- Where the arguments hold no zero byte and fit one message, `send_req` stays in its arrays and sends
-- a length and a body of that length; so the length does not count its own four bytes, though the
-- comment above the function says that it does. `parse_req` reads the same arguments out of a buffer that holds the body and goes
-- on behind it with anything in which a zero byte stands.
pub send_req-parse_req :
    (cmd : List (List ℕ)) (post : List ℕ)
    → All IsText cmd
    → HasNul post
    → 4 + length (write_args cmd) ≤ k_max_msg
    → (body : List ℕ) × (send_req cmd ≡ ok (some (bytes_of 4 (length body) ++ body)))
      × (parse_req (body ++ post) (length body) ≡ ok (some cmd))
unfolding parse_req
send_req-parse_req cmd post text nul fits =
    let count = bytes_of 4 (length cmd) in
    let body = count ++ write_args cmd in
    let four = length-bytes_of 4 (length cmd) in
    let few = length-le-write_args cmd in
    let size : length body ≡ 4 + length (write_args cmd) =
      omega (arith, length-append count (write_args cmd)) in
    let added : add_lengths 4 cmd ≡ length body = add_lengths_lem cmd 4 (omega arith) ∙ sym size in
    let shape : body ++ post ≡ count ++ (write_args cmd ++ post) =
      append_assoc count (write_args cmd) post in
    let word : read_word 4 (count ++ (write_args cmd ++ post)) 0 ≡ ok (length cmd) =
      read_word_lem 4 (length cmd) [] (write_args cmd ++ post) 0 refl (omega arith) in
    let parsed : parse_args (length cmd) (count ++ (write_args cmd ++ post)) (length body) 4 []
        ≡ ok (some (length body, cmd)) =
      parse_args_lem cmd count post 4 (length body) [] (sym four) size (omega arith) text nul in
    (
      body,
      send_req-bytes cmd (added ∙ size) fits (omega arith)
          ∙ ap (λ n. ok (some (bytes_of 4 n ++ body))) (sym size),
      rw (
        shape,
        ge→ltb (length body) 4 (omega arith),
        word,
        ge→ltb k_max_args (length cmd) (omega arith),
        parsed,
        eqb_refl (length body),
      ),
    )
