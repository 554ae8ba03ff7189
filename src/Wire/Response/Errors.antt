-- ===== src/Wire/Response/Errors.antt =====
-- `out_err` puts an error with its message behind what the string holds.
use cachetron.Prelude.{ℕ, ◌<◌, ◌≡◌, ◌≢◌, refl, ap, ◌∙◌}
use cachetron.Prelude.{
  Bool, true, false, some, List, [], ◌∷◌, ◌++◌, arith, length, All, leb, le→leb,
}
use cachetron.Prelude.{◌==◌, add_size, length-append}
use cachetron.Prelude.Memory.{take-append}
use cachetron.Prelude.Result.{ok, ◌>>=◌}
use cachetron.LiteString.{contents, string_append_cstr, string_append_cstr_range}
use cachetron.LiteString.Append.{copy_behind-added}
use cachetron.Wire.{bytes_of, strlen}
use cachetron.Wire.Words.{strlen-append}
use cachetron.Wire.Response.{push, append, string_of, out_err}
use cachetron.Wire.Response.Encode.{Reply, encode}
use cachetron.Wire.Response.Writes.{Writes, Writes-then, push-Writes, word-Writes, reserved}

module _ (alloc : ℕ → Bool) (given : (n : ℕ) → alloc n ≡ true) (text : List ℕ)
    (plain : All (λ c. c ≢ 0) text) (some_text : 0 < length text) where
  abbrev msg : List ℕ
  msg = text ++ 0 ∷ []

  strlen-msg : strlen msg ≡ ok (length text)
  unfolding strlen
  strlen-msg = strlen-append text (0 ∷ []) 0 plain refl ∙ ap ok (omega arith)

  -- The bytes of a C string.
  cstr-Writes : Writes (λ s. string_of (string_append_cstr alloc s (some msg))) text
  unfolding string_append_cstr string_append_cstr_range
  cstr-Writes s v small =
      let not_empty : (length text == 0) ≡ false = ground arith in
      let whole : leb (length text) (length text) ≡ true = le→leb _ _ (omega arith) in
      let (s₁, run, r) = reserved alloc given s (add_size s.size (length text)) v (omega arith) in
      let (s₂, copied, v₂, e) =
        copy_behind-added alloc s s₁ msg (length text) v
          (omega (arith, length-append text (0 ∷ []))) (omega arith) r in
      (
        s₂,
        rw (strlen-msg, not_empty, whole, run, copied),
        v₂,
        e ∙ ap (λ l. contents s ++ l) (take-append text (0 ∷ [])),
      )

  -- The error, its code, the length of the message and the message without its terminator.
  pub out_err-Writes :
      (code : ℕ) → Writes (λ out. out_err alloc out code msg) (encode (Reply.err code text))
  unfolding out_err encode
  out_err-Writes code = rw strlen-msg (
      Writes-then (push alloc 1)
        (λ s. append alloc (bytes_of 4 code) 4 s >>= λ s₁.
          append alloc (bytes_of 4 (length text)) 4 s₁ >>= λ s₂.
          string_of (string_append_cstr alloc s₂ (some msg)))
        (1 ∷ []) _ (push-Writes alloc given 1)
        (Writes-then (append alloc (bytes_of 4 code) 4)
          (λ s₁. append alloc (bytes_of 4 (length text)) 4 s₁ >>= λ s₂.
            string_of (string_append_cstr alloc s₂ (some msg)))
          (bytes_of 4 code) _ (word-Writes alloc given 4 code)
          (Writes-then (append alloc (bytes_of 4 (length text)) 4)
            (λ s₂. string_of (string_append_cstr alloc s₂ (some msg))) (bytes_of 4 (length text))
            text (word-Writes alloc given 4 (length text)) cstr-Writes)))
