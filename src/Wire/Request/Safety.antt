-- ===== src/Wire/Request/Safety.antt =====
-- `parse_req` on bytes that a client chooses.
use cachetron.Prelude.{ℕ, zero, suc, ◌+◌, ◌≤◌, ◌≡◌, refl, ap}
use cachetron.Prelude.{true, false, List, [], ◌∷◌, ◌++◌, none, some, arith, length, drop, take}
use cachetron.Prelude.{ltb, leb, le→leb, ◌==◌, length-append, Bool-cases, inl, inr}
use cachetron.Prelude.{gt→leb, ltb-false}
use cachetron.Prelude.Memory.{read_range}
use cachetron.Prelude.Result.{Result, ok, ◌>>=◌}
use cachetron.Wire.{read_word, word_of, strlen}
use cachetron.Wire.Words.{drop-length, HasNul, HasNul-append, strlen-append}
use cachetron.Wire.Request.{append_arg, parse_args, whole, parse_req, k_max_args}
use cachetron.Wire.Request.RoundTrip.{IsText}

-- A run that ends with an answer.
abbrev pub Ends {ℓ} : {A : Type ℓ} → Result A → Type ℓ
Ends {A} r = (a : A) × (r ≡ ok a)

HasNul-drop : (p : ℕ) (xs ys : List ℕ) → p ≤ length xs → HasNul ys → HasNul (drop p (xs ++ ys))
HasNul-drop zero xs ys h nul = HasNul-append xs ys nul
HasNul-drop (suc p) [] ys h nul = absurd (omega arith)
HasNul-drop (suc p) (x ∷ xs) ys h nul = HasNul-drop p xs ys (omega arith) nul

module _ (req post : List ℕ) (nul : HasNul post) where
  abbrev cells : List ℕ
  cells = req ++ post

  read_range-Ends : (pos n : ℕ) → pos + n ≤ length req → Ends (read_range cells pos n)
  read_range-Ends pos n h =
      let inside : leb (pos + n) (length cells) ≡ true =
        le→leb _ _ (omega (arith, length-append req post)) in
      (take n (drop pos cells), rw inside)

  append_arg-Ends : (pos sz : ℕ) → pos + sz ≤ length req → Ends (append_arg cells pos sz)
  unfolding append_arg
  append_arg-Ends pos sz h = elim (Bool-cases (sz == 0)) [
    | inl empty ↦ ([], rw empty)
    | inr some_text ↦
        let (k, there) = HasNul-drop pos req post (omega arith) nul in
        let (arg, read) = read_range-Ends pos sz h in
        elim (Bool-cases (leb sz k)) [
          | inl long ↦ (arg, rw (some_text, there, long) read)
          | inr short ↦ ([], rw (some_text, there, short))
        ]
  ]

  read_word-Ends : (pos : ℕ) → pos + 4 ≤ length req → Ends (read_word 4 cells pos)
  unfolding read_word
  read_word-Ends pos h =
      let (bs, read) = read_range-Ends pos 4 h in
      (word_of bs, ap (λ r. r >>= λ bs. ok (word_of bs)) read)

  parse_args-Ends :
      (n pos : ℕ) (out : List (List ℕ)) → Ends (parse_args n cells (length req) pos out)
  unfolding parse_args
  parse_args-Ends zero pos out = (some (pos, out), refl)
  parse_args-Ends (suc n) pos out = elim (Bool-cases (ltb (length req) (pos + 4))) [
    | inl cut ↦ (none, rw cut)
    | inr more ↦
        let (sz, word) = read_word-Ends pos (ltb-false _ _ more) in
        elim (Bool-cases (ltb (length req) (pos + 4 + sz))) [
          | inl cut ↦ (none, rw (more, word, cut))
          | inr there ↦
              let (arg, read) = append_arg-Ends (pos + 4) sz (ltb-false _ _ there) in
              let (r, rest) = parse_args-Ends n (pos + 4 + sz) (out ++ arg ∷ []) in
              (r, rw (more, word, there, read) rest)
        ]
  ]

  -- Whatever the bytes of a request are, `parse_req` comes to an answer and never reads outside the
  -- buffer, as long as a zero byte stands somewhere behind the request.
  pub parse_req-Ends : Ends (parse_req cells (length req))
  unfolding parse_req
  parse_req-Ends = elim (Bool-cases (ltb (length req) 4)) [
    | inl short ↦ (none, rw short)
    | inr long ↦
        let (n, word) = read_word-Ends 0 (ltb-false _ _ long) in
        elim (Bool-cases (ltb k_max_args n)) [
          | inl many ↦ (none, rw (long, word, many))
          | inr few ↦
              let (r, parsed) = parse_args-Ends n 4 [] in
              (whole (length req) r, rw (long, word, few, parsed))
        ]
  ]

-- An argument in which a zero byte stands is taken for the empty string.
pub append_arg-nul :
    (pre xs ys post : List ℕ)
    → IsText xs
    → append_arg (pre ++ (xs ++ zero ∷ (ys ++ post))) (length pre) (length (xs ++ zero ∷ ys))
      ≡ ok []
unfolding append_arg
append_arg-nul pre xs ys post text =
    let sz = length (xs ++ zero ∷ ys) in
    let long : sz ≡ length xs + suc (length ys) = length-append xs (zero ∷ ys) in
    let nonempty : (sz == 0) ≡ false = rw long (ground arith) in
    let cut : leb sz (length xs + 0) ≡ false = gt→leb _ _ (omega arith) in
    let there : strlen (drop (length pre) (pre ++ (xs ++ zero ∷ (ys ++ post))))
        ≡ ok (length xs + 0) =
      rw (drop-length pre (xs ++ zero ∷ (ys ++ post)))
        (strlen-append xs (zero ∷ (ys ++ post)) 0 text (unfold strlen in refl)) in
    rw (nonempty, there, cut)
