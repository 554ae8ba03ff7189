-- ===== src/Deque/Stocked.antt =====
-- A deque whose elements were all written stays one, where `realloc` moves each array.
use mathlib.Core.Path.{subst}
use native.Mathlib.Decide.{dec_lt}
use cachetron.Prelude.{
  ℕ, ◌*◌, ◌%◌, ◌^◌, ◌<◌, ◌≡◌, refl, sym, ap, ◌∙◌, Bool, true, false, inl, inr, Bool-cases, Option,
  none, some, List, [], ◌∷◌, ◌++◌, ◌&&◌, arith, if_true, if_false,
}
use cachetron.Prelude.Result.{ok, ok_inj}
use cachetron.Deque.{
  Deque, create_deque, deque_empty, deque_front, deque_pop_front, deque_push_back,
}
use cachetron.Deque.Ends.{IsValid, contents}
use cachetron.Deque.Pop.{deque_pop_front_lem, deque_front-pop}
use cachetron.Deque.Resize.{
  Growable, deque_push_back_lem, deque_push_back-moved, deque_push_back-refused,
}

-- All cells were written.
abbrev Written {ℓ} : {A : Type ℓ} → List (Option A) → Type 0
Written [] = Unit
Written (none ∷ xs) = ⊥
Written (some x ∷ xs) = Written xs

Written-append {ℓ} :
    {A : Type ℓ} (xs : List (Option A)) (y : A) → Written xs → Written (xs ++ some y ∷ [])
Written-append [] y h = tt
Written-append (some x ∷ xs) y h = Written-append xs y h
Written-append (none ∷ xs) y h = h

-- A well-formed deque of cells that were written.
pub record Stocked {ℓ} {A : Type ℓ} (d : Deque A) : Type ℓ where
  pub valid : IsValid d
  pub written : Written (contents d)

module _ {ℓ} {A : Type ℓ} (d : Deque A) (v : Stocked d) where
  has_some : deque_empty d ≡ false → 0 < d.size
  unfolding deque_empty
  has_some e = ground arith

  pub deque_pop_front-Stocked :
      (x : Option A) (d' : Deque A)
      → deque_empty d ≡ false
      → deque_pop_front d ≡ ok (x, d')
      → Stocked d'
  deque_pop_front-Stocked x d' e run =
      let (y, d1, run1, valid, split) = deque_pop_front_lem d v.valid (has_some e) in
      let same : d1 ≡ d' = ap (λ r. r.1) (ok_inj (sym run1 ∙ run)) in
      subst Stocked same
        (record { valid = valid; written = rest y d1 (subst Written split v.written) })
    where
      rest : (y : Option A) (d1 : Deque A) → Written (y ∷ contents d1) → Written (contents d1)
      rest (some y) d1 h = h
      rest none d1 h = absurd h

  -- The front of a deque that is not empty was written.
  pub deque_front-Stocked : deque_empty d ≡ false → (a : A) × (deque_front d ≡ ok (some a))
  deque_front-Stocked e =
      let (y, d1, run, valid, split) = deque_pop_front_lem d v.valid (has_some e) in
      first y d1 (subst Written split v.written) (deque_front-pop d y d1 e run)
    where
      first :
          (y : Option A) (d1 : Deque A)
          → Written (y ∷ contents d1)
          → deque_front d ≡ ok y
          → (a : A) × (deque_front d ≡ ok (some a))
      first (some a) d1 h e = (a, e)
      first none d1 h e = absurd h

  module _ (alloc : ℕ → Bool) (small : (n : ℕ) → alloc n ≡ true → n < 2 ^ 63) where
    pub deque_push_back-Stocked :
        (y : A) (b : Bool) (d' : Deque A)
        → deque_push_back alloc false d (some y) ≡ ok (b, d')
        → Stocked d'
    deque_push_back-Stocked y b d' run = elim (dec_lt d.size d.capacity) [
      | yes room ↦ grown (inl room)
      | no over ↦
          let full : d.size ≡ d.capacity = omega (arith, v.valid.fits) in
          let plain : (d.capacity * 2) % 2 ^ 64 ≡ d.capacity * 2 = omega (arith, v.valid.small) in
          elim (Bool-cases (alloc ((d.capacity * 2) % 2 ^ 64))) [
            | inr refused ↦
                unchanged (deque_push_back-refused alloc false d v.valid full refused (some y))
            | inl given ↦ elim (dec_lt d.back d.front) [
              | yes wraps ↦ absurd (
                  cc (
                    deque_push_back-moved alloc false d v.valid full wraps given refl (some y),
                    run,
                  ))
              | no order ↦
                  let doubled = subst (λ n. alloc n ≡ true) plain given in
                  grown (inr (full, omega arith, doubled, small (d.capacity * 2) doubled))
            ]
          ]
    ]
      where
        unchanged : deque_push_back alloc false d (some y) ≡ ok (false, d) → Stocked d'
        unchanged kept = subst Stocked (ap (λ r. r.1) (ok_inj (sym kept ∙ run))) v

        grown : Growable alloc false d v.valid → Stocked d'
        grown g =
            let (d1, run1, valid, all) = deque_push_back_lem alloc false d v.valid g (some y) in
            let same : d1 ≡ d' = ap (λ r. r.1) (ok_inj (sym run1 ∙ run)) in
            subst Stocked same (record {
              valid = valid;
              written = subst Written (sym all) (Written-append (contents d) y v.written);
            })

module _ {ℓ} {A : Type ℓ} (alloc : ℕ → Bool) where
  some_inj : {a b : Deque A} → some a ≡ some b → a ≡ b
  some_inj e = cc

  pub create_deque-Stocked : (d : Deque A) → create_deque alloc false ≡ some d → Stocked d
  unfolding create_deque
  create_deque-Stocked d made = elim (Bool-cases (alloc 5 && alloc 16)) [
    | inr refused ↦ absurd (cc (if_false (alloc 5 && alloc 16) _ _ (some d) refused made))
    | inl given ↦
        subst Stocked (some_inj (if_true (alloc 5 && alloc 16) _ _ (some d) given made)) (record {
          valid = record {
            width = refl;
            fits = omega arith;
            some_room = omega arith;
            small = omega arith;
            front_in = λ h. absurd (omega arith);
            back_at = λ h. absurd (omega arith);
          };
          written = tt;
        })
  ]
