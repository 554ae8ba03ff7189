-- ===== src/LiteString/Compare/Equal.antt =====
-- `string_compare` tells whether two strings hold the same bytes.
use cachetron.Prelude.{ℕ, ◌+◌, ◌≤◌, ◌≡◌, refl, ap, ◌∙◌, sym, Bool, true, false, inl, inr}
use cachetron.Prelude.{
  List, [], ◌∷◌, some, arith, length, take, leb, le→leb, ◌==◌, eqb→eq, eqb-false,
}
use cachetron.Prelude.{eqb_refl, Bool-cases, ◌&&◌}
use cachetron.Prelude.Memory.{length-take}
use cachetron.Prelude.Result.{ok}
use cachetron.LiteString.{LiteString, contents}
use cachetron.LiteString.Compare.{same_bytes, string_compare}

pub same_bytes-eq : (xs ys : List ℕ) → same_bytes xs ys ≡ true → xs ≡ ys
unfolding same_bytes
same_bytes-eq [] [] h = refl
same_bytes-eq [] (y ∷ ys) h = absurd cc
same_bytes-eq (x ∷ xs) [] h = absurd cc
same_bytes-eq (x ∷ xs) (y ∷ ys) h = elim (Bool-cases (x == y)) [
  | inl e ↦ cc (eqb→eq x y e, same_bytes-eq xs ys (rest e h))
  | inr d ↦ absurd (none_left d h)
]
  where
    rest : (x == y) ≡ true → ((x == y) && same_bytes xs ys) ≡ true → same_bytes xs ys ≡ true
    rest e h = cc

    none_left : (x == y) ≡ false → ((x == y) && same_bytes xs ys) ≡ true → ⊥
    none_left d h = cc

pub same_bytes_refl : (xs : List ℕ) → same_bytes xs xs ≡ true
unfolding same_bytes
same_bytes_refl [] = refl
same_bytes_refl (x ∷ xs) = rw (eqb_refl x) (same_bytes_refl xs)

same_length :
    (s t : LiteString)
    → s.size ≤ length s.cells
    → t.size ≤ length t.cells
    → contents s ≡ contents t
    → s.size ≡ t.size
same_length s t h k e =
    sym (length-take s.size s.cells h) ∙ ap length e ∙ length-take t.size t.cells k

-- For two strings that lie in their arrays `string_compare` stays in them, and answers true exactly
-- where the strings hold the same bytes.
pub string_compare_lem :
    (s t : LiteString)
    → s.size ≤ length s.cells
    → t.size ≤ length t.cells
    → (b : Bool) × (string_compare (some s) (some t) ≡ ok b)
      × (b ≡ true → contents s ≡ contents t)
      × (contents s ≡ contents t → b ≡ true)
unfolding string_compare
string_compare_lem s t h k = elim (Bool-cases (s.size == t.size)) [
  | inr differ ↦ (
    false,
    rw differ,
    λ e. absurd cc,
    λ e. absurd (eqb-false s.size t.size differ (same_length s t h k e)),
  )
  | inl same ↦
      let e = eqb→eq s.size t.size same in
      let first : leb (0 + s.size) (length s.cells) ≡ true = le→leb _ _ (omega arith) in
      let second : leb (0 + s.size) (length t.cells) ≡ true = le→leb _ _ (omega arith) in
      let cut : take s.size t.cells ≡ contents t = ap (λ n. take n t.cells) e in
      (
        same_bytes (contents s) (take s.size t.cells),
        rw (same, first, second),
        λ yes. same_bytes-eq (contents s) (take s.size t.cells) yes ∙ cut,
        λ eq. ap (same_bytes (contents s)) (cut ∙ sym eq) ∙ same_bytes_refl (contents s),
      )
]
