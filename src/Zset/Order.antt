-- ===== src/Zset/Order.antt =====
-- The order of the tuples: by score, and by name where the scores are equal.
use cachetron.Prelude.{ℕ, zero, suc, ◌^◌, ◌<◌, ◌≡◌, refl, List, [], ◌∷◌, length, arith, min}
use cachetron.Prelude.{Bool, true, false, not, ltb, ◌==◌, if◌then◌else◌, Bool-cases, inl, inr, ◌⊎◌}
use cachetron.Branchless.{min_size, min_size_lem}
use cachetron.Zset.{ZNode, memcmp, by_sign, zless}

-- The order of a dictionary, byte by byte; a beginning comes before what it begins.
pub name_less : List ℕ → List ℕ → Bool
name_less [] [] = false
name_less [] (y ∷ ys) = true
name_less (x ∷ xs) [] = false
name_less (x ∷ xs) (y ∷ ys) = let rest = name_less xs ys in if x == y then rest else ltb x y

ltb-suc : (m n : ℕ) → ltb (suc m) (suc n) ≡ ltb m n
ltb-suc m n = ground arith

memcmp_less :
    (xs ys : List ℕ) (n : ℕ)
    → n ≡ min (length xs) (length ys)
    → by_sign (memcmp xs ys n) (ltb (length xs) (length ys)) ≡ name_less xs ys
unfolding memcmp by_sign name_less
memcmp_less [] [] zero e = refl
memcmp_less [] (y ∷ ys) zero e = ground arith
memcmp_less (x ∷ xs) [] zero e = ground arith
memcmp_less [] ys (suc n) e = absurd (omega arith)
memcmp_less (x ∷ xs) [] (suc n) e = absurd (omega arith)
memcmp_less (x ∷ xs) (y ∷ ys) zero e = absurd (omega arith)
memcmp_less (x ∷ xs) (y ∷ ys) (suc n) e =
    let rest = memcmp_less xs ys n (omega arith) in
    elim (Bool-cases (x == y)) [
      | inl here ↦ rw (here, ltb-suc (length xs) (length ys)) rest
      | inr here ↦ elim (Bool-cases (ltb x y)) [
        | inl less ↦ rw (here, less) refl
        | inr more ↦ rw (here, more) refl
      ]
    ]

pub name_less_trans :
    (xs ys zs : List ℕ) → name_less xs ys ≡ true → name_less ys zs ≡ true → name_less xs zs ≡ true
unfolding name_less
name_less_trans [] [] zs p q = q
name_less_trans (x ∷ xs) [] zs p q = absurd (cc)
name_less_trans xs (y ∷ ys) [] p q = absurd (cc)
name_less_trans [] (y ∷ ys) (z ∷ zs) p q = refl
name_less_trans (x ∷ xs) (y ∷ ys) (z ∷ zs) p q =
    let rest = name_less_trans xs ys zs in
    elim (Bool-cases (x == y)) [ inl e ↦ ground (arith, rest) | inr e ↦ ground (arith, rest) ]

-- A name between two others is behind the first or before the second.
pub name_less_split :
    (xs ys zs : List ℕ)
    → name_less xs zs ≡ true
    → (name_less xs ys ≡ true) ⊎ (name_less ys zs ≡ true)
unfolding name_less
name_less_split [] [] zs p = inr p
name_less_split [] (y ∷ ys) zs p = inl refl
name_less_split (x ∷ xs) ys [] p = absurd (cc)
name_less_split (x ∷ xs) [] (z ∷ zs) p = inr refl
name_less_split (x ∷ xs) (y ∷ ys) (z ∷ zs) p =
    let rest = name_less_split xs ys zs in
    elim (Bool-cases (x == y)) [
      | inr e ↦ elim (Bool-cases (ltb x y)) [
        | inl less ↦ inl (ground arith)
        | inr more ↦ inr (ground arith)
      ]
      | inl e ↦ elim (Bool-cases (y == z)) [
        | inr e' ↦ inr (ground arith)
        | inl e' ↦ elim (rest (ground arith)) [
          | inl q ↦ inl (ground arith)
          | inr q ↦ inr (ground arith)
        ]
      ]
    ]

-- The comparisons of doubles that are no NaN: each double has a rank, and 0 and -0 have the same.
pub record Comparison {ℓ} {D : Type ℓ} (ne less : D → D → Bool) : Type ℓ where
  pub rank : D → ℕ
  pub ne_lem : (x y : D) → ne x y ≡ not (rank x == rank y)
  pub less_lem : (x y : D) → less x y ≡ ltb (rank x) (rank y)

-- The order of tuples, from the ranks of their scores.
pub tuple_less : ℕ → List ℕ → ℕ → List ℕ → Bool
unfolding name_less
tuple_less r xs q ys = if r == q then name_less xs ys else ltb r q

module _ {ℓ} {D : Type ℓ} (ne less : D → D → Bool) (c : Comparison ne less) where
  -- With the comparisons of doubles that are no NaN and names of fewer than 2^64 bytes, `zless` is the
  -- order by score and then by name in the order of a dictionary.
  pub zless_lem :
      (zl : ZNode D) (score : D) (name : List ℕ)
      → length zl.name < 2 ^ 64
      → length name < 2 ^ 64
      → zless ne less zl score name ≡ tuple_less (c.rank zl.score) zl.name (c.rank score) name
  unfolding zless tuple_less
  zless_lem zl score name p q =
      let names =
        memcmp_less zl.name name (min_size (length zl.name) (length name))
          (min_size_lem (length zl.name) (length name) p q) in
      elim (Bool-cases (c.rank zl.score == c.rank score)) [
        | inl e ↦ rw (c.ne_lem zl.score score, e) names
        | inr e ↦ rw (c.ne_lem zl.score score, e) (c.less_lem zl.score score)
      ]

pub tuple_less_trans :
    (a b d : ℕ) (xs ys zs : List ℕ)
    → tuple_less a xs b ys ≡ true
    → tuple_less b ys d zs ≡ true
    → tuple_less a xs d zs ≡ true
unfolding tuple_less
tuple_less_trans a b d xs ys zs p q = let names = name_less_trans xs ys zs in ground (arith, names)

pub tuple_less_split :
    (a b d : ℕ) (xs ys zs : List ℕ)
    → tuple_less a xs d zs ≡ true
    → (tuple_less a xs b ys ≡ true) ⊎ (tuple_less b ys d zs ≡ true)
unfolding tuple_less
tuple_less_split a b d xs ys zs p =
    let rest = name_less_split xs ys zs in
    elim (Bool-cases (a == b)) [
      | inr e ↦ elim (Bool-cases (ltb a b)) [
        | inl l ↦ inl (ground arith)
        | inr l ↦ inr (ground arith)
      ]
      | inl e ↦ elim (Bool-cases (b == d)) [
        | inr e' ↦ inr (ground arith)
        | inl e' ↦ elim (rest (ground arith)) [
          | inl q ↦ inl (ground arith)
          | inr q ↦ inr (ground arith)
        ]
      ]
    ]

name_less_irrefl : (xs : List ℕ) → name_less xs xs ≡ false
unfolding name_less
name_less_irrefl [] = refl
name_less_irrefl (x ∷ xs) = ground (arith, name_less_irrefl xs)

pub tuple_less_irrefl : (a : ℕ) (xs : List ℕ) → tuple_less a xs a xs ≡ false
unfolding tuple_less
tuple_less_irrefl a xs = ground (arith, name_less_irrefl xs)
