-- ===== src/Prelude/Lists.antt =====
-- Arrays as lists with native indices, and the counts of entries that meet a test.
use Prim.Native.Nat.{ℕ, zero, suc, ◌+◌, ◌≤◌, ◌<◌}
use mathlib.Core.Path.{◌≡◌, refl, ap}
use mathlib.Core.Logic.{◌≢◌, inl, inr}
use mathlib.Core.Bool.{Bool, true}
use mathlib.Core.List.{List, [], ◌∷◌, ◌++◌, map}
use mathlib.Core.Option.{Option, none, some}
use native.Mathlib.Omega.{arith}
use cachetron.Prelude.Tests.{to_nat, Bool-cases}

module _ {ℓ} {A : Type ℓ} where
  abbrev pub length : List A → ℕ
  length [] = 0
  length (_ ∷ xs) = suc (length xs)

  abbrev pub get_elem? : List A → ℕ → Option A
  get_elem? [] _ = none
  get_elem? (x ∷ _) zero = some x
  get_elem? (_ ∷ xs) (suc i) = get_elem? xs i

  abbrev pub get_or : List A → ℕ → A → A
  get_or [] _ d = d
  get_or (x ∷ _) zero _ = x
  get_or (_ ∷ xs) (suc i) d = get_or xs i d

  -- A write out of bounds changes nothing; the code that writes checks the index first.
  abbrev pub set : List A → ℕ → A → List A
  set [] _ _ = []
  set (_ ∷ xs) zero v = v ∷ xs
  set (x ∷ xs) (suc i) v = x ∷ set xs i v

  abbrev pub take : ℕ → List A → List A
  take zero _ = []
  take (suc n) [] = []
  take (suc n) (x ∷ xs) = x ∷ take n xs

  abbrev pub drop : ℕ → List A → List A
  drop zero xs = xs
  drop (suc n) [] = []
  drop (suc n) (x ∷ xs) = drop n xs

  -- The list less the entry at an index.
  abbrev pub remove_at : List A → ℕ → List A
  remove_at [] _ = []
  remove_at (_ ∷ xs) zero = xs
  remove_at (x ∷ xs) (suc i) = x ∷ remove_at xs i

  abbrev pub replicate : ℕ → A → List A
  replicate zero x = []
  replicate (suc n) x = x ∷ replicate n x

  -- How many entries pass the test.
  abbrev pub count : (A → Bool) → List A → ℕ
  count p [] = 0
  count p (x ∷ xs) = to_nat (p x) + count p xs

  abbrev pub All {κ} : (A → Type κ) → List A → Type κ
  All P [] = Unit
  All P (x ∷ xs) = P x × All P xs

module _ {ℓ} {A : Type ℓ} where
  pub length-append : (xs ys : List A) → length (xs ++ ys) ≡ length xs + length ys
  length-append [] ys = omega arith
  length-append (x ∷ xs) ys = omega (arith, length-append xs ys)

  pub length-set : (xs : List A) (i : ℕ) (v : A) → length (set xs i v) ≡ length xs
  length-set [] i v = refl
  length-set (x ∷ xs) zero v = refl
  length-set (x ∷ xs) (suc i) v = ap suc (length-set xs i v)

  pub get_or-set_self :
      (xs : List A) (i : ℕ) (v d : A) → i < length xs → get_or (set xs i v) i d ≡ v
  get_or-set_self [] i v d h = absurd (omega arith)
  get_or-set_self (x ∷ xs) zero v d h = refl
  get_or-set_self (x ∷ xs) (suc i) v d h = get_or-set_self xs i v d (omega arith)

  pub get_or-set_ne :
      (xs : List A) (i j : ℕ) (v d : A) → i ≢ j → get_or (set xs i v) j d ≡ get_or xs j d
  get_or-set_ne [] i j v d h = refl
  get_or-set_ne (x ∷ xs) zero zero v d h = absurd (h refl)
  get_or-set_ne (x ∷ xs) zero (suc j) v d h = refl
  get_or-set_ne (x ∷ xs) (suc i) zero v d h = refl
  get_or-set_ne (x ∷ xs) (suc i) (suc j) v d h = get_or-set_ne xs i j v d (λ e. h (ap suc e))

  pub get_or-replicate : (n i : ℕ) (x : A) → get_or (replicate n x) i x ≡ x
  get_or-replicate zero i x = refl
  get_or-replicate (suc n) zero x = refl
  get_or-replicate (suc n) (suc i) x = get_or-replicate n i x

  pub length-replicate : (n : ℕ) (x : A) → length (replicate n x) ≡ n
  length-replicate zero x = refl
  length-replicate (suc n) x = ap suc (length-replicate n x)

  pub count-append : (p : A → Bool) (xs ys : List A) → count p (xs ++ ys) ≡ count p xs + count p ys
  count-append p [] ys = omega arith
  count-append p (x ∷ xs) ys = omega (arith, count-append p xs ys)

  -- Every entry passes the test that is always true.
  pub count_all : (xs : List A) → count (λ _. true) xs ≡ length xs
  count_all [] = refl
  count_all (x ∷ xs) = omega (arith, count_all xs)

  pub count-le_all : (p : A → Bool) (xs : List A) → count p xs ≤ count (λ _. true) xs
  count-le_all p [] = omega arith
  count-le_all p (x ∷ xs) = elim (Bool-cases (p x)) [
    | inl e ↦ omega (arith, ap to_nat e, count-le_all p xs)
    | inr e ↦ omega (arith, ap to_nat e, count-le_all p xs)
  ]

pub length-map {ℓ κ} :
    {A : Type ℓ} {B : Type κ} (f : A → B) (xs : List A) → length (map f xs) ≡ length xs
length-map f [] = refl
length-map f (x ∷ xs) = ap suc (length-map f xs)
