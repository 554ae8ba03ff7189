-- ===== src/Prelude/Result.antt =====
-- Code that may reach undefined behaviour, or fail an `assert`, returns a `Result`.
use mathlib.Core.Path.{◌≡◌, refl}
use mathlib.Core.Option.{Option, none, some}
use mathlib.Core.List.{List, [], ◌∷◌}
use Prim.Native.Nat.{ℕ, zero, suc, ◌<◌}
use native.Mathlib.Omega.{arith}
use cachetron.Prelude.Lists.{length, get_or}

-- `null_deref` reads through a null pointer, `out_of_bounds` leaves an array, `use_after_free`
-- reads freed storage, `assertion` is a failed `assert`, `diverged` is a loop out of fuel.
pub data Fault : Type 0 where
  null_deref out_of_bounds use_after_free assertion diverged : Fault

pub data Result {ℓ} (A : Type ℓ) : Type ℓ where
  ok : A → Result A
  fault : Fault → Result A

infixl 5 ◌>>=◌
abbrev pub ◌>>=◌ {ℓ κ} : {A : Type ℓ} {B : Type κ} → Result A → (A → Result B) → Result B
ok a >>= f = f a
fault e >>= f = fault e

-- A pointer that is read.
abbrev pub deref {ℓ} : {A : Type ℓ} → Option A → Result A
deref none = fault null_deref
deref (some a) = ok a

-- `xs[i]`
abbrev pub at {ℓ} : {A : Type ℓ} → List A → ℕ → Result A
at [] i = fault out_of_bounds
at (x ∷ xs) zero = ok x
at (x ∷ xs) (suc i) = at xs i

pub at-get_or {ℓ} :
    {A : Type ℓ} (xs : List A) (i : ℕ) (d : A) → i < length xs → at xs i ≡ ok (get_or xs i d)
at-get_or [] i d h = absurd (omega arith)
at-get_or (x ∷ xs) zero d h = refl
at-get_or (x ∷ xs) (suc i) d h = at-get_or xs i d (omega arith)

pub ok_inj {ℓ} : {A : Type ℓ} {a b : A} → ok a ≡ ok b → a ≡ b
ok_inj e = cc

-- A chain that ends well, and its first part.
pub bind-ok {ℓ κ} :
    {A : Type ℓ} {B : Type κ} (r : Result A) (f : A → Result B) (b : B)
    → (r >>= f) ≡ ok b
    → (a : A) × (r ≡ ok a) × (f a ≡ ok b)
bind-ok (ok a) f b e = (a, refl, e)
bind-ok (fault x) f b e = absurd (cc e)
