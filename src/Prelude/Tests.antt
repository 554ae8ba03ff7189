-- ===== src/Prelude/Tests.antt =====
-- Boolean tests on native numbers and the conditional expression of C.
use Prim.Native.Nat.{ℕ, ◌+◌, ◌-◌, ◌%◌, ◌^◌, ◌≤◌, ◌<◌, compare, Ordering}
use mathlib.Core.Path.{◌≡◌, refl}
use mathlib.Core.Logic.{◌≢◌, ◌⊎◌, inl, inr}
use mathlib.Core.Bool.{Bool, true, false}
use mathlib.Core.Option.{Option, none, some}
use native.Mathlib.Omega.{arith}

abbrev pub ltb : ℕ → ℕ → Bool
ltb a b = elim (compare a b) [ Ordering.lt ↦ true | _ ↦ false ]

abbrev pub leb : ℕ → ℕ → Bool
leb a b = elim (compare a b) [ Ordering.gt ↦ false | _ ↦ true ]

infix 50 ◌==◌
abbrev pub ◌==◌ : ℕ → ℕ → Bool
a == b = elim (compare a b) [ Ordering.eq ↦ true | _ ↦ false ]

infix 1 if◌then◌else◌
abbrev pub if◌then◌else◌ {ℓ} : {A : Type ℓ} → Bool → A → A → A
if true then x else y = x
if false then x else y = y

abbrev pub to_nat : Bool → ℕ
to_nat true = 1
to_nat false = 0

pub ltb→lt : (a b : ℕ) → ltb a b ≡ true → a < b
ltb→lt a b h = ground arith

pub lt→ltb : (a b : ℕ) → a < b → ltb a b ≡ true
lt→ltb a b h = ground arith

pub ltb-false : (a b : ℕ) → ltb a b ≡ false → b ≤ a
ltb-false a b h = ground arith

pub ge→ltb : (a b : ℕ) → b ≤ a → ltb a b ≡ false
ge→ltb a b h = ground arith

pub eqb→eq : (a b : ℕ) → (a == b) ≡ true → a ≡ b
eqb→eq a b h = ground arith

pub eqb_refl : (a : ℕ) → (a == a) ≡ true
eqb_refl a = ground arith

pub eqb-false : (a b : ℕ) → (a == b) ≡ false → a ≢ b
eqb-false a b h = ground arith

pub Bool-cases : (b : Bool) → (b ≡ true) ⊎ (b ≡ false)
Bool-cases true = inl refl
Bool-cases false = inr refl

pub Option-cases {ℓ} : {A : Type ℓ} (o : Option A) → (o ≡ none) ⊎ ((a : A) × (o ≡ some a))
Option-cases none = inl refl
Option-cases (some a) = inr (a, refl)

-- `size_t` and `uint64_t` arithmetic.
abbrev pub size_mod : ℕ
size_mod = 2 ^ 64

-- `SIZE_MAX`
abbrev pub size_max : ℕ
size_max = 2 ^ 64 - 1

abbrev pub add_size : ℕ → ℕ → ℕ
add_size a b = (a + b) % size_mod

abbrev pub sub_size : ℕ → ℕ → ℕ
sub_size a b = (a + size_mod - b) % size_mod

pub le→leb : (a b : ℕ) → a ≤ b → leb a b ≡ true
le→leb a b h = ground arith

pub gt→leb : (a b : ℕ) → b < a → leb a b ≡ false
gt→leb a b h = ground arith

pub leb→le : (a b : ℕ) → leb a b ≡ true → a ≤ b
leb→le a b h = ground arith

-- What a test that is known leaves of an equation.
pub if_true {ℓ} : {B : Type ℓ} (c : Bool) (a b z : B) → c ≡ true → (if c then a else b) ≡ z → a ≡ z
if_true true a b z e run = run
if_true false a b z e run = absurd (cc e)

pub if_false {ℓ} :
    {B : Type ℓ} (c : Bool) (a b z : B) → c ≡ false → (if c then a else b) ≡ z → b ≡ z
if_false true a b z e run = absurd (cc e)
if_false false a b z e run = run
