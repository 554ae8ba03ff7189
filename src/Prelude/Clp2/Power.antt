-- ===== src/Prelude/Clp2/Power.antt =====
-- The five steps of `clp2` fill 32 bits below the highest that is set.
use Prim.Native.Nat.{
  ℕ, zero, suc, ◌+◌, ◌-◌, ◌*◌, ◌/◌, ◌%◌, ◌^◌, ◌≤◌, ◌<◌, max, bit_or, bit_or-bitwise,
}
use mathlib.Core.Path.{◌≡◌, refl, sym, ap, ◌∙◌}
use mathlib.Core.Logic.{◌⊎◌, inl, inr}
use native.Mathlib.Decide.{dec_lt}
use native.Mathlib.Omega.{arith}
use native.Mathlib.Nat.{pow-suc, div-div-eq-div-mul, mul_comm, zero-div}
use cachetron.Prelude.Tests.{sub_size}
use cachetron.Prelude.Clp2.{smear, clp2, or_digits, clp2_bounds}

or_fuel : (n m a b : ℕ) → a ≤ n → a ≤ m → or_digits n a b ≡ or_digits m a b
unfolding or_digits
or_fuel n m zero b h k = both n m
  where
    both : (n m : ℕ) → or_digits n zero b ≡ or_digits m zero b
    both zero zero = refl
    both zero (suc m) = refl
    both (suc n) zero = refl
    both (suc n) (suc m) = refl
or_fuel zero m (suc a) b h k = absurd (omega arith)
or_fuel (suc n) zero (suc a) b h k = absurd (omega arith)
or_fuel (suc n) (suc m) (suc a) b h k =
    omega (arith, or_fuel n m (suc a / 2) (b / 2) (omega arith) (omega arith))

-- The lowest digit of an or, and the others.
or_split : (a b : ℕ) → bit_or a b ≡ bit_or (a / 2) (b / 2) * 2 + max (a % 2) (b % 2)
unfolding or_digits
or_split zero b =
    let low = bit_or-bitwise zero b in
    let high = bit_or-bitwise zero (b / 2) in omega (arith, low, high)
or_split (suc a) b =
    let low = bit_or-bitwise (suc a) b in
    let high = bit_or-bitwise (suc a / 2) (b / 2) in
    let fuel = or_fuel a (suc a / 2) (suc a / 2) (b / 2) (omega arith) (omega arith) in
    omega (arith, low, high, fuel)

shift_half : (k x : ℕ) → x / 2 ^ k / 2 ≡ x / 2 / 2 ^ k
shift_half k x =
    div-div-eq-div-mul x (2 ^ k) 2
    ∙ ap (λ n. x / n) (mul_comm (2 ^ k) 2)
    ∙ sym (div-div-eq-div-mul x 2 (2 ^ k))

smear_half : (k x : ℕ) → smear k x / 2 ≡ smear k (x / 2)
unfolding smear
smear_half k x =
    let split = or_split x (x / 2 ^ k) in
    let half : bit_or x (x / 2 ^ k) / 2 ≡ bit_or (x / 2) (x / 2 ^ k / 2) = omega (arith, split) in
    half ∙ ap (bit_or (x / 2)) (shift_half k x)

smear_low : (k x : ℕ) → smear k x % 2 ≡ max (x % 2) (x / 2 ^ k % 2)
unfolding smear
smear_low k x = omega (arith, or_split x (x / 2 ^ k))

-- A function that fills `s` bits: it commutes with the shift, and the lowest bit is set where one of
-- the lowest `s` is.
record Fills (s : ℕ) (f : ℕ → ℕ) : Type 0 where
  pub half : (m : ℕ) → f m / 2 ≡ f (m / 2)
  pub low : (m : ℕ) → 0 < m % 2 ^ s → f m % 2 ≡ 1
  pub nought : f 0 ≡ 0

shifted : (f : ℕ → ℕ) → ((m : ℕ) → f m / 2 ≡ f (m / 2)) → (j m : ℕ) → f m / 2 ^ j ≡ f (m / 2 ^ j)
shifted f half zero m = omega (arith, ap f {x = m / 2 ^ 0} {y = m} (omega arith))
shifted f half (suc j) m =
    let double = pow-suc 2 j in
    let swap : (x : ℕ) → x / 2 ^ suc j ≡ x / 2 / 2 ^ j =
      λ x. ap (λ n. x / n) (double ∙ mul_comm (2 ^ j) 2) ∙ sym (div-div-eq-div-mul x 2 (2 ^ j)) in
    swap (f m) ∙ ap (λ n. n / 2 ^ j) (half m) ∙ shifted f half j (m / 2) ∙ ap f (sym (swap m))

smear-Fills :
    (s t : ℕ) (f : ℕ → ℕ)
    → ((m : ℕ) → 0 < m % 2 ^ t → (0 < m % 2 ^ s) ⊎ (0 < m / 2 ^ s % 2 ^ s))
    → Fills s f
    → Fills t (λ m. smear s (f m))
unfolding smear
smear-Fills s t f split v = record {
  half = λ m. smear_half s (f m) ∙ ap (smear s) (v.half m);
  low = λ m some_bit. elim (split m some_bit) [
    | inl here ↦ omega (arith, smear_low s (f m), v.low m here)
    | inr there ↦
        omega (
          arith,
          smear_low s (f m),
          ap (λ n. n % 2) (shifted f v.half s m),
          v.low (m / 2 ^ s) there,
        )
  ];
  nought = ap (smear s) v.nought ∙ ap (bit_or 0) (zero-div (2 ^ s)) ∙ bit_or-bitwise 0 0;
}

-- The five steps on the number under `x`.
filled : ℕ → ℕ
unfolding smear
filled m = smear 16 (smear 8 (smear 4 (smear 2 (smear 1 m))))

identity-Fills : Fills 1 (λ m. m)
identity-Fills = record { half = λ m. refl; low = λ m h. omega arith; nought = refl }

filled-Fills : Fills 32 filled
unfolding filled
filled-Fills =
    let f1 =
      smear-Fills 1 2 (λ m. m)
        (λ m h. elim (dec_lt 0 (m % 2 ^ 1)) [ yes k ↦ inl k | no k ↦ inr (omega arith) ])
        identity-Fills in
    let f2 =
      smear-Fills 2 4 (smear 1)
        (λ m h. elim (dec_lt 0 (m % 2 ^ 2)) [ yes k ↦ inl k | no k ↦ inr (omega arith) ]) f1 in
    let f4 =
      smear-Fills 4 8 (λ m. smear 2 (smear 1 m))
        (λ m h. elim (dec_lt 0 (m % 2 ^ 4)) [ yes k ↦ inl k | no k ↦ inr (omega arith) ]) f2 in
    let f8 =
      smear-Fills 8 16 (λ m. smear 4 (smear 2 (smear 1 m)))
        (λ m h. elim (dec_lt 0 (m % 2 ^ 8)) [ yes k ↦ inl k | no k ↦ inr (omega arith) ]) f4 in
    smear-Fills 16 32 (λ m. smear 8 (smear 4 (smear 2 (smear 1 m))))
      (λ m h. elim (dec_lt 0 (m % 2 ^ 16)) [ yes k ↦ inl k | no k ↦ inr (omega arith) ]) f8

-- Below 2^32 the filled number is one under a power of two, and less than twice the number.
filled_lem :
    (t m : ℕ) → m < 2 ^ t → m < 2 ^ 32 → (k : ℕ) × (filled m + 1 ≡ 2 ^ k) × (filled m ≤ 2 * m - 1)
filled_lem zero m h small =
    let none_set : m ≡ 0 = omega arith in
    let empty : filled m ≡ 0 = ap filled none_set ∙ filled-Fills.nought in
    (0, omega (arith, empty), omega (arith, empty))
filled_lem (suc t) zero h small =
    (0, omega (arith, filled-Fills.nought), omega (arith, filled-Fills.nought))
filled_lem (suc t) (suc m) h small =
    let double = pow-suc 2 t in
    let (k, power, under) = filled_lem t (suc m / 2) (omega arith) (omega arith) in
    let half = filled-Fills.half (suc m) in
    let low = filled-Fills.low (suc m) (omega arith) in
    (suc k, omega (arith, half, low, power, pow-suc 2 k), omega (arith, half, low, under))

-- From 1 to 2^32 `clp2` answers a power of two that is no less than its argument and less than twice
-- the argument, so the smallest one.
pub clp2_lem :
    (x : ℕ) → 0 < x → x ≤ 2 ^ 32 → (k : ℕ) × (clp2 x ≡ 2 ^ k) × (x ≤ clp2 x) × (clp2 x < 2 * x)
unfolding clp2 filled
clp2_lem x pos small =
    let under : sub_size x 1 ≡ x - 1 = omega arith in
    let (k, power, twice) = filled_lem 32 (sub_size x 1) (omega arith) (omega arith) in
    let (up, top) = clp2_bounds x pos (omega arith) in
    let plain : clp2 x ≡ filled (sub_size x 1) + 1 = omega arith in
    (k, plain ∙ power, up, omega arith)
