-- ===== src/Prelude/Clp2.antt =====
-- The rounding `clp2` that hashtable.c, vector_c.c and lite_string.c each define: it never rounds
-- down, and does not wrap below 2^63.
pub mod Power
use Prim.Native.Nat.{ℕ, zero, suc, ◌/◌, ◌^◌, ◌≤◌, ◌<◌, max}
use Prim.Native.Nat.{bit_or, digits, bit_or-bitwise}
use native.Mathlib.Omega.{arith}
use native.Mathlib.Nat.{pow-suc}
use cachetron.Prelude.Tests.{add_size, sub_size}

-- `x |= x >> k`
pub smear : ℕ → ℕ → ℕ
smear k x = bit_or x (x / 2 ^ k)

unfoldable pub clp2 : ℕ → ℕ
unfolding smear
clp2 x = add_size (smear 16 (smear 8 (smear 4 (smear 2 (smear 1 (sub_size x 1)))))) 1

pub or_digits : ℕ → ℕ → ℕ → ℕ
or_digits n a b = digits (λ y. y) max n a b

le-or_digits : (n a b : ℕ) → a ≤ n → a ≤ or_digits n a b
unfolding or_digits
le-or_digits zero zero b h = omega arith
le-or_digits zero (suc a) b h = absurd (omega arith)
le-or_digits (suc n) zero b h = omega arith
le-or_digits (suc n) (suc a) b h = omega (arith, le-or_digits n (suc a / 2) (b / 2) (omega arith))

or_digits-lt : (k n a b : ℕ) → a ≤ n → a < 2 ^ k → b < 2 ^ k → or_digits n a b < 2 ^ k
unfolding or_digits
or_digits-lt k zero zero b h p q = q
or_digits-lt k zero (suc a) b h p q = absurd (omega arith)
or_digits-lt k (suc n) zero b h p q = q
or_digits-lt zero (suc n) (suc a) b h p q = absurd (omega arith)
or_digits-lt (suc k) (suc n) (suc a) b h p q =
    let double = pow-suc 2 k in
    omega (arith, or_digits-lt k n (suc a / 2) (b / 2) (omega arith) (omega arith) (omega arith))

le-smear : (k x : ℕ) → x ≤ smear k x
unfolding smear or_digits
le-smear k x =
    omega (arith, bit_or-bitwise x (x / 2 ^ k), le-or_digits x x (x / 2 ^ k) (omega arith))

pub smear-lt : (k x : ℕ) → x < 2 ^ 63 → smear k x < 2 ^ 63
unfolding smear or_digits
smear-lt k x h =
    let less : x / 2 ^ k ≤ x = grind arith in
    let bound = or_digits-lt 63 x x (x / 2 ^ k) (omega arith) h (omega arith) in
    omega (arith, bit_or-bitwise x (x / 2 ^ k), bound)

-- From 1 to 2^63 the result is no less than the argument, and at most 2^63.
pub clp2_bounds : (x : ℕ) → 0 < x → x ≤ 2 ^ 63 → (x ≤ clp2 x) × (clp2 x ≤ 2 ^ 63)
unfolding clp2
clp2_bounds x pos small =
    let x₀ = sub_size x 1 in
    let x₁ = smear 1 x₀ in
    let x₂ = smear 2 x₁ in
    let x₃ = smear 4 x₂ in
    let x₄ = smear 8 x₃ in
    let b₁ = smear-lt 1 x₀ (omega arith) in
    let b₂ = smear-lt 2 x₁ b₁ in
    let b₃ = smear-lt 4 x₂ b₂ in
    let b₄ = smear-lt 8 x₃ b₃ in
    let b₅ = smear-lt 16 x₄ b₄ in
    omega (arith, le-smear 1 x₀, le-smear 2 x₁, le-smear 4 x₂, le-smear 8 x₃, le-smear 16 x₄)
