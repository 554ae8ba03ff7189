-- ===== src/Prelude/Bits.antt =====
-- `a & mask` for a mask of low ones, as the remainder that it computes.
use Prim.Native.Nat.{ℕ, zero, suc, ◌+◌, ◌-◌, ◌*◌, ◌/◌, ◌%◌, ◌^◌, ◌≤◌, ◌<◌, min}
use Prim.Native.Nat.{bit_and, bit_xor, digits, differ, bit_and-bitwise, bit_xor-bitwise}
use mathlib.Core.Path.{◌≡◌, refl, sym, ap, ◌∙◌}
use native.Mathlib.Omega.{arith}
use native.Mathlib.Nat.{pow-suc, one-le-pow}

digits-zero : (n a : ℕ) → a ≤ n → digits (λ b. zero) min n a 0 ≡ 0
digits-zero zero zero h = refl
digits-zero zero (suc a) h = absurd (omega arith)
digits-zero (suc n) zero h = refl
digits-zero (suc n) (suc a) h = omega (arith, digits-zero n (suc a / 2) (omega arith))

-- One digit of the mask goes with one digit of the number.
digits_mask :
    (k n a q r : ℕ)
    → a ≤ n
    → r < 2 ^ k
    → a ≡ q * 2 ^ k + r
    → digits (λ b. zero) min n a (2 ^ k - 1) ≡ r
digits_mask zero n a q r h fits e = digits-zero n a h ∙ omega arith
digits_mask (suc k) zero zero q r h fits e = omega arith
digits_mask (suc k) zero (suc a) q r h fits e = absurd (omega arith)
digits_mask (suc k) (suc n) zero q r h fits e = omega arith
digits_mask (suc k) (suc n) (suc a) q r h fits e =
    let double = pow-suc 2 k in
    let shift = ap (λ (t : ℕ). q * t) double in
    let pos = one-le-pow k 2 in
    let half : (2 ^ suc k - 1) / 2 ≡ 2 ^ k - 1 = omega arith in
    rw half (
      omega
        (arith, digits_mask k n (suc a / 2) q (r / 2) (omega arith) (omega arith) (omega arith)))

-- `a & (2^k - 1)` is the remainder of `a` by `2^k`.
pub bit_and_mask : (k a : ℕ) → bit_and a (2 ^ k - 1) ≡ a % 2 ^ k
bit_and_mask k a =
    let pos = one-le-pow k 2 in
    bit_and-bitwise a (2 ^ k - 1)
    ∙ digits_mask k a a (a / 2 ^ k) (a % 2 ^ k) (omega arith) (omega arith) (grind arith)

differ_bits : (p q : ℕ) → p < 2 → q < 2 → (differ p q < 2) × (differ p (differ p q) ≡ q)
differ_bits zero zero h k = (omega arith, refl)
differ_bits zero (suc zero) h k = (omega arith, refl)
differ_bits (suc zero) zero h k = (omega arith, refl)
differ_bits (suc zero) (suc zero) h k = (omega arith, refl)
differ_bits (suc (suc p)) q h k = absurd (omega arith)
differ_bits zero (suc (suc q)) h k = absurd (omega arith)
differ_bits (suc zero) (suc (suc q)) h k = absurd (omega arith)

abbrev xor_digits : ℕ → ℕ → ℕ → ℕ
xor_digits n a b = digits (λ y. y) differ n a b

xor_digits_twice : (n m a b : ℕ) → a ≤ n → a ≤ m → xor_digits n a (xor_digits m a b) ≡ b
xor_digits_twice n m zero b h k = both n m
  where
    both : (n m : ℕ) → xor_digits n zero (xor_digits m zero b) ≡ b
    both zero zero = refl
    both zero (suc m) = refl
    both (suc n) zero = refl
    both (suc n) (suc m) = refl
xor_digits_twice zero m (suc a) b h k = absurd (omega arith)
xor_digits_twice (suc n) zero (suc a) b h k = absurd (omega arith)
xor_digits_twice (suc n) (suc m) (suc a) b h k =
    let low = suc a % 2 in
    let high = xor_digits m (suc a / 2) (b / 2) in
    let (bit, back) = differ_bits low (b % 2) (omega arith) (omega arith) in
    let upper : (high * 2 + differ low (b % 2)) / 2 ≡ high = omega arith in
    let lower : (high * 2 + differ low (b % 2)) % 2 ≡ differ low (b % 2) = omega arith in
    rw (upper, lower, back, xor_digits_twice n m (suc a / 2) (b / 2) (omega arith) (omega arith))
      (omega arith)

-- `a ^ (a ^ b)` is `b`.
pub bit_xor_twice : (a b : ℕ) → bit_xor a (bit_xor a b) ≡ b
bit_xor_twice a b =
    ap (bit_xor a) (bit_xor-bitwise a b)
    ∙ bit_xor-bitwise a (xor_digits a a b)
    ∙ xor_digits_twice a a a b (omega arith) (omega arith)

differ-zero : (p : ℕ) → differ p 0 ≡ p
differ-zero zero = refl
differ-zero (suc p) = refl

xor_digits-zero : (n a : ℕ) → a ≤ n → xor_digits n a 0 ≡ a
xor_digits-zero zero zero h = refl
xor_digits-zero zero (suc a) h = absurd (omega arith)
xor_digits-zero (suc n) zero h = refl
xor_digits-zero (suc n) (suc a) h =
    omega (arith, xor_digits-zero n (suc a / 2) (omega arith), differ-zero (suc a % 2))

xor_digits-lt : (k n a b : ℕ) → a ≤ n → a < 2 ^ k → b < 2 ^ k → xor_digits n a b < 2 ^ k
xor_digits-lt k zero zero b h p q = q
xor_digits-lt k zero (suc a) b h p q = absurd (omega arith)
xor_digits-lt k (suc n) zero b h p q = q
xor_digits-lt zero (suc n) (suc a) b h p q = absurd (omega arith)
xor_digits-lt (suc k) (suc n) (suc a) b h p q =
    let double = pow-suc 2 k in
    let bit = differ_bits (suc a % 2) (b % 2) (omega arith) (omega arith) in
    let rest = xor_digits-lt k n (suc a / 2) (b / 2) (omega arith) (omega arith) (omega arith) in
    omega (arith, bit.0)

pub bit_xor-zero : (a : ℕ) → bit_xor a 0 ≡ a
bit_xor-zero a = bit_xor-bitwise a 0 ∙ xor_digits-zero a a (omega arith)

pub bit_xor-lt : (k a b : ℕ) → a < 2 ^ k → b < 2 ^ k → bit_xor a b < 2 ^ k
bit_xor-lt k a b p q = rw (bit_xor-bitwise a b) (xor_digits-lt k a a b (omega arith) p q)

differ_comm : (p q : ℕ) → differ p q ≡ differ q p
differ_comm zero zero = refl
differ_comm zero (suc q) = refl
differ_comm (suc p) zero = refl
differ_comm (suc p) (suc q) = differ_comm p q

xor_digits_comm : (n a b : ℕ) → a ≤ n → b ≤ n → xor_digits n a b ≡ xor_digits n b a
xor_digits_comm zero zero zero h k = refl
xor_digits_comm zero (suc a) b h k = absurd (omega arith)
xor_digits_comm zero zero (suc b) h k = absurd (omega arith)
xor_digits_comm (suc n) zero zero h k = refl
xor_digits_comm (suc n) zero (suc b) h k = sym (xor_digits-zero (suc n) (suc b) k)
xor_digits_comm (suc n) (suc a) zero h k = xor_digits-zero (suc n) (suc a) h
xor_digits_comm (suc n) (suc a) (suc b) h k = omega (
  arith,
  xor_digits_comm n (suc a / 2) (suc b / 2) (omega arith) (omega arith),
  differ_comm (suc a % 2) (suc b % 2),
)

-- The fuel does not matter once it is enough: each is the inverse of one function.
xor_digits_fuel : (n m a b : ℕ) → a ≤ n → a ≤ m → xor_digits n a b ≡ xor_digits m a b
xor_digits_fuel n m a b h k =
    sym (xor_digits_twice m a a (xor_digits n a b) k (omega arith))
    ∙ ap (xor_digits m a) (xor_digits_twice a n a b (omega arith) h)

pub bit_xor_comm : (a b : ℕ) → bit_xor a b ≡ bit_xor b a
bit_xor_comm a b =
    let n = a + b in
    bit_xor-bitwise a b
    ∙ xor_digits_fuel a n a b (omega arith) (omega arith)
    ∙ xor_digits_comm n a b (omega arith) (omega arith)
    ∙ xor_digits_fuel n b b a (omega arith) (omega arith)
    ∙ sym (λ i. bit_xor-bitwise b a i)
