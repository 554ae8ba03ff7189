-- ===== src/Branchless.antt =====
-- The branch-free `max` of data_structures/trees/avl.c and data_structures/vector/vector_c.c, and
-- the `min` of data_structures/set/zset.c. `-(x < y)` is a word of ones or of zeros.
use cachetron.Prelude.{ℕ, ◌^◌, ◌<◌, ◌≡◌, arith, ltb, inl, inr}
use cachetron.Prelude.{if◌then◌else◌, Bool-cases, size_max, bit_and, bit_xor, max, min, ltb→lt}
use cachetron.Prelude.{ltb-false}
use cachetron.Prelude.Bits.{bit_and_mask, bit_xor_twice, bit_xor-zero, bit_xor-lt, bit_xor_comm}

-- `-(x < y)` as a `size_t`
abbrev negated_test : ℕ → ℕ → ℕ
negated_test x y = if ltb x y then size_max else 0

pub max_size : ℕ → ℕ → ℕ
max_size x y = bit_xor x (bit_and (bit_xor x y) (negated_test x y))

pub min_size : ℕ → ℕ → ℕ
min_size x y = bit_xor y (bit_and (bit_xor x y) (negated_test x y))

-- The masked difference is the whole difference when `x < y`, and 0 when not.
masked :
    (x y : ℕ)
    → x < 2 ^ 64
    → y < 2 ^ 64
    → bit_and (bit_xor x y) (negated_test x y) ≡ (if ltb x y then bit_xor x y else 0)
masked x y hx hy = elim (Bool-cases (ltb x y)) [
  | inl less ↦ rw less (omega (arith, bit_and_mask 64 (bit_xor x y), bit_xor-lt 64 x y hx hy))
  | inr more ↦ rw more (omega (arith, bit_and_mask 0 (bit_xor x y)))
]

-- On 64-bit words the branch-free `max` computes the maximum.
pub max_size_lem : (x y : ℕ) → x < 2 ^ 64 → y < 2 ^ 64 → max_size x y ≡ max x y
unfolding max_size
max_size_lem x y hx hy = elim (Bool-cases (ltb x y)) [
  | inl less ↦ rw (masked x y hx hy, less, bit_xor_twice x y) (omega (arith, ltb→lt x y less))
  | inr more ↦ rw (masked x y hx hy, more) (omega (arith, bit_xor-zero x, ltb-false x y more))
]

-- On 64-bit words the branch-free `min` computes the minimum.
pub min_size_lem : (x y : ℕ) → x < 2 ^ 64 → y < 2 ^ 64 → min_size x y ≡ min x y
unfolding min_size
min_size_lem x y hx hy = elim (Bool-cases (ltb x y)) [
  | inl less ↦
      rw (masked x y hx hy, less, bit_xor_comm x y, bit_xor_twice y x)
        (omega (arith, ltb→lt x y less))
  | inr more ↦ rw (masked x y hx hy, more) (omega (arith, bit_xor-zero y, ltb-false x y more))
]
