-- ===== src/Hash.antt =====
-- `fnv1a_hash` of common.h, which the server takes for the hash code of its keys: the shifts of the
-- default build, and the product of the build with __NO_FNV_GCC_OPTIMIZATION__.
use cachetron.Prelude.{ℕ, ◌+◌, ◌*◌, ◌%◌, ◌^◌, ◌≡◌, refl, ap, ◌∙◌, List, [], ◌∷◌, arith}
use cachetron.Prelude.{bit_xor}

-- 0xcbf29ce484222325
abbrev fnv_offset_basis : ℕ
fnv_offset_basis = 14695981039346656037

-- 0x00000100000001b3
abbrev pub fnv_prime : ℕ
fnv_prime = 1099511628211

abbrev shl : ℕ → ℕ → ℕ
shl h k = (h * 2 ^ k) % 2 ^ 64

-- `hash += (hash << 1) + (hash << 4) + ...`
pub fnv_shifts : ℕ → ℕ
fnv_shifts h = (h + (shl h 1 + shl h 4 + shl h 5 + shl h 7 + shl h 8 + shl h 40)) % 2 ^ 64

-- `hash *= FNV_prime`
pub fnv_product : ℕ → ℕ
fnv_product h = (h * fnv_prime) % 2 ^ 64

-- The loop over the bytes, with what a build makes of the hash after the XOR.
pub fnv_loop : (ℕ → ℕ) → ℕ → List ℕ → ℕ
fnv_loop step h [] = h
fnv_loop step h (b ∷ bs) = fnv_loop step (step (bit_xor h b)) bs

unfoldable pub fnv1a_hash : (ℕ → ℕ) → List ℕ → ℕ
unfolding fnv_loop
fnv1a_hash step bytes = fnv_loop step fnv_offset_basis bytes

shifts-product : (h : ℕ) → fnv_shifts h ≡ fnv_product h
unfolding fnv_shifts fnv_product
shifts-product h = omega arith

-- Both builds give every key the same hash code.
pub fnv1a_hash_lem : (bytes : List ℕ) → fnv1a_hash fnv_shifts bytes ≡ fnv1a_hash fnv_product bytes
unfolding fnv1a_hash
fnv1a_hash_lem bytes = loop fnv_offset_basis bytes
  where
    loop : (h : ℕ) (bs : List ℕ) → fnv_loop fnv_shifts h bs ≡ fnv_loop fnv_product h bs
    loop h [] = unfold fnv_loop in refl
    loop h (b ∷ bs) =
        unfold fnv_loop in
        ap (λ k. fnv_loop fnv_shifts k bs) (shifts-product (bit_xor h b))
        ∙ loop (fnv_product (bit_xor h b)) bs
