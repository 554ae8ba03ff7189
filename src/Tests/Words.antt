-- ===== src/Tests/Words.antt =====
-- The word arithmetic and the hash at concrete words.
use cachetron.Prelude.{ℕ, ◌*◌, ◌^◌, ◌<◌, ◌≤◌, ◌≡◌, arith, [], ◌∷◌}
use cachetron.Prelude.Clp2.{clp2}
use cachetron.Prelude.Clp2.Power.{clp2_lem}
use cachetron.Hash.{fnv1a_hash, fnv1a_hash_lem, fnv_shifts, fnv_product}

clp2_lem_example : (k : ℕ) × (clp2 17 ≡ 2 ^ k) × (17 ≤ clp2 17) × (clp2 17 < 2 * 17)
clp2_lem_example = clp2_lem 17 (omega arith) (omega arith)

fnv1a_hash_lem_example :
    fnv1a_hash fnv_shifts (107 ∷ 49 ∷ []) ≡ fnv1a_hash fnv_product (107 ∷ 49 ∷ [])
fnv1a_hash_lem_example = fnv1a_hash_lem (107 ∷ 49 ∷ [])
