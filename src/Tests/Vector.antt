-- ===== src/Tests/Vector.antt =====
-- The vectors at sixteen cells, two of them in use or all.
use cachetron.Prelude.{ℕ, ◌≡◌, refl, arith, [], ◌∷◌, ◌++◌, none, some}
use cachetron.Prelude.{Bool, true, replicate, if◌then◌else◌, map, take, remove_at}
use cachetron.Prelude.Result.{ok, fault, out_of_bounds}
use cachetron.Vector.{Vector, contents, vector_append, vector_erase}
use cachetron.Vector.Append.{IsValid, vector_append_lem}
use cachetron.Vector.Erase.{vector_erase_lem, vector_erase-full}

abbrev alloc : ℕ → Bool
alloc n = true

abbrev two_elements : Vector ℕ
two_elements = record { cells = some 5 ∷ some 6 ∷ replicate 14 none; size = 2; capacity = 16 }

abbrev full_vector : Vector ℕ
full_vector = record { cells = replicate 16 (some 7); size = 16; capacity = 16 }

two_elements-IsValid : IsValid two_elements
two_elements-IsValid = record { width = refl; fits = omega arith; least = omega arith }

full_vector-IsValid : IsValid full_vector
full_vector-IsValid = record { width = refl; fits = omega arith; least = omega arith }

vector_append_lem_example :
    (b : Bool) × (v' : Vector ℕ) × (vector_append alloc
        (some full_vector)
        (some (8 ∷ 9 ∷ 10 ∷ []))
        2
      ≡ ok (b, some v'))
    × IsValid v'
    × (contents v' ≡ (
        if b
        then contents full_vector ++ map some (take 2 (8 ∷ 9 ∷ 10 ∷ []))
        else contents full_vector))
    × (((n : ℕ) → alloc n ≡ true) → b ≡ true)
vector_append_lem_example =
    vector_append_lem alloc full_vector (8 ∷ 9 ∷ 10 ∷ []) 2 full_vector-IsValid (omega arith)
      (omega arith)

vector_erase_lem_example :
    (v' : Vector ℕ) × (vector_erase (some two_elements) 0 ≡ ok (true, some v'))
    × IsValid v'
    × (contents v' ≡ remove_at (contents two_elements) 0)
vector_erase_lem_example =
    vector_erase_lem two_elements 0 two_elements-IsValid (omega arith) (omega arith)

vector_erase-full_example : vector_erase (some full_vector) 15 ≡ fault out_of_bounds
vector_erase-full_example = vector_erase-full full_vector 15 full_vector-IsValid (omega arith) refl
