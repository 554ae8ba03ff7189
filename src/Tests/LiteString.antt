-- ===== src/Tests/LiteString.antt =====
-- The strings at short texts.
use cachetron.Prelude.{ℕ, ◌≡◌, refl, arith, ◌∷◌, ◌++◌, some}
use cachetron.Prelude.{Bool, true, replicate, if◌then◌else◌, take}
use cachetron.Prelude.Result.{ok, fault, out_of_bounds}
use cachetron.LiteString.{LiteString, contents, string_append_range, string_push_back}
use cachetron.LiteString.{string_shrink_to_fit}
use cachetron.LiteString.Append.{IsValid, string_append_range_lem}
use cachetron.LiteString.Compare.{string_compare}
use cachetron.LiteString.Compare.Equal.{string_compare_lem}
use cachetron.LiteString.Shrink.{string_shrink_to_fit-overflow}
use cachetron.LiteString.Search.{string_find_substr_from, string_ends_with}
use cachetron.LiteString.Search.First.{IsFirst, string_find_substr_from_lem}
use cachetron.LiteString.Search.Ends.{string_ends_with-longer}

abbrev alloc : ℕ → Bool
alloc n = true

-- "abab"
abbrev abab : LiteString
abab = record { cells = 97 ∷ 98 ∷ 97 ∷ 98 ∷ replicate 12 0; size = 4; capacity = 16 }

-- "ab"
abbrev ab : LiteString
ab = record { cells = 97 ∷ 98 ∷ replicate 14 0; size = 2; capacity = 16 }

-- "ababa"
abbrev ababa : LiteString
ababa = record { cells = 97 ∷ 98 ∷ 97 ∷ 98 ∷ 97 ∷ replicate 11 0; size = 5; capacity = 16 }

abab-IsValid : IsValid abab
abab-IsValid = record { width = refl; fits = omega arith; least = omega arith }

ab-IsValid : IsValid ab
ab-IsValid = record { width = refl; fits = omega arith; least = omega arith }

string_append_range_lem_example :
    (b : Bool) × (s' : LiteString) × (string_append_range alloc (some abab) (some ab) 1
      ≡ ok (b, some s'))
    × IsValid s'
    × (contents s' ≡ (if b then contents abab ++ take 1 (contents ab) else contents abab))
    × (((n : ℕ) → alloc n ≡ true) → b ≡ true)
string_append_range_lem_example =
    string_append_range_lem alloc abab ab 1 abab-IsValid ab-IsValid (omega arith) (omega arith)

string_shrink_to_fit-overflow_example :
    string_push_back alloc (string_shrink_to_fit alloc (some ab)).1 99 ≡ fault out_of_bounds
string_shrink_to_fit-overflow_example =
    string_shrink_to_fit-overflow alloc ab ab-IsValid refl (omega arith) (omega arith) 99
      (λ e. omega arith)

string_find_substr_from_lem_example :
    (r : ℕ) × (string_find_substr_from (some abab) (some ab) 1 ≡ ok r)
    × IsFirst (contents abab ++ replicate 12 0) (contents ab ++ replicate 14 0) 2 1 4 r
string_find_substr_from_lem_example =
    string_find_substr_from_lem abab ab 1 (omega arith) (omega arith) (omega arith) (omega arith)

string_ends_with-longer_example : string_ends_with (some abab) (some ababa) ≡ ok true
string_ends_with-longer_example = string_ends_with-longer abab ababa refl (omega arith)

string_compare_lem_example :
    (b : Bool) × (string_compare (some abab) (some ab) ≡ ok b)
    × (b ≡ true → contents abab ≡ contents ab)
    × (contents abab ≡ contents ab → b ≡ true)
string_compare_lem_example = string_compare_lem abab ab (omega arith) (omega arith)
