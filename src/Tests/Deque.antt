-- ===== src/Tests/Deque.antt =====
-- The deque at two cells that are full, in order and wrapped.
use cachetron.Prelude.{ℕ, ◌≡◌, refl, arith, [], ◌∷◌, ◌++◌, inr}
use cachetron.Prelude.{some, Bool, true, false}
use cachetron.Prelude.Result.{ok, fault, use_after_free}
use cachetron.Deque.{Deque, deque_push_back}
use cachetron.Deque.Ends.{contents, IsValid}
use cachetron.Deque.Resize.{deque_push_back_lem, deque_push_back-moved}

abbrev alloc : ℕ → Bool
alloc n = true

abbrev full_deque : Deque ℕ
full_deque = record { capacity = 2; size = 2; front = 0; back = 1; cells = some 1 ∷ some 2 ∷ [] }

abbrev full_wrapped : Deque ℕ
full_wrapped = record { capacity = 2; size = 2; front = 1; back = 0; cells = some 2 ∷ some 1 ∷ [] }

full_deque-IsValid : IsValid full_deque
full_deque-IsValid = record {
  width = refl;
  fits = omega arith;
  some_room = omega arith;
  small = omega arith;
  front_in = λ h. omega arith;
  back_at = λ h. refl;
}

full_wrapped-IsValid : IsValid full_wrapped
full_wrapped-IsValid = record {
  width = refl;
  fits = omega arith;
  some_room = omega arith;
  small = omega arith;
  front_in = λ h. omega arith;
  back_at = λ h. refl;
}

deque_push_back_lem_example :
    (d' : Deque ℕ) × (deque_push_back alloc false full_deque (some 3) ≡ ok (true, d'))
    × IsValid d'
    × (contents d' ≡ contents full_deque ++ some 3 ∷ [])
deque_push_back_lem_example =
    deque_push_back_lem alloc false full_deque full_deque-IsValid
      (inr (refl, omega arith, refl, omega arith)) (some 3)

deque_push_back-moved_example :
    deque_push_back alloc false full_wrapped (some 3) ≡ fault use_after_free
deque_push_back-moved_example =
    deque_push_back-moved alloc false full_wrapped full_wrapped-IsValid refl (omega arith) refl refl
      (some 3)
