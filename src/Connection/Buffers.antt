-- ===== src/Connection/Buffers.antt =====
-- Parts of a buffer.
use cachetron.Prelude.{ℕ, zero, suc, ◌+◌, ◌≡◌, refl, sym, ap, ◌∙◌, List, [], ◌∷◌, ◌++◌, arith}
use cachetron.Prelude.{take, drop}

take_nil : (n : ℕ) → take {A = ℕ} n [] ≡ []
take_nil zero = refl
take_nil (suc n) = refl

drop_nil : (n : ℕ) → drop {A = ℕ} n [] ≡ []
drop_nil zero = refl
drop_nil (suc n) = refl

pub take_add : (a b : ℕ) (xs : List ℕ) → take (a + b) xs ≡ take a xs ++ take b (drop a xs)
take_add zero b xs = ap (λ k. take k xs) (omega arith)
take_add (suc a) b [] = take_nil (suc a + b) ∙ sym (take_nil b)
take_add (suc a) b (x ∷ xs) =
    let step : suc a + b ≡ suc (a + b) = omega arith in rw step (ap (λ l. x ∷ l) (take_add a b xs))

pub drop_add : (a b : ℕ) (xs : List ℕ) → drop (a + b) xs ≡ drop b (drop a xs)
drop_add zero b xs = ap (λ k. drop k xs) (omega arith)
drop_add (suc a) b [] = drop_nil (suc a + b) ∙ sym (drop_nil b)
drop_add (suc a) b (x ∷ xs) =
    let step : suc a + b ≡ suc (a + b) = omega arith in rw step (drop_add a b xs)
