-- ===== src/Vector/Erase.antt =====
-- `vector_at` reads what the vector holds, and `vector_erase` takes an element out of it.
use cachetron.Prelude.{ℕ, zero, suc, ◌+◌, ◌-◌, ◌<◌, ◌≤◌, ◌≡◌, sym, ap, ◌∙◌, true, false}
use cachetron.Prelude.{Option, some, List, [], ◌∷◌, ◌++◌, arith, length, take, drop}
use cachetron.Prelude.{remove_at, leb, le→leb, gt→leb, lt→ltb}
use cachetron.Prelude.Memory.{
  splice, length-take, length-drop, length-splice, take-splice, take-take, take-append_more,
}
use cachetron.Prelude.Result.{ok, fault, out_of_bounds}
use cachetron.Vector.{Vector, contents, vector_erase}
use cachetron.Vector.Append.{IsValid}

-- Taking out a cell of the first `suc n` moves those behind it one place down.
take-remove_at {ℓ} :
    {A : Type ℓ} (cells : List A) (i n : ℕ)
    → i ≤ n
    → n < length cells
    → take i cells ++ take (n - i) (drop (suc i) cells) ≡ remove_at (take (suc n) cells) i
take-remove_at [] i n h k = absurd (omega arith)
take-remove_at (c ∷ cells) zero n h k = let whole : n - 0 ≡ n = omega arith in rw whole
take-remove_at (c ∷ cells) (suc i) zero h k = absurd (omega arith)
take-remove_at (c ∷ cells) (suc i) (suc n) h k =
    let step : suc n - suc i ≡ n - i = omega arith in
    rw step (ap (λ l. c ∷ l) (take-remove_at cells i n (omega arith) (omega arith)))

module _ {ℓ} {A : Type ℓ} (v : Vector A) (index : ℕ) (w : IsValid v) (inside : index < v.size) where
  -- As long as the vector is not full, `vector_erase` takes out the element at an index below the
  -- size, moves those behind it one place down, and stays in the array.
  pub vector_erase_lem :
      v.size < v.capacity
      → (v' : Vector A) × (vector_erase (some v) index ≡ ok (true, some v'))
        × IsValid v'
        × (contents v' ≡ remove_at (contents v) index)
  unfolding vector_erase
  vector_erase_lem spare =
      let n = v.size - index in
      let moved = take n (drop (index + 1) v.cells) in
      let many : length moved ≡ n =
        length-take n (drop (index + 1) v.cells)
          (omega (arith, length-drop (index + 1) v.cells, w.width)) in
      let cells = splice v.cells index moved in
      let fewer = v.size - 1 in
      let readable : leb (index + 1 + n) (length v.cells) ≡ true =
        le→leb _ _ (omega (arith, w.width)) in
      let writable : leb (index + length moved) (length v.cells) ≡ true =
        le→leb _ _ (omega (arith, w.width)) in
      let next : index + 1 ≡ suc index = omega arith in
      let all : suc fewer ≡ v.size = omega arith in
      (
        record v { cells = cells; size = fewer },
        rw (lt→ltb index v.size inside, readable, writable),
        record {
          width = length-splice v.cells index moved (omega (arith, w.width)) ∙ w.width;
          fits = omega arith;
          least = w.least;
        },
        sym (take-take fewer v.size cells (omega arith))
            ∙ ap (take fewer)
                (take-splice v.cells index v.size moved (omega (arith, w.width)) (omega arith))
            ∙ cut (take index v.cells) moved fewer (fewer - index)
                (omega (arith, length-take index v.cells (omega (arith, w.width))))
            ∙ ap (λ l. take index v.cells ++ l)
                (take-take (fewer - index) n (drop (index + 1) v.cells) (omega arith))
            ∙ ap (λ k. take index v.cells ++ take (fewer - index) (drop k v.cells)) next
            ∙ take-remove_at v.cells index fewer (omega arith) (omega (arith, w.width, w.fits))
            ∙ ap (λ k. remove_at (take k v.cells) index) all,
      )
    where
      cut :
          (xs ys : List (Option A)) (k m : ℕ)
          → k ≡ length xs + m
          → take k (xs ++ ys) ≡ xs ++ take m ys
      cut xs ys k m e = ap (λ j. take j (xs ++ ys)) e ∙ take-append_more m xs ys

  -- On a full vector `vector_erase` reads one cell past the end of the array.
  pub vector_erase-full : v.size ≡ v.capacity → vector_erase (some v) index ≡ fault out_of_bounds
  unfolding vector_erase
  vector_erase-full full =
      let beyond : leb (index + 1 + (v.size - index)) (length v.cells) ≡ false =
        gt→leb _ _ (omega (arith, w.width)) in
      rw (lt→ltb index v.size inside, beyond)
