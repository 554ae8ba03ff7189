-- ===== src/Prelude/Memory.antt =====
-- Arrays that are read, written, moved and reallocated by ranges, each access within its bounds.
use Prim.Native.Nat.{ℕ, zero, suc, ◌+◌, ◌-◌, ◌≤◌, ◌<◌}
use mathlib.Core.Path.{◌≡◌, refl, ap, ◌∙◌}
use mathlib.Core.Bool.{true}
use mathlib.Core.List.{List, [], ◌∷◌, ◌++◌}
use native.Mathlib.Omega.{arith}
use cachetron.Prelude.Tests.{leb, le→leb, if◌then◌else◌}
use cachetron.Prelude.Lists.{length, take, drop, replicate, set, length-append}
use cachetron.Prelude.Lists.{length-replicate}
use cachetron.Prelude.Result.{Result, ok, fault, out_of_bounds, ◌>>=◌}

module _ {ℓ} {A : Type ℓ} where
  -- The `n` cells from `i` on, as `memcpy` reads them.
  abbrev pub read_range : List A → ℕ → ℕ → Result (List A)
  read_range cells i n =
      if leb (i + n) (length cells) then ok (take n (drop i cells)) else fault out_of_bounds

  -- The array after the cells from `i` on are given new contents.
  abbrev pub splice : List A → ℕ → List A → List A
  splice cells i new = take i cells ++ (new ++ drop (i + length new) cells)

  -- `memcpy` into the array at `i`.
  abbrev pub write_range : List A → ℕ → List A → Result (List A)
  write_range cells i new =
      if leb (i + length new) (length cells) then ok (splice cells i new) else fault out_of_bounds

  -- `cells[i] = x`
  abbrev pub store : List A → ℕ → A → Result (List A)
  store cells i x = write_range cells i (x ∷ [])

  -- `memmove` inside the array.
  abbrev pub memmove : List A → ℕ → ℕ → ℕ → Result (List A)
  memmove cells dst src n = read_range cells src n >>= write_range cells dst

  -- `realloc` to `n` cells, those past the old ones filled with `x`.
  abbrev pub realloc : A → List A → ℕ → List A
  realloc x cells n = take n cells ++ replicate (n - length cells) x

module _ {ℓ} {A : Type ℓ} where
  pub length-take : (n : ℕ) (xs : List A) → n ≤ length xs → length (take n xs) ≡ n
  length-take zero xs h = refl
  length-take (suc n) [] h = absurd (omega arith)
  length-take (suc n) (x ∷ xs) h = ap suc (length-take n xs (omega arith))

  pub length-drop : (n : ℕ) (xs : List A) → length (drop n xs) ≡ length xs - n
  length-drop zero xs = omega arith
  length-drop (suc n) [] = omega arith
  length-drop (suc n) (x ∷ xs) = omega (arith, length-drop n xs)

  pub length-take-le : (n : ℕ) (xs : List A) → length (take n xs) ≤ length xs
  length-take-le zero xs = omega arith
  length-take-le (suc n) [] = omega arith
  length-take-le (suc n) (x ∷ xs) = omega (arith, length-take-le n xs)

  pub take-append : (xs ys : List A) → take (length xs) (xs ++ ys) ≡ xs
  take-append [] ys = refl
  take-append (x ∷ xs) ys = ap (λ l. x ∷ l) (take-append xs ys)

  pub take-append_more :
      (n : ℕ) (xs ys : List A) → take (length xs + n) (xs ++ ys) ≡ xs ++ take n ys
  take-append_more n [] ys = ap (λ k. take k ys) (omega arith)
  take-append_more n (x ∷ xs) ys =
      let step : suc (length xs) + n ≡ suc (length xs + n) = omega arith in
      rw step (ap (λ l. x ∷ l) (take-append_more n xs ys))

  pub take-take : (m n : ℕ) (xs : List A) → m ≤ n → take m (take n xs) ≡ take m xs
  take-take zero n xs h = refl
  take-take (suc m) zero xs h = absurd (omega arith)
  take-take (suc m) (suc n) [] h = refl
  take-take (suc m) (suc n) (x ∷ xs) h = ap (λ l. x ∷ l) (take-take m n xs (omega arith))

  pub length-splice :
      (cells : List A) (i : ℕ) (new : List A)
      → i + length new ≤ length cells
      → length (splice cells i new) ≡ length cells
  length-splice cells i new h = omega (
    arith,
    length-append (take i cells) (new ++ drop (i + length new) cells),
    length-append new (drop (i + length new) cells),
    length-take i cells (omega arith),
    length-drop (i + length new) cells,
  )

  -- What a write at `i` leaves up to the end of what was written.
  pub take-splice :
      (cells : List A) (i n : ℕ) (new : List A)
      → i ≤ length cells
      → n ≡ i + length new
      → take n (splice cells i new) ≡ take i cells ++ new
  take-splice cells i n new h e =
      let before = length-take i cells h in
      let rest = drop (i + length new) cells in
      let whole : n ≡ length (take i cells) + length new = omega arith in
      ap (λ k. take k (splice cells i new)) whole
      ∙ take-append_more (length new) (take i cells) (new ++ rest)
      ∙ ap (λ l. take i cells ++ l) (take-append new rest)

  -- A reallocation that does not shrink below `n` keeps the first `n` cells.
  pub take-realloc :
      (x : A) (cells : List A) (m n : ℕ)
      → n ≤ m
      → n ≤ length cells
      → take n (realloc x cells m) ≡ take n cells
  take-realloc x cells m zero h k = refl
  take-realloc x [] m (suc n) h k = absurd (omega arith)
  take-realloc x (c ∷ cells) zero (suc n) h k = absurd (omega arith)
  take-realloc x (c ∷ cells) (suc m) (suc n) h k =
      ap (λ l. c ∷ l)
        (rest (suc m - suc (length cells)) (omega arith)
          ∙ take-realloc x cells m n (omega arith) (omega arith))
    where
      rest :
          (d : ℕ)
          → d ≡ m - length cells
          → take n (take m cells ++ replicate d x) ≡ take n (realloc x cells m)
      rest d e = ap (λ k. take n (take m cells ++ replicate k x)) e

  pub length-realloc :
      (x : A) (cells : List A) (n : ℕ) → length cells ≤ n → length (realloc x cells n) ≡ n
  length-realloc x cells n h = omega (
    arith,
    length-append (take n cells) (replicate (n - length cells) x),
    length-replicate (n - length cells) x,
    take_all n cells h,
  )
    where
      take_all : (n : ℕ) (xs : List A) → length xs ≤ n → length (take n xs) ≡ length xs
      take_all zero [] h = refl
      take_all zero (x ∷ xs) h = absurd (omega arith)
      take_all (suc n) [] h = refl
      take_all (suc n) (x ∷ xs) h = ap suc (take_all n xs (omega arith))

  splice-one :
      (cells : List A) (i : ℕ) (x : A) → i < length cells → splice cells i (x ∷ []) ≡ set cells i x
  splice-one [] i x h = absurd (omega arith)
  splice-one (c ∷ cells) zero x h = refl
  splice-one (c ∷ cells) (suc i) x h =
      let step : suc i + 1 ≡ suc (i + 1) = omega arith in
      rw step (ap (λ l. c ∷ l) (splice-one cells i x (omega arith)))

  -- A store inside the array is a write of one cell.
  pub store-set :
      (cells : List A) (i : ℕ) (x : A) → i < length cells → store cells i x ≡ ok (set cells i x)
  store-set cells i x h =
      let inside : leb (i + 1) (length cells) ≡ true = le→leb _ _ (omega arith) in
      rw inside (ap ok (splice-one cells i x h))
