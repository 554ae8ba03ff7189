-- ===== src/Vector.antt =====
-- data_structures/vector/vector_c.{h,c}: a growing array of elements of one size. An element is one
-- cell here, and `none` is a cell that nothing has written. A pointer into the array is the index
-- of its cell. `alloc n` tells whether an allocation of `n` cells succeeds.
pub mod Append
pub mod Erase
pub mod Pointers
use cachetron.Prelude.{ℕ, zero, suc, ◌+◌, ◌-◌, ◌*◌, ◌%◌, ◌^◌, Bool, true, false, Option, none, some}
use cachetron.Prelude.{List, [], ◌∷◌, map, ltb, leb, ◌==◌, if◌then◌else◌, add_size, sub_size}
use cachetron.Prelude.{replicate, take, ◌&&◌}
use cachetron.Prelude.Clp2.{clp2}
use cachetron.Branchless.{max_size}
use cachetron.Prelude.Memory.{read_range, write_range, memmove, realloc, store}
use cachetron.Prelude.Result.{Result, ok, ◌>>=◌, deref}

pub record Vector {ℓ} (A : Type ℓ) : Type ℓ where
  pub cells : List (Option A)
  pub size : ℕ
  pub capacity : ℕ

-- A vector pointer, null or not.
abbrev pub Handle {ℓ} : Type ℓ → Type ℓ
Handle A = Option (Vector A)

module _ {ℓ} {A : Type ℓ} where
  -- The elements that a vector holds.
  abbrev pub contents : Vector A → List (Option A)
  contents v = take v.size v.cells

  -- `v && index < v->size ? data + index : nullptr`
  unfoldable pub vector_at : Handle A → ℕ → Option ℕ
  vector_at none index = none
  vector_at (some v) index = if ltb index v.size then some index else none

  pub vector_back : Handle A → Option ℕ
  vector_back none = none
  vector_back (some v) = if v.size == 0 then none else some (v.size - 1)

  pub vector_front : Handle A → Option ℕ
  vector_front none = none
  vector_front (some v) = if v.size == 0 then none else some 0

  pub vector_pop_back : Handle A → Handle A
  vector_pop_back none = none
  vector_pop_back (some v) = some (if v.size == 0 then v else record v { size = v.size - 1 })

  unfoldable pub vector_empty : Handle A → Bool
  vector_empty none = true
  vector_empty (some v) = v.size == 0

  pub vector_size : Handle A → ℕ
  vector_size none = 0
  vector_size (some v) = v.size

  pub vector_capacity : Handle A → ℕ
  vector_capacity none = 0
  vector_capacity (some v) = v.capacity

  pub vector_clear : Handle A → Handle A
  vector_clear none = none
  vector_clear (some v) = some (record v { size = 0 })

  -- As written, one cell more is moved than stands behind the one erased.
  pub vector_erase : Handle A → ℕ → Result (Bool × Handle A)
  vector_erase none index = ok (false, none)
  vector_erase (some v) index =
      if ltb index v.size
      then (do
        cells ← memmove v.cells index (index + 1) (v.size - index)
        ok (true, some (record v { cells = cells; size = v.size - 1 })))
      else ok (false, some v)

  module _ (alloc : ℕ → Bool) where
    -- The struct and its array.
    unfoldable pub vector_new : Handle A
    vector_new =
        if alloc 16
        then some (record { cells = replicate 16 none; size = 0; capacity = 16 })
        else none

    pub vector_resize : Vector A → ℕ → Bool × Vector A
    vector_resize v size =
        if leb size 16
        then (true, v)
        else if leb v.capacity (clp2 size)
        then (if alloc (clp2 size)
            then (true, record v { cells = realloc none v.cells (clp2 size); capacity = clp2 size })
            else (false, v))
        else (true, v)

    -- `if (new_size >= v->capacity) if (!vector_resize(v, new_size)) return false;`
    pub reserve : Vector A → ℕ → Bool × Vector A
    unfolding vector_resize
    reserve v new_size = if leb v.capacity new_size then vector_resize v new_size else (true, v)

    -- `elems` is the array that the pointer stands for.
    pub vector_append : Handle A → Option (List A) → ℕ → Result (Bool × Handle A)
    unfolding reserve
    vector_append none elems count = ok (false, none)
    vector_append (some v) none count = ok (false, some v)
    vector_append (some v) (some elems) count =
        if count == 0
        then ok (true, some v)
        else (let new_size = add_size v.size count in
            let (fits, v') = reserve v new_size in
            if fits
            then (do
              new ← read_range elems 0 count
              cells ← write_range v'.cells v'.size (map some new)
              ok (true, some (record v' { cells = cells; size = new_size })))
            else ok (false, some v'))

    unfoldable pub vector_push_back : Handle A → Option A → Result (Bool × Handle A)
    unfolding vector_append
    vector_push_back none elem = ok (false, none)
    vector_push_back (some v) none = ok (false, some v)
    vector_push_back (some v) (some elem) = vector_append (some v) (some (elem ∷ [])) 1

    pub vector_insert : Handle A → ℕ → Option A → Result (Bool × Handle A)
    unfolding vector_push_back
    vector_insert none index elem = ok (false, none)
    vector_insert (some v) index none = ok (false, some v)
    vector_insert (some v) index (some elem) =
        if ltb index v.size
        then (let full = leb v.capacity (add_size v.size 1) in
            let (fits, v') =
              if full then vector_resize v ((v.capacity * 2) % 2 ^ 64) else (true, v) in
            if fits
            then (do
              moved ← memmove v'.cells (index + 1) index (v'.size - index)
              cells ← store moved index (some elem)
              ok (true, some (record v' { cells = cells; size = add_size v'.size 1 })))
            else ok (false, some v'))
        else if index == 0 && v.size == 0
        then vector_push_back (some v) (some elem)
        else ok (false, some v)

    pub vector_set_range : Handle A → Option (List A) → ℕ → ℕ → Result (Bool × Handle A)
    unfolding vector_append
    vector_set_range none elems index count = ok (false, none)
    vector_set_range (some v) none index count = ok (false, some v)
    vector_set_range (some v) (some elems) index count =
        if ltb index v.size
        then (let new_size = max_size v.size (add_size count index) in
            let (fits, v') = if ltb v.size new_size then vector_resize v new_size else (true, v) in
            if fits
            then (do
              new ← read_range elems 0 count
              cells ← write_range v'.cells index (map some new)
              ok (true, some (record v' { cells = cells; size = new_size })))
            else ok (false, some v'))
        else if index == 0 && v.size == 0
        then vector_append (some v) (some elems) count
        else ok (false, some v)

    pub vector_set : Handle A → ℕ → Option A → Result (Bool × Handle A)
    unfolding vector_set_range
    vector_set none index elem = ok (false, none)
    vector_set (some v) index none = ok (false, some v)
    vector_set (some v) index (some elem) = vector_set_range (some v) (some (elem ∷ [])) index 1
