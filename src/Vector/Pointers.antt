-- ===== src/Vector/Pointers.antt =====
-- The second half of vector_c.c: `ptr_vector`, a growing array of pointers of any type. A cell is
-- `none` for a null pointer; a grown array is filled with null where the source leaves it unset.
pub mod Laws
use cachetron.Prelude.{ℕ, zero, suc, ◌+◌, ◌-◌, ◌*◌, ◌%◌, ◌^◌, Bool, true, false, Option, none, some}
use cachetron.Prelude.{
  List, [], ◌∷◌, ltb, leb, ◌==◌, if◌then◌else◌, add_size, replicate, take, get_or,
}
use cachetron.Prelude.Clp2.{clp2}
use cachetron.Prelude.Memory.{read_range, write_range, memmove, realloc, store}
use cachetron.Prelude.Result.{Result, ok, ◌>>=◌, at}
use cachetron.Vector.{Vector, Handle}

module _ {ℓ} {A : Type ℓ} where
  -- `v && index < v->size ? v->data[index] : nullptr`
  unfoldable pub ptr_vector_at : Handle A → ℕ → Option A
  ptr_vector_at none index = none
  ptr_vector_at (some v) index = if ltb index v.size then get_or v.cells index none else none

  pub ptr_vector_pop_back : Handle A → Handle A
  ptr_vector_pop_back none = none
  ptr_vector_pop_back (some v) = some (if v.size == 0 then v else record v { size = v.size - 1 })

  pub ptr_vector_empty : Handle A → Bool
  ptr_vector_empty none = true
  ptr_vector_empty (some v) = v.size == 0

  pub ptr_vector_erase : Handle A → ℕ → Result (Bool × Handle A)
  ptr_vector_erase none index = ok (false, none)
  ptr_vector_erase (some v) index =
      if ltb index v.size
      then (do
        cells ← memmove v.cells index (index + 1) (v.size - index)
        ok (true, some (record v { cells = cells; size = v.size - 1 })))
      else ok (false, some v)

  unfoldable pub ptr_vector_set : Handle A → ℕ → Option A → Result (Bool × Handle A)
  ptr_vector_set none index elem = ok (false, none)
  ptr_vector_set (some v) index elem =
      if ltb index v.size
      then (do cells ← store v.cells index elem; ok (true, some (record v { cells = cells })))
      else ok (false, some v)

  unfoldable pub ptr_vector_size : Handle A → ℕ
  ptr_vector_size none = 0
  ptr_vector_size (some v) = v.size

  pub ptr_vector_capacity : Handle A → ℕ
  ptr_vector_capacity none = 0
  ptr_vector_capacity (some v) = v.capacity

  pub ptr_vector_clear : Handle A → Handle A
  ptr_vector_clear none = none
  ptr_vector_clear (some v) = some (record v { size = 0 })

  pub ptr_vector_back : Handle A → Result (Option A)
  ptr_vector_back none = ok none
  ptr_vector_back (some v) = if v.size == 0 then ok none else at v.cells (v.size - 1)

  pub ptr_vector_front : Handle A → Result (Option A)
  ptr_vector_front none = ok none
  ptr_vector_front (some v) = if v.size == 0 then ok none else at v.cells 0

  module _ (alloc : ℕ → Bool) where
    unfoldable pub ptr_vector_new : Handle A
    ptr_vector_new =
        if alloc 16
        then some (record { cells = replicate 16 none; size = 0; capacity = 16 })
        else none

    pub ptr_vector_resize : Vector A → ℕ → Bool × Vector A
    ptr_vector_resize v size =
        if leb size 16
        then (true, v)
        else if leb v.capacity (clp2 size)
        then (if alloc (clp2 size)
            then (true, record v { cells = realloc none v.cells (clp2 size); capacity = clp2 size })
            else (false, v))
        else (true, v)

    -- `if (v->size == v->capacity) if (!ptr_vector_resize(v, v->capacity * 2)) return false;`
    pub double : Vector A → Bool × Vector A
    unfolding ptr_vector_resize
    double v =
        if v.size == v.capacity then ptr_vector_resize v ((v.capacity * 2) % 2 ^ 64) else (true, v)

    unfoldable pub ptr_vector_push_back : Handle A → Option A → Result (Bool × Handle A)
    unfolding double
    ptr_vector_push_back none elem = ok (false, none)
    ptr_vector_push_back (some v) elem =
        let (fits, v') = double v in
        if fits
        then (do
          cells ← store v'.cells v'.size elem
          ok (true, some (record v' { cells = cells; size = add_size v'.size 1 })))
        else ok (false, some v')

    -- The loop of `ptr_vector_expand`, with the rounds left; the answers are not read.
    push_nulls : ℕ → Handle A → Result (Handle A)
    unfolding ptr_vector_push_back
    push_nulls zero v = ok v
    push_nulls (suc n) v = ptr_vector_push_back v none >>= λ (b, v'). push_nulls n v'

    resized_to : ℕ → Handle A → Handle A
    resized_to n none = none
    resized_to n (some v) = some (record v { size = n })

    -- `i` runs from the old size to `new_size`.
    pub ptr_vector_expand : Handle A → ℕ → Result (Bool × Handle A)
    unfolding push_nulls ptr_vector_resize resized_to
    ptr_vector_expand none new_size = ok (false, none)
    ptr_vector_expand (some v) new_size =
        if leb new_size v.size
        then ok (true, some v)
        else (let (fits, v') = ptr_vector_resize v new_size in
            if fits
            then (do
              filled ← push_nulls (new_size - v'.size) (some v')
              ok (true, resized_to new_size filled))
            else ok (false, some v'))
