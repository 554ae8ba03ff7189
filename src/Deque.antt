-- ===== src/Deque.antt =====
-- data_structures/queue/deque_c.{h,c}: a double-ended queue of pointers in a circular array.
-- `alloc n` tells whether an allocation of `n` cells succeeds, and `in_place` whether `realloc`
-- leaves the array where it was. `none` is a cell that nothing has written.
pub mod Ends
pub mod Pop
pub mod Resize
pub mod Stocked
use cachetron.Prelude.{ℕ, zero, suc, ◌+◌, ◌-◌, ◌*◌, ◌%◌, ◌^◌, Bool, true, false, Option, none, some}
use cachetron.Prelude.{
  List, [], ◌∷◌, ltb, ◌==◌, if◌then◌else◌, add_size, size_max, replicate, length, ◌&&◌,
}
use cachetron.Prelude.Memory.{realloc, store}
use cachetron.Prelude.Result.{Result, ok, fault, use_after_free, ◌>>=◌, at}

pub record Deque {ℓ} (A : Type ℓ) : Type ℓ where
  pub capacity : ℕ
  pub size : ℕ
  pub front : ℕ
  pub back : ℕ
  pub cells : List (Option A)

module _ {ℓ} {A : Type ℓ} where
  unfoldable pub deque_empty : Deque A → Bool
  deque_empty d = d.size == 0

  pub deque_size : Deque A → ℕ
  deque_size d = d.size

  pub deque_full : Deque A → Bool
  deque_full d = d.size == d.capacity

  pub deque_front : Deque A → Result (Option A)
  unfolding deque_empty
  deque_front d = if deque_empty d then ok none else at d.cells d.front

  pub deque_back : Deque A → Result (Option A)
  unfolding deque_empty
  deque_back d = if deque_empty d then ok none else at d.cells d.back

  -- `void *` is the cell's content; null for an empty deque.
  pub deque_pop_front : Deque A → Result (Option A × Deque A)
  unfolding deque_empty
  deque_pop_front d = if deque_empty d then ok (none, d) else do
    x ← at d.cells d.front
    ok (
      x,
      (if d.front == d.back
          then record d { size = d.size - 1; front = size_max; back = size_max }
          else record d { size = d.size - 1; front = add_size d.front 1 % d.capacity }),
    )

  pub deque_pop_back : Deque A → Result (Option A × Deque A)
  unfolding deque_empty
  deque_pop_back d = if deque_empty d then ok (none, d) else do
    x ← at d.cells d.back
    ok (
      x,
      (if d.front == d.back
          then record d { size = d.size - 1; front = size_max; back = size_max }
          else record d {
            size = d.size - 1;
            back = if d.back == 0 then d.capacity - 1 else d.back - 1;
          }),
    )

  -- A read through the pointer that was given to `realloc`: where the array stayed in place it is
  -- the new array, and else it is freed.
  abbrev pub read_old : Bool → List (Option A) → ℕ → Result (Option A)
  read_old true new_data j = at new_data j
  read_old false new_data j = fault use_after_free

  -- `for (...) new_data[i] = deque->data[j];`, `n` rounds.
  pub copy_down : Bool → ℕ → ℕ → ℕ → List (Option A) → Result (List (Option A))
  copy_down in_place zero i j new_data = ok new_data
  copy_down in_place (suc n) i j new_data = do
    x ← read_old in_place new_data j
    new_data' ← store new_data i x
    copy_down in_place n (i + 1) (j + 1) new_data'

  -- `data` goes into the cell; the array is changed at the new front.
  pub put_front : Deque A → Option A → Result (Bool × Deque A)
  unfolding deque_empty
  put_front d x =
      let empty = deque_empty d in
      let front = if empty then 0 else if d.front == 0 then d.capacity - 1 else d.front - 1 in
      store d.cells front x >>= λ cells. ok (
        true,
        record d {
          size = add_size d.size 1;
          front = front;
          back = if empty then 0 else d.back;
          cells = cells;
        },
      )

  pub put_back : Deque A → Option A → Result (Bool × Deque A)
  unfolding deque_empty
  put_back d x =
      let empty = deque_empty d in
      let back = if empty then 0 else add_size d.back 1 % d.capacity in
      store d.cells back x >>= λ cells. ok (
        true,
        record d {
          size = add_size d.size 1;
          front = if empty then 0 else d.front;
          back = back;
          cells = cells;
        },
      )

  module _ (alloc : ℕ → Bool) (in_place : Bool) where
    -- The struct takes five words, the array sixteen.
    unfoldable pub create_deque : Option (Deque A)
    create_deque =
        if alloc 5 && alloc 16
        then some (record {
          capacity = 16;
          size = 0;
          front = size_max;
          back = size_max;
          cells = replicate 16 none;
        })
        else none

    pub deque_resize : Deque A → Result (Bool × Deque A)
    unfolding copy_down
    deque_resize d =
        let new_capacity = (d.capacity * 2) % 2 ^ 64 in
        let new_data = realloc none d.cells new_capacity in
        if alloc new_capacity
        then (if ltb d.back d.front
            then (do
              upper ← copy_down in_place (d.capacity - d.front) 0 d.front new_data
              lower ← copy_down in_place (d.back + 1) (d.capacity - d.front) 0 upper
              ok (
                true,
                record d {
                  capacity = new_capacity;
                  front = 0;
                  back = d.capacity - 1;
                  cells = lower;
                },
              ))
            else ok (true, record d { capacity = new_capacity; cells = new_data }))
        else ok (false, d)

    -- `if (deque_full(deque) && !deque_resize(deque)) return false;`
    pub make_room : Deque A → Result (Bool × Deque A)
    unfolding deque_full deque_resize
    make_room d = if deque_full d then deque_resize d else ok (true, d)

    pub deque_push_front : Deque A → Option A → Result (Bool × Deque A)
    unfolding make_room put_front
    deque_push_front d x = do
      (fits, d') ← make_room d
      if fits then put_front d' x else ok (false, d')

    unfoldable pub deque_push_back : Deque A → Option A → Result (Bool × Deque A)
    unfolding make_room put_back
    deque_push_back d x = do
      (fits, d') ← make_room d
      if fits then put_back d' x else ok (false, d')
