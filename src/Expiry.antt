-- ===== src/Expiry.antt =====
-- `entry_set_ttl` of server.c on the heap of expiry times. `a` is the entry's address, whose cell
-- is its `heap_idx`. The vector of the heap is the list of its items, with pushes that succeed. A
-- signed number is the word that holds it, and `now` is the clock.
pub mod Clear
pub mod Arm
use cachetron.Prelude.{
  ℕ, ◌+◌, ◌-◌, ◌*◌, ◌%◌, ◌^◌, Bool, true, false, Option, none, some, List, [], ◌∷◌, ◌++◌,
}
use cachetron.Prelude.{
  ltb, leb, ◌==◌, if◌then◌else◌, ◌&&◌, not, size_max, size_mod, length, set, take,
}
use cachetron.Prelude.Result.{Result, ok, ◌>>=◌, at}
use cachetron.Prelude.Memory.{store}
use cachetron.Heap.{Heap, HeapItem, heap_update}

-- `vector_set(g_data.heap, pos, vector_back(g_data.heap))`, which does nothing out of range.
pub set_last : List HeapItem → ℕ → Result (List HeapItem)
set_last items pos = if length items == 0 then ok items else (do
  x ← at items (length items - 1)
  if ltb pos (length items) then store items pos x else ok items)

abbrev pub set_idx : Heap → ℕ → ℕ → Heap
set_idx h a i = record h { cells = λ r. if r == a then i else h.cells r }

-- The entry leaves the heap.
pub erase_item : Heap → ℕ → Result Heap
unfolding set_last
erase_item h a = do
  let pos = h.cells a
  moved ← set_last h.items pos
  let popped = record h { items = take (length moved - 1) moved }
  updated ←
      (if ltb pos (length popped.items)
        then heap_update popped pos (length popped.items)
        else ok popped)
  ok (set_idx updated a size_max)

-- `((HeapItem *) vector_at(g_data.heap, pos))->val = ...; heap_update(...);`
pub set_time : Heap → ℕ → ℕ → Result Heap
set_time h pos time = do
  x ← at h.items pos
  items ← store h.items pos (record x { val = time })
  heap_update (record h { items = items }) pos (length items)

-- The value of the item that is pushed is set at once.
pub arm_item : Heap → ℕ → ℕ → Result Heap
unfolding set_time
arm_item h a time =
    if h.cells a == size_max
    then set_time (record h { items = h.items ++ record { val = 0; ref = a } ∷ [] })
        (length h.items) time
    else set_time h (h.cells a) time

abbrev pub is_negative : ℕ → Bool
is_negative w = leb (2 ^ 63) w

pub expire_at : ℕ → ℕ → ℕ
expire_at now ttl_ms = (now + (ttl_ms * 1000) % size_mod) % size_mod

unfoldable pub entry_set_ttl : ℕ → Heap → ℕ → ℕ → Result Heap
unfolding expire_at
entry_set_ttl now h a ttl_ms =
    if is_negative ttl_ms && not (h.cells a == size_max)
    then erase_item h a
    else if is_negative ttl_ms
    then ok h
    else arm_item h a (expire_at now ttl_ms)
