-- ===== src/Heap.antt =====
-- data_structures/trees/heap.{h,c}: the heap of expiry times. An item is a time and the pointer
-- `ref` to the cell that holds the item's index; the cells are a function from pointers to indices.
pub mod Order
pub mod Up
pub mod Down
pub mod Update
use cachetron.Prelude.{
  ℕ, zero, suc, ◌+◌, ◌-◌, ◌*◌, ◌/◌, ◌%◌, ◌^◌, Bool, true, false, Option, none, some,
}
use cachetron.Prelude.{List, ltb, ◌==◌, if◌then◌else◌, ◌&&◌, add_size, sub_size, size_mod}
use cachetron.Prelude.Memory.{store}
use cachetron.Prelude.Result.{Result, ok, fault, ◌>>=◌, at, diverged}

pub record HeapItem : Type 0 where
  pub val : ℕ
  pub ref : ℕ

-- The array of items, and the cells that the items point to.
pub record Heap : Type 0 where
  pub items : List HeapItem
  pub cells : ℕ → ℕ

abbrev pub heap_parent : ℕ → ℕ
heap_parent i = sub_size (add_size i 1 / 2) 1

abbrev pub heap_left : ℕ → ℕ
heap_left i = add_size ((i * 2) % size_mod) 1

abbrev pub heap_right : ℕ → ℕ
heap_right i = add_size ((i * 2) % size_mod) 2

pub init_heap_item : HeapItem
init_heap_item = record { val = 0; ref = 0 }

-- `item[pos] = t; *item[pos].ref = pos;`
pub place : Heap → ℕ → HeapItem → Result Heap
place h pos t = do
  items ← store h.items pos t
  ok (record { items = items; cells = λ r. if r == t.ref then pos else h.cells r })

-- The loop of `heap_up`, with the rounds that it may still take.
pub up_loop : ℕ → Heap → ℕ → HeapItem → Result (Heap × ℕ)
unfolding place
up_loop zero h pos t = fault diverged
up_loop (suc fuel) h pos t =
    let step : Result (Heap × ℕ) = do
      above ← at h.items (heap_parent pos)
      let rise = place h pos above >>= λ h'. up_loop fuel h' (heap_parent pos) t
      if ltb t.val above.val then rise else ok (h, pos)
    in if ltb 0 pos then step else ok (h, pos)

pub heap_up : Heap → ℕ → Result Heap
unfolding up_loop place
heap_up h pos = do t ← at h.items pos; (h', pos') ← up_loop (pos + 1) h pos t; place h' pos' t

-- The smaller of two values of which the second may not exist, `none` for `(size_t) -1`.
pub min_left : Heap → ℕ → ℕ → ℕ → Result (Option ℕ × ℕ)
min_left h l len least =
    if ltb l len
    then (do x ← at h.items l; ok (if ltb x.val least then (some l, x.val) else (none, least)))
    else ok (none, least)

pub min_right : Heap → ℕ → ℕ → Option ℕ × ℕ → Result (Option ℕ)
min_right h r len (min_pos, min_val) =
    if ltb r len
    then (do x ← at h.items r; ok (if ltb x.val min_val then some r else min_pos))
    else ok min_pos

-- The loop of `heap_down`.
pub down_loop : ℕ → Heap → ℕ → ℕ → HeapItem → Result (Heap × ℕ)
unfolding place min_left min_right
down_loop zero h pos len t = fault diverged
down_loop (suc fuel) h pos len t = do
  left ← min_left h (heap_left pos) len t.val
  min_pos ← min_right h (heap_right pos) len left
  elim min_pos [
    | none ↦ ok (h, pos)
    | some m ↦ do kid ← at h.items m; h' ← place h pos kid; down_loop fuel h' m len t
  ]

pub heap_down : Heap → ℕ → ℕ → Result Heap
unfolding down_loop place
heap_down h pos len = do
  t ← at h.items pos
  (h', pos') ← down_loop (len + 1) h pos len t
  place h' pos' t

-- `pos > 0 && item[heap_parent(pos)].val > item[pos].val`
pub too_low : Heap → ℕ → Result Bool
too_low h pos =
    if ltb 0 pos
    then (do
      above ← at h.items (heap_parent pos)
      here ← at h.items pos
      ok (ltb here.val above.val))
    else ok false

pub heap_update : Heap → ℕ → ℕ → Result Heap
unfolding too_low
heap_update h pos len = do low ← too_low h pos; if low then heap_up h pos else heap_down h pos len
