-- ===== src/Heap/Update.antt =====
-- `heap_update` mends a heap after the value at one place has changed.
use cachetron.Prelude.{ℕ, zero, suc, ◌+◌, ◌^◌, ◌<◌, ◌≤◌, ◌≡◌, refl, ap, ◌∙◌, inl, inr}
use cachetron.Prelude.{Bool, true, List, [], ◌∷◌, arith, length, set, length-set, Bool-cases}
use cachetron.Prelude.{ltb, ltb→lt, ltb-false, ◌==◌, if◌then◌else◌, count}
use cachetron.Prelude.Result.{ok, at, at-get_or}
use cachetron.Heap.{HeapItem, Heap, heap_parent, place, heap_up, heap_down}
use cachetron.Heap.{too_low, heap_update}
use cachetron.Heap.Order.{
  item, key, parent, heap_parent_lem, IsHeap, IsHeapBut, Refs, AllRefs, item-set, place_lem, filled,
  Sifted, has_ref, count-item,
}
use cachetron.Heap.Up.{UpInv, up_loop-Sifted}
use cachetron.Heap.Down.{DownInv, down_loop-Sifted}

-- What `heap_update` leaves: a heap of the same items, each of which points to its index.
pub record Mended (h h' : Heap) : Type 0 where
  pub width : length h'.items ≡ length h.items
  pub ordered : IsHeap h'.items
  pub refs : AllRefs h'
  pub same : (p : HeapItem → Bool) → count p h'.items ≡ count p h.items
  pub others : (r : ℕ) → count (has_ref r) h.items ≡ 0 → h'.cells r ≡ h.cells r

set-item : (a : List HeapItem) (i : ℕ) → i < length a → set a i (item a i) ≡ a
set-item [] i h = absurd (omega arith)
set-item (x ∷ a) zero h = refl
set-item (x ∷ a) (suc i) h = ap (λ l. x ∷ l) (set-item a i (omega arith))

-- The waiting item is put into its place.
placed :
    (h h' : Heap) (pos pos' : ℕ) (t : HeapItem)
    → Sifted h pos t h' pos'
    → filled h pos t ≡ h.items
    → (h'' : Heap) × (place h' pos' t ≡ ok h'') × Mended h h''
placed h h' pos pos' t s refilled =
    let inside : pos' < length h'.items = omega (arith, s.inside, s.width) in
    let self : item (filled h' pos' t) pos' ≡ t =
      ground (arith, item-set h'.items pos' pos' t inside) in
    let waits : (r : ℕ) → has_ref r t ≡ true → 0 < count (has_ref r) (filled h pos t) = λ r e.
      omega (
        arith,
        s.same (has_ref r),
        count-item (has_ref r) (filled h' pos' t) pos' (omega (arith, length-set h'.items pos' t))
            (ap (has_ref r) self ∙ e),
      ) in
    (
      record { items = set h'.items pos' t; cells = λ r. if r == t.ref then pos' else h'.cells r },
      place_lem h' pos' t inside,
      record {
        width = length-set h'.items pos' t ∙ s.width;
        ordered = s.ordered;
        refs = λ i p.
            let w = length-set h'.items pos' t in
            ground (arith, item-set h'.items pos' i t inside, s.refs.own i, s.refs.apart i);
        same = λ p. s.same p ∙ ap (count p) refilled;
        others = λ r none_has.
            let none_waits : count (has_ref r) (filled h pos t) ≡ 0 =
              ap (count (has_ref r)) refilled ∙ none_has in
            elim (Bool-cases (has_ref r t)) [
              | inl e ↦ absurd (omega (arith, none_waits, waits r e))
              | inr apart ↦ ground (arith, s.others r none_waits)
            ];
      },
    )

module _ (h : Heap) (pos : ℕ) (inside : pos < length h.items) (small : length h.items < 2 ^ 62)
    (but : IsHeapBut h.items pos) (refs : Refs h pos (item h.items pos)) where
  here : at h.items pos ≡ ok (item h.items pos)
  here = at-get_or h.items pos (record { val = 0; ref = 0 }) inside

  refilled : filled h pos (item h.items pos) ≡ h.items
  refilled = set-item h.items pos inside

  rises :
      0 < pos
      → key h.items pos < key h.items (parent pos)
      → (h' : Heap) × (heap_up h pos ≡ ok h') × Mended h h'
  unfolding heap_up
  rises some_pos low =
      let t = item h.items pos in
      let v : UpInv h.items pos = record {
        edges = λ c p q r. ground (arith, but.edges c, but.past c);
        past = but.past;
      } in
      let (h1, pos1, run, s) =
        up_loop-Sifted (pos + 1) h pos t (omega arith) inside small (rw refilled v) refs in
      let (h2, put, m) = placed h h1 pos pos1 t s refilled in (h2, rw (here, run, put), m)

  sinks :
      (0 < pos → key h.items (parent pos) ≤ key h.items pos)
      → (h' : Heap) × (heap_down h pos (length h.items) ≡ ok h') × Mended h h'
  unfolding heap_down
  sinks high =
      let t = item h.items pos in
      let v : DownInv h.items pos = record {
        edges = λ c p q r. ground (arith, but.edges c, high);
        past = but.past;
      } in
      let (h1, pos1, run, s) =
        down_loop-Sifted (length h.items + 1) h (length h.items) pos t refl (omega arith) inside
          small (rw refilled v) refs in
      let (h2, put, m) = placed h h1 pos pos1 t s refilled in (h2, rw (here, run, put), m)

  -- When only the item at `pos` may be out of order, and every other item points to its index,
  -- `heap_update` ends within its array. It leaves a heap of the same items, in which every item
  -- points to its index.
  pub heap_update-Mended : (h' : Heap) × (heap_update h pos (length h.items) ≡ ok h') × Mended h h'
  unfolding heap_update too_low
  heap_update-Mended = elim (Bool-cases (ltb 0 pos)) [
    | inr root ↦ let (h', run, m) = sinks (λ p. absurd (ground arith)) in (h', rw root run, m)
    | inl child ↦
        let some_pos = ltb→lt 0 pos child in
        let e : heap_parent pos ≡ parent pos = heap_parent_lem pos some_pos (omega arith) in
        let above : at h.items (parent pos) ≡ ok (item h.items (parent pos)) =
          at-get_or h.items (parent pos) (record { val = 0; ref = 0 }) (omega arith) in
        elim (Bool-cases (ltb (key h.items pos) (key h.items (parent pos)))) [
          | inl low ↦
              let (h', run, m) = rises some_pos (ltb→lt _ _ low) in
              (h', rw (child, e, above, here, low) run, m)
          | inr over ↦
              let (h', run, m) = sinks (λ p. ltb-false _ _ over) in
              (h', rw (child, e, above, here, over) run, m)
        ]
  ]
