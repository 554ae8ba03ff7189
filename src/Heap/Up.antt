-- ===== src/Heap/Up.antt =====
-- `heap_up` lets an item that is too low rise to its place.
use cachetron.Prelude.{ℕ, zero, suc, ◌^◌, ◌<◌, ◌≤◌, ◌≡◌, ◌≢◌, refl, ◌∙◌, inl, inr}
use cachetron.Prelude.{List, arith, length, length-set, Bool-cases}
use cachetron.Prelude.{ltb, lt→ltb, ltb→lt, ◌==◌}
use cachetron.Prelude.Result.{ok, at, at-get_or}
use cachetron.Heap.{HeapItem, Heap, heap_parent, up_loop}
use cachetron.Heap.Order.{
  item, key, parent, heap_parent_lem, IsHeap, Refs, item-set, place_lem, filled, Sifted, moved,
  length-moved, item-moved, Refs-moved, count-moved, has_ref, others-moved,
}

-- Only the edge above `i` may be out of order.
pub record UpInv (a : List HeapItem) (i : ℕ) : Type 0 where
  pub edges : (c : ℕ) → 0 < c → c < length a → c ≢ i → key a (parent c) ≤ key a c
  pub past : (c : ℕ) → 0 < c → c < length a → parent c ≡ i → 0 < i → key a (parent i) ≤ key a c

settled-IsHeap :
    (a : List HeapItem) (i : ℕ) → UpInv a i → (0 < i → key a (parent i) ≤ key a i) → IsHeap a
settled-IsHeap a i v top c p q = elim (Bool-cases (c == i)) [
  | inl e ↦ ground (arith, top)
  | inr e ↦ v.edges c p q (ground arith)
]

module _ (h : Heap) (i : ℕ) (t : HeapItem) (hi : i < length h.items) (pos : 0 < i) where
  above_in : parent i < length h.items
  above_in = omega arith

  apart : i ≢ parent i
  apart e = omega arith

  moved-UpInv :
      UpInv (filled h i t) i
      → t.val < key h.items (parent i)
      → UpInv (filled (moved h i (parent i) t hi above_in apart) (parent i) t) (parent i)
  moved-UpInv v below =
      let m = moved h i (parent i) t hi above_in apart in
      let width = length-moved h i (parent i) t hi above_in apart in
      let width' : length (filled m (parent i) t) ≡ length h.items =
        length-set m.items (parent i) t ∙ width in
      let width'' : length (filled h i t) ≡ length h.items = length-set h.items i t in
      let at = item-moved h i (parent i) t hi above_in apart in
      let was = λ (c : ℕ). item-set h.items i c t hi in
      record {
        edges = λ c p q r. ground (
          arith,
          at c,
          at (parent c),
          was c,
          was (parent c),
          was (parent i),
          v.edges c,
          v.past c,
        );
        past = λ c p q r s. ground (
          arith,
          at c,
          at (parent c),
          at (parent (parent i)),
          was c,
          was (parent c),
          was (parent i),
          was (parent (parent i)),
          v.edges c,
          v.edges (parent i),
          v.past c,
        );
      }

-- A round in which the item above moves down.
up_step :
    (fuel : ℕ) (h : Heap) (pos : ℕ) (t : HeapItem) (hi : pos < length h.items)
    → (some_pos : 0 < pos) → length h.items < 2 ^ 62
    → t.val < key h.items (parent pos)
    → (out : Heap × ℕ)
    → up_loop fuel
        (moved h pos (parent pos) t hi (above_in h pos t hi some_pos) (apart h pos t hi some_pos))
        (parent pos)
        t
      ≡ ok out
    → up_loop (suc fuel) h pos t ≡ ok out
unfolding up_loop
up_step fuel h pos t hi some_pos small low out run =
    let up_in = above_in h pos t hi some_pos in
    let e : heap_parent pos ≡ parent pos = heap_parent_lem pos some_pos (omega arith) in
    let read : at h.items (parent pos) ≡ ok (item h.items (parent pos)) =
      at-get_or h.items (parent pos) (record { val = 0; ref = 0 }) up_in in
    rw
      (
        lt→ltb 0 pos some_pos,
        e,
        read,
        lt→ltb _ _ low,
        place_lem h pos (item h.items (parent pos)) hi,
      )
      run

-- From a place at which only the edge above is wrong, the loop ends within `pos + 1` rounds and
-- leaves a heap of the same items.
pub up_loop-Sifted :
    (fuel : ℕ) (h : Heap) (pos : ℕ) (t : HeapItem)
    → pos < fuel
    → pos < length h.items
    → length h.items < 2 ^ 62
    → UpInv (filled h pos t) pos
    → Refs h pos t
    → (h' : Heap) × (pos' : ℕ) × (up_loop fuel h pos t ≡ ok (h', pos')) × Sifted h pos t h' pos'
unfolding up_loop
up_loop-Sifted zero h pos t f inside small v r = absurd (omega arith)
up_loop-Sifted (suc fuel) h pos t f inside small v r = elim (Bool-cases (ltb 0 pos)) [
  | inr root ↦ (
    h,
    pos,
    rw root,
    record {
      width = refl;
      inside = inside;
      ordered = settled-IsHeap (filled h pos t) pos v (λ p. absurd (ground arith));
      refs = r;
      same = λ p. refl;
      others = λ r none_has. refl;
    },
  )
  | inl child ↦
      let some_pos : 0 < pos = ltb→lt 0 pos child in
      let up = parent pos in
      let e : heap_parent pos ≡ up = heap_parent_lem pos some_pos (omega arith) in
      let up_in : up < length h.items = above_in h pos t inside some_pos in
      let ne = apart h pos t inside some_pos in
      let read : at h.items up ≡ ok (item h.items up) =
        at-get_or h.items up (record { val = 0; ref = 0 }) up_in in
      let was = λ (c : ℕ). item-set h.items pos c t inside in
      elim (Bool-cases (ltb t.val (key h.items up))) [
        | inr fits ↦ (
          h,
          pos,
          rw (child, e, read, fits),
          record {
            width = refl;
            inside = inside;
            ordered = settled-IsHeap (filled h pos t) pos v (λ p. ground (arith, was pos, was up));
            refs = r;
            same = λ p. refl;
            others = λ r none_has. refl;
          },
        )
        | inl low ↦
            let m = moved h pos up t inside up_in ne in
            let width = length-moved h pos up t inside up_in ne in
            let (h', pos', run, s) =
              up_loop-Sifted fuel m up t (omega arith) (omega arith) (omega arith)
                (moved-UpInv h pos t inside some_pos v (ltb→lt _ _ low))
                (Refs-moved h pos up t inside up_in ne r) in
            (
              h',
              pos',
              up_step fuel h pos t inside some_pos small (ltb→lt _ _ low) (h', pos') run,
              record {
                width = s.width ∙ width;
                inside = omega (arith, s.inside);
                ordered = s.ordered;
                refs = s.refs;
                same = λ p. s.same p ∙ count-moved h pos up t inside up_in ne p;
                others = λ r none_has.
                    s.others r (count-moved h pos up t inside up_in ne (has_ref r) ∙ none_has)
                    ∙ others-moved h pos up t inside up_in ne r none_has;
              },
            )
      ]
]
