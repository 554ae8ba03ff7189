-- ===== src/Expiry/Clear.antt =====
-- The heap of expiry times, and an entry that leaves it.
use cachetron.Prelude.{ℕ, zero, suc, ◌+◌, ◌-◌, ◌^◌, ◌<◌, ◌≤◌, ◌≡◌, ◌≢◌, refl, sym, ap, ◌∙◌}
use cachetron.Prelude.{Bool, true, false, not, ◌&&◌, List, [], ◌∷◌, arith, inl, inr}
use cachetron.Prelude.{length, set, take, length-set, count, to_nat, Bool-cases, size_max}
use cachetron.Prelude.{ltb, ltb→lt, lt→ltb, ltb-false, eqb→eq, ◌==◌, if◌then◌else◌}
use cachetron.Prelude.Memory.{length-take, store-set}
use cachetron.Prelude.Result.{ok, at, at-get_or}
use cachetron.Heap.{Heap, HeapItem, heap_update}
use cachetron.Heap.Order.{
  item, parent, IsHeap, IsHeapBut, Refs, AllRefs, item-set, count-item, count-set, has_ref,
}
use cachetron.Heap.Update.{heap_update-Mended}
use cachetron.Expiry.{set_last, set_idx, erase_item}

-- A heap in which each item points to the cell of its own index. An entry without an item has
-- `SIZE_MAX` in its cell.
pub record IsTimed (h : Heap) : Type 0 where
  pub ordered : IsHeap h.items
  pub refs : AllRefs h
  pub idle : (a : ℕ) → count (has_ref a) h.items ≡ 0 → h.cells a ≡ size_max
  pub small : length h.items < 2 ^ 62

-- The test on the items of the other entries.
abbrev pub of_others : (HeapItem → Bool) → ℕ → HeapItem → Bool
of_others p a x = p x && not (x.ref == a)

pub count-others :
    (p : HeapItem → Bool) (a : ℕ) (items : List HeapItem)
    → ((i : ℕ) → i < length items → (item items i).ref ≢ a)
    → count (of_others p a) items ≡ count p items
count-others p a [] h = refl
count-others p a (x ∷ items) h =
    let apart : (x.ref == a) ≡ false = ground (arith, h 0) in
    let same : of_others p a x ≡ p x = rw apart (and_true (p x)) in
    omega (arith, ap to_nat same, count-others p a items (λ i k. h (suc i) (omega arith)))
  where
    and_true : (b : Bool) → (b && true) ≡ b
    and_true true = refl
    and_true false = refl

-- Where one item alone is of the entry, the others are all but that one.
pub count-others_one :
    (p : HeapItem → Bool) (a : ℕ) (items : List HeapItem) (pos : ℕ)
    → pos < length items
    → (item items pos).ref ≡ a
    → ((i : ℕ) → i < length items → i ≢ pos → (item items i).ref ≢ a)
    → count (of_others p a) items + to_nat (p (item items pos)) ≡ count p items
count-others_one p a [] pos inside e h = absurd (omega arith)
count-others_one p a (x ∷ items) zero inside e h =
    let own : (x.ref == a) ≡ true = ground arith in
    let none_of : of_others p a x ≡ false = rw own (and_false (p x)) in
    omega (
      arith,
      ap to_nat none_of,
      count-others p a items (λ i k. h (suc i) (omega arith) (λ e. omega arith)),
    )
  where
    and_false : (b : Bool) → (b && false) ≡ false
    and_false true = refl
    and_false false = refl
count-others_one p a (x ∷ items) (suc pos) inside e h =
    let apart : (x.ref == a) ≡ false = ground (arith, h 0) in
    let same : of_others p a x ≡ p x = rw apart (and_true (p x)) in
    omega (
      arith,
      ap to_nat same,
      count-others_one p a items pos (omega arith) e
          (λ i k ne. h (suc i) (omega arith) (λ e. ne (omega arith))),
    )
  where
    and_true : (b : Bool) → (b && true) ≡ b
    and_true true = refl
    and_true false = refl

item-take : (n i : ℕ) (items : List HeapItem) → i < n → item (take n items) i ≡ item items i
item-take zero i items h = absurd (omega arith)
item-take (suc n) i [] h = refl
item-take (suc n) zero (x ∷ items) h = refl
item-take (suc n) (suc i) (x ∷ items) h = item-take n i items (omega arith)

count-take :
    (p : HeapItem → Bool) (n : ℕ) (items : List HeapItem)
    → length items ≡ suc n
    → count p (take n items) + to_nat (p (item items n)) ≡ count p items
count-take p zero (x ∷ []) h = omega arith
count-take p zero (x ∷ (y ∷ items)) h = absurd (omega arith)
count-take p (suc n) (x ∷ items) h = omega (arith, count-take p n items (omega arith))
count-take p n [] h = absurd (omega arith)

pub of_others_none : (a : ℕ) (items : List HeapItem) → count (of_others (has_ref a) a) items ≡ 0
of_others_none a [] = refl
of_others_none a (x ∷ items) = omega (arith, ap to_nat (never (x.ref == a)), of_others_none a items)
  where
    never : (b : Bool) → (b && not b) ≡ false
    never true = refl
    never false = refl

count-index :
    (p : HeapItem → Bool) (items : List HeapItem)
    → 0 < count p items
    → (i : ℕ) × (i < length items) × (p (item items i) ≡ true)
count-index p [] h = absurd (omega arith)
count-index p (x ∷ items) h = elim (Bool-cases (p x)) [
  | inl e ↦ (0, omega arith, e)
  | inr e ↦
      let (i, inside, passes) = count-index p items (omega (arith, ap to_nat e)) in
      (suc i, omega arith, passes)
]

-- Where an entry with a time has its item.
pub item_of :
    (h : Heap) (a : ℕ)
    → IsTimed h
    → h.cells a ≢ size_max
    → (h.cells a < length h.items)
      × ((item h.items (h.cells a)).ref ≡ a)
      × ((i : ℕ) → i < length h.items → i ≢ h.cells a → (item h.items i).ref ≢ a)
item_of h a v timed =
    let (i, inside, own) =
      count-index (has_ref a) h.items (elim (Bool-cases (ltb 0 (count (has_ref a) h.items))) [
        | inl e ↦ ltb→lt _ _ e
        | inr e ↦ absurd (timed (v.idle a (omega (arith, ltb-false _ _ e))))
      ]) in
    let here : (item h.items i).ref ≡ a = eqb→eq _ _ own in
    let at_i : h.cells a ≡ i = ap h.cells (sym here) ∙ v.refs i inside in
    (
      omega arith,
      ap (λ k. (item h.items k).ref) at_i ∙ here,
      λ k p ne e. ne (sym (v.refs k p) ∙ ap h.cells e),
    )

module _ (h : Heap) (a : ℕ) (v : IsTimed h) (timed : h.cells a ≢ size_max) where
  pos : ℕ
  pos = h.cells a

  last : ℕ
  last = length h.items - 1

  abbrev moved : List HeapItem
  moved = set h.items (h.cells a) (item h.items (length h.items - 1))

  abbrev popped : Heap
  popped = record h { items = take (length h.items - 1) moved }

  length-popped : length popped.items ≡ length h.items - 1
  length-popped =
      length-take (length h.items - 1) moved
        (omega (arith, length-set h.items (h.cells a) (item h.items (length h.items - 1))))

  item-popped :
      (i : ℕ)
      → i < length h.items - 1
      → item popped.items i
        ≡ (if h.cells a == i then item h.items (length h.items - 1) else item h.items i)
  item-popped i k =
      let (inside, own, apart) = item_of h a v timed in
      item-take (length h.items - 1) i moved k
      ∙ item-set h.items (h.cells a) i (item h.items (length h.items - 1)) inside

  count-popped :
      (p : HeapItem → Bool)
      → count p popped.items + to_nat (p (item h.items (h.cells a))) ≡ count p h.items
  count-popped p =
      let (inside, own, apart) = item_of h a v timed in
      let x = item h.items (length h.items - 1) in
      let still : item moved (length h.items - 1) ≡ x =
        ground (arith, item-set h.items (h.cells a) (length h.items - 1) x inside) in
      omega (
        arith,
        count-take p (length h.items - 1) moved (omega (arith, length-set h.items (h.cells a) x)),
        count-set p h.items (h.cells a) x inside,
        ap (λ y. to_nat (p y)) still,
      )

  popped-IsHeapBut : h.cells a < length popped.items → IsHeapBut popped.items (h.cells a)
  popped-IsHeapBut inside = record {
    edges = λ c p q r s.
        ground (arith, length-popped, item-popped c, item-popped (parent c), v.ordered c);
    past = λ c p q r s. ground (
      arith,
      length-popped,
      item-popped c,
      item-popped (parent (h.cells a)),
      v.ordered c,
      v.ordered (h.cells a),
    );
  }

  popped-Refs :
      h.cells a < length popped.items → Refs popped (h.cells a) (item popped.items (h.cells a))
  popped-Refs inside = record {
    own = λ i p q. ground (arith, length-popped, item-popped i, v.refs i);
    apart = λ i p q. ground (
      arith,
      length-popped,
      item-popped i,
      item-popped (h.cells a),
      v.refs i,
      v.refs (length h.items - 1),
    );
  }

  popped_refs : length popped.items ≤ h.cells a → AllRefs popped
  popped_refs out i p = ground (arith, length-popped, item-popped i, v.refs i)

  popped_ordered : length popped.items ≤ h.cells a → IsHeap popped.items
  popped_ordered out c p q =
      ground (arith, length-popped, item-popped c, item-popped (parent c), v.ordered c)

  -- The heap once the entry's cell is marked.
  cleared-IsTimed :
      (u : Heap)
      → IsHeap u.items
      → AllRefs u
      → ((p : HeapItem → Bool) → count p u.items ≡ count p popped.items)
      → ((r : ℕ) → count (has_ref r) popped.items ≡ 0 → u.cells r ≡ h.cells r)
      → length u.items < 2 ^ 62
      → IsTimed (set_idx u a size_max)
  cleared-IsTimed u ordered refs same others small =
      let (inside, own, apart) = item_of h a v timed in
      let gone : count (has_ref a) u.items ≡ 0 = omega (
        arith,
        same (has_ref a),
        count-popped (has_ref a),
        of_others_none a h.items,
        count-others_one (has_ref a) a h.items (h.cells a) inside own apart,
      ) in
      record {
        ordered = ordered;
        refs = λ i p. elim (Bool-cases ((item u.items i).ref == a)) [
          | inl e ↦ absurd (omega (arith, gone, count-item (has_ref a) u.items i p e))
          | inr e ↦ ground (arith, refs i)
        ];
        idle = λ b none_has. elim (Bool-cases (b == a)) [
          | inl e ↦ ground arith
          | inr e ↦
              let ne : has_ref b (item h.items (h.cells a)) ≡ false = ground arith in
              ground (
                arith,
                v.idle b (omega (arith, same (has_ref b), count-popped (has_ref b), ap to_nat ne)),
                others b (omega (arith, same (has_ref b))),
              )
        ];
        small = small;
      }

  set_last_lem : set_last h.items (h.cells a) ≡ ok moved
  unfolding set_last
  set_last_lem =
      let (inside, own, apart) = item_of h a v timed in
      let some_items : (length h.items == 0) ≡ false = ground arith in
      let read : at h.items (length h.items - 1) ≡ ok (item h.items (length h.items - 1)) =
        at-get_or h.items (length h.items - 1) (record { val = 0; ref = 0 }) (omega arith) in
      rw (
        some_items,
        read,
        lt→ltb _ _ inside,
        store-set h.items (h.cells a) (item h.items (length h.items - 1)) inside,
      )

  width : length moved - 1 ≡ length h.items - 1
  width = omega (arith, length-set h.items (h.cells a) (item h.items (length h.items - 1)))

  -- The last item was not the entry's.
  erase_inner :
      (u : Heap)
      → ltb (h.cells a) (length popped.items) ≡ true
      → heap_update popped (h.cells a) (length popped.items) ≡ ok u
      → erase_item h a ≡ ok (set_idx u a size_max)
  unfolding erase_item
  erase_inner u still run = rw (set_last_lem, width, still, run)

  erase_last :
      ltb (h.cells a) (length popped.items) ≡ false
      → erase_item h a ≡ ok (set_idx popped a size_max)
  unfolding erase_item
  erase_last out = rw (set_last_lem, width, out)

  -- An entry with a time leaves the heap: the items of the others stay, and its cell is marked.
  pub erase_item_lem :
      (h' : Heap) × (erase_item h a ≡ ok h')
      × IsTimed h'
      × ((p : HeapItem → Bool) → count p h'.items ≡ count (of_others p a) h.items)
  erase_item_lem =
      let (inside, own, apart) = item_of h a v timed in
      let fewer =
        λ (p : HeapItem → Bool). count-others_one p a h.items (h.cells a) inside own apart in
      elim (Bool-cases (ltb (h.cells a) (length popped.items))) [
        | inr out ↦ (
          set_idx popped a size_max,
          erase_last out,
          cleared-IsTimed popped (popped_ordered (ltb-false _ _ out))
              (popped_refs (ltb-false _ _ out)) (λ p. refl) (λ r none_has. refl)
              (omega (arith, length-popped, v.small)),
          λ p. omega (arith, count-popped p, fewer p),
        )
        | inl still ↦
            let pos_in = ltb→lt _ _ still in
            let (u, run, m) =
              heap_update-Mended popped (h.cells a) pos_in (omega (arith, length-popped, v.small))
                (popped-IsHeapBut pos_in) (popped-Refs pos_in) in
            (
              set_idx u a size_max,
              erase_inner u still run,
              cleared-IsTimed u m.ordered m.refs m.same m.others
                  (omega (arith, m.width, length-popped, v.small)),
              λ p. omega (arith, m.same p, count-popped p, fewer p),
            )
      ]
