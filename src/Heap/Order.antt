-- ===== src/Heap/Order.antt =====
-- The order of a heap, and an array in which one place waits for its item.
use cachetron.Prelude.{ℕ, zero, suc, ◌+◌, ◌-◌, ◌/◌, ◌^◌, ◌<◌, ◌≤◌, ◌≡◌, ◌≢◌, refl, ap, ◌∙◌}
use cachetron.Prelude.{Bool, true, List, [], ◌∷◌, arith, length, get_or, set}
use cachetron.Prelude.{◌==◌, if◌then◌else◌, length-set, count, to_nat, Bool-cases, inl, inr}
use cachetron.Prelude.Memory.{store-set}
use cachetron.Prelude.Result.{ok}
use cachetron.Heap.{HeapItem, Heap, heap_parent, place}

abbrev pub item : List HeapItem → ℕ → HeapItem
item a i = get_or a i (record { val = 0; ref = 0 })

abbrev pub key : List HeapItem → ℕ → ℕ
key a i = (item a i).val

abbrev pub parent : ℕ → ℕ
parent c = (c - 1) / 2

pub heap_parent_lem : (c : ℕ) → 0 < c → c < 2 ^ 62 → heap_parent c ≡ parent c
heap_parent_lem c pos small = omega arith

-- No item is before its parent.
abbrev pub IsHeap : List HeapItem → Type 0
IsHeap a = (c : ℕ) → 0 < c → c < length a → key a (parent c) ≤ key a c

-- All edges are in order but those at `i`, and so is the way past `i`.
pub record IsHeapBut (a : List HeapItem) (i : ℕ) : Type 0 where
  pub edges : (c : ℕ) → 0 < c → c < length a → c ≢ i → parent c ≢ i → key a (parent c) ≤ key a c
  pub past : (c : ℕ) → 0 < c → c < length a → parent c ≡ i → 0 < i → key a (parent i) ≤ key a c

-- Every item points to the cell of its index, the waiting item's apart.
pub record Refs (h : Heap) (pos : ℕ) (t : HeapItem) : Type 0 where
  pub own : (i : ℕ) → i < length h.items → i ≢ pos → h.cells (item h.items i).ref ≡ i
  pub apart : (i : ℕ) → i < length h.items → i ≢ pos → (item h.items i).ref ≢ t.ref

abbrev pub AllRefs : Heap → Type 0
AllRefs h = (i : ℕ) → i < length h.items → h.cells (item h.items i).ref ≡ i

pub item-set :
    (a : List HeapItem) (i j : ℕ) (v : HeapItem)
    → i < length a
    → item (set a i v) j ≡ (if i == j then v else item a j)
item-set [] i j v h = absurd (omega arith)
item-set (x ∷ a) zero zero v h = refl
item-set (x ∷ a) (suc i) (suc j) v h = ground (arith, item-set a i j v)
item-set (x ∷ a) zero (suc j) v h = ground arith
item-set (x ∷ a) (suc i) zero v h = ground arith

-- A write trades the old item for the new one.
pub count-set :
    (p : HeapItem → Bool) (a : List HeapItem) (i : ℕ) (v : HeapItem)
    → i < length a
    → count p (set a i v) + to_nat (p (item a i)) ≡ count p a + to_nat (p v)
count-set p [] i v h = absurd (omega arith)
count-set p (x ∷ a) zero v h = omega arith
count-set p (x ∷ a) (suc i) v h = omega (arith, count-set p a i v)

pub place_lem :
    (h : Heap) (pos : ℕ) (t : HeapItem)
    → pos < length h.items
    → place h pos t
      ≡ ok
          (record { items = set h.items pos t; cells = λ r. if r == t.ref then pos else h.cells r })
unfolding place
place_lem h pos t inside = rw (store-set h.items pos t inside)

-- What the array holds once the waiting item is put into its place.
abbrev pub filled : Heap → ℕ → HeapItem → List HeapItem
filled h pos t = set h.items pos t

abbrev pub has_ref : ℕ → HeapItem → Bool
has_ref r x = x.ref == r

-- What a loop with a waiting item leaves.
pub record Sifted (h : Heap) (pos : ℕ) (t : HeapItem) (h' : Heap) (pos' : ℕ) : Type 0 where
  pub width : length h'.items ≡ length h.items
  pub inside : pos' < length h.items
  pub ordered : IsHeap (filled h' pos' t)
  pub refs : Refs h' pos' t
  pub same : (p : HeapItem → Bool) → count p (filled h' pos' t) ≡ count p (filled h pos t)
  pub others : (r : ℕ) → count (has_ref r) (filled h pos t) ≡ 0 → h'.cells r ≡ h.cells r

-- An item that passes a test counts.
pub count-item :
    (p : HeapItem → Bool) (a : List HeapItem) (i : ℕ)
    → i < length a
    → p (item a i) ≡ true
    → 0 < count p a
count-item p [] i h e = absurd (omega arith)
count-item p (x ∷ a) zero h e = omega (arith, ap to_nat e)
count-item p (x ∷ a) (suc i) h e = omega (arith, count-item p a i (omega arith) e)

-- The item at `j` moves to the place `i` of the waiting one, which waits at `j` then.
module _ (h : Heap) (i j : ℕ) (t : HeapItem) (hi : i < length h.items) (hj : j < length h.items)
    (ne : i ≢ j) where
  abbrev pub moved : Heap
  moved = record {
    items = set h.items i (item h.items j);
    cells = λ r. if r == (item h.items j).ref then i else h.cells r;
  }

  pub length-moved : length moved.items ≡ length h.items
  length-moved = length-set h.items i (item h.items j)

  pub item-moved :
      (c : ℕ)
      → item (filled moved j t) c
        ≡ (if j == c then t else if i == c then item h.items j else item h.items c)
  item-moved c = rw (
    item-set (set h.items i (item h.items j)) j c t (omega (arith, length-moved)),
    item-set h.items i c (item h.items j) hi,
  )

  pub Refs-moved : Refs h i t → Refs moved j t
  Refs-moved r = record {
    own = λ c p q.
        ground (arith, length-moved, item-set h.items i c (item h.items j) hi, r.own c, r.own j);
    apart = λ c p q.
        ground
          (arith, length-moved, item-set h.items i c (item h.items j) hi, r.apart c, r.apart j);
  }

  pub count-moved : (p : HeapItem → Bool) → count p (filled moved j t) ≡ count p (filled h i t)
  count-moved p =
      let a' = set h.items i (item h.items j) in
      let here : item a' j ≡ item h.items j =
        ground (arith, item-set h.items i j (item h.items j) hi) in
      omega (
        arith,
        count-set p a' j t (omega (arith, length-moved)),
        count-set p h.items i (item h.items j) hi,
        count-set p h.items i t hi,
        ap (λ x. to_nat (p x)) here,
      )

  pub others-moved : (r : ℕ) → count (has_ref r) (filled h i t) ≡ 0 → moved.cells r ≡ h.cells r
  others-moved r none_has =
      let width : length (filled h i t) ≡ length h.items = length-set h.items i t in
      let kept : item (filled h i t) j ≡ item h.items j =
        ground (arith, item-set h.items i j t hi) in
      elim (Bool-cases ((item h.items j).ref == r)) [
        | inl e ↦ absurd (
            omega (
              arith,
              none_has,
              count-item (has_ref r) (filled h i t) j (omega arith) (ap (has_ref r) kept ∙ e),
            ))
        | inr apart ↦ ground arith
      ]
