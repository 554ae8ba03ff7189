-- ===== src/Expiry/Arm.antt =====
-- An entry that gets a time, with an item in the heap or without.
use cachetron.Prelude.{ℕ, zero, suc, ◌+◌, ◌^◌, ◌<◌, ◌≡◌, ◌≢◌, refl, ap, ◌∙◌}
use cachetron.Prelude.{Bool, true, false, not, ◌&&◌, List, [], ◌∷◌, ◌++◌, arith, inl, inr}
use cachetron.Prelude.{length, set, length-set, count, to_nat, Bool-cases, size_max}
use cachetron.Prelude.{◌==◌, eqb→eq, if◌then◌else◌}
use cachetron.Prelude.Memory.{store-set}
use cachetron.Prelude.Result.{ok, at, at-get_or}
use cachetron.Heap.{Heap, HeapItem, heap_update}
use cachetron.Heap.Order.{item, parent, IsHeap, IsHeapBut, Refs, item-set, count-set, has_ref}
use cachetron.Heap.Update.{Mended, heap_update-Mended}
use cachetron.Expiry.{set_time, arm_item, entry_set_ttl, is_negative, expire_at}
use cachetron.Expiry.Clear.{
  IsTimed, of_others, count-others, count-others_one, item_of, erase_item_lem,
}

module _ (h : Heap) (pos time : ℕ) (inside : pos < length h.items) (small : length h.items < 2 ^ 62)
    (but : IsHeapBut h.items pos) (refs : Refs h pos (item h.items pos)) where
  abbrev pub timed : HeapItem
  timed = record (item h.items pos) { val = time }

  abbrev pub changed : Heap
  changed = record h { items = set h.items pos timed }

  length-changed : length changed.items ≡ length h.items
  length-changed = length-set h.items pos timed

  item-changed : (i : ℕ) → item changed.items i ≡ (if pos == i then timed else item h.items i)
  item-changed i = item-set h.items pos i timed inside

  set_time_run :
      (u : Heap)
      → heap_update changed pos (length changed.items) ≡ ok u
      → set_time h pos time ≡ ok u
  unfolding set_time
  set_time_run u run =
      let read : at h.items pos ≡ ok (item h.items pos) =
        at-get_or h.items pos (record { val = 0; ref = 0 }) inside in
      rw (read, store-set h.items pos timed inside) run

  changed-IsHeapBut : IsHeapBut changed.items pos
  changed-IsHeapBut = record {
    edges = λ c p q r s.
        ground (arith, length-changed, item-changed c, item-changed (parent c), but.edges c);
    past = λ c p q r s.
        ground (arith, length-changed, item-changed c, item-changed (parent pos), but.past c);
  }

  changed-Refs : Refs changed pos (item changed.items pos)
  changed-Refs = record {
    own = λ i p q. ground (arith, length-changed, item-changed i, refs.own i);
    apart = λ i p q. ground (arith, length-changed, item-changed i, item-changed pos, refs.apart i);
  }

  -- The item at one place gets a time.
  pub set_time_lem : (u : Heap) × (set_time h pos time ≡ ok u) × Mended changed u
  set_time_lem =
      let (u, run, m) =
        heap_update-Mended changed pos (omega (arith, length-changed))
          (omega (arith, length-changed)) changed-IsHeapBut changed-Refs in
      (u, set_time_run u run, m)

  pub count-changed :
      (p : HeapItem → Bool)
      → count p changed.items + to_nat (p (item h.items pos)) ≡ count p h.items + to_nat (p timed)
  count-changed p = count-set p h.items pos timed inside

  pub item-changed_self : item changed.items pos ≡ timed
  item-changed_self = ground (arith, item-changed pos)

IsHeapBut-of :
    (items : List HeapItem) (pos : ℕ) → pos < length items → IsHeap items → IsHeapBut items pos
IsHeapBut-of items pos inside ordered = record {
  edges = λ c p q r s. ordered c p q;
  past = λ c p q r s. ground (arith, ordered c, ordered pos);
}

item_append :
    (items : List HeapItem) (x : HeapItem) (i : ℕ)
    → item (items ++ x ∷ []) i ≡ (if length items == i then x else item items i)
item_append [] x zero = refl
item_append [] x (suc i) = ground arith
item_append (y ∷ items) x zero = ground arith
item_append (y ∷ items) x (suc i) = ground (arith, item_append items x i)

length_append : (items : List HeapItem) (x : HeapItem) → length (items ++ x ∷ []) ≡ length items + 1
length_append [] x = refl
length_append (y ∷ items) x = omega (arith, length_append items x)

count_append :
    (p : HeapItem → Bool) (items : List HeapItem) (x : HeapItem)
    → count p (items ++ x ∷ []) ≡ count p items + to_nat (p x)
count_append p [] x = omega arith
count_append p (y ∷ items) x = omega (arith, count_append p items x)

-- The heap's items are those of the other entries, and one of this entry's where it has a time.
abbrev pub Armed : Heap → ℕ → ℕ → Heap → Type 0
Armed h a time h' =
    (p : HeapItem → Bool)
    → count p h'.items ≡ count (of_others p a) h.items + to_nat (p (record { val = time; ref = a }))

module _ (h : Heap) (a time : ℕ) (v : IsTimed h) where
  -- The entry has its item.
  arm_old :
      h.cells a ≢ size_max
      → (h' : Heap) × (arm_item h a time ≡ ok h') × IsTimed h' × Armed h a time h'
  unfolding arm_item
  arm_old has_time =
      let pos = h.cells a in
      let (inside, own, apart) = item_of h a v has_time in
      let refs : Refs h pos (item h.items pos) = record {
        own = λ i p q. v.refs i p;
        apart = λ i p q e. apart i p q (e ∙ own);
      } in
      let (u, run, m) =
        set_time_lem h pos time inside v.small (IsHeapBut-of h.items pos inside v.ordered) refs in
      let no_max : (h.cells a == size_max) ≡ false = ground arith in
      let counts =
        count-changed h pos time inside v.small (IsHeapBut-of h.items pos inside v.ordered) refs in
      (
        u,
        rw no_max run,
        record {
          ordered = m.ordered;
          refs = m.refs;
          idle = λ b none_has.
              let none_had : count (has_ref b)
                    (set h.items pos (record (item h.items pos) { val = time }))
                  ≡ 0 =
                omega (arith, m.same (has_ref b), none_has) in
              m.others b none_had ∙ v.idle b (omega (arith, none_had, counts (has_ref b)));
          small = omega (
            arith,
            m.width,
            length-set h.items pos (record (item h.items pos) { val = time }),
            v.small,
          );
        },
        λ p.
            let new_item : record (item h.items pos) { val = time }
                ≡ record { val = time; ref = a } =
              ap (λ r. record { val = time; ref = r }) own in
            omega (
              arith,
              m.same p,
              counts p,
              count-others_one p a h.items pos inside own apart,
              ap (λ x. to_nat (p x)) new_item,
            ),
      )

  abbrev pushed : Heap
  pushed = record h { items = h.items ++ record { val = 0; ref = a } ∷ [] }

  -- The entry's item is pushed.
  arm_new :
      h.cells a ≡ size_max
      → length h.items + 1 < 2 ^ 62
      → (h' : Heap) × (arm_item h a time ≡ ok h') × IsTimed h' × Armed h a time h'
  unfolding arm_item
  arm_new no_time room =
      let pos = length h.items in
      let x : HeapItem = record { val = 0; ref = a } in
      let no_item : (i : ℕ) → i < length h.items → (item h.items i).ref ≢ a =
        λ i p e. absurd (omega (arith, v.refs i p, ap h.cells e, no_time, v.small)) in
      let width : length pushed.items ≡ length h.items + 1 = length_append h.items x in
      let here : item pushed.items pos ≡ x = ground (arith, item_append h.items x pos) in
      let inside : pos < length pushed.items = omega arith in
      let but : IsHeapBut pushed.items pos = record {
        edges = λ c p q r s.
            ground (arith, item_append h.items x c, item_append h.items x (parent c), v.ordered c);
        past = λ c p q r s. absurd (omega arith);
      } in
      let refs : Refs pushed pos (item pushed.items pos) = record {
        own = λ i p q. ground (arith, item_append h.items x i, v.refs i);
        apart = λ i p q. ground (arith, item_append h.items x i, no_item i);
      } in
      let (u, run, m) = set_time_lem pushed pos time inside (omega arith) but refs in
      let is_max : (h.cells a == size_max) ≡ true = ground arith in
      let counts = count-changed pushed pos time inside (omega arith) but refs in
      (
        u,
        rw is_max run,
        record {
          ordered = m.ordered;
          refs = m.refs;
          idle = λ b none_has.
              let none_had : count (has_ref b)
                    (set pushed.items pos (record (item pushed.items pos) { val = time }))
                  ≡ 0 =
                omega (arith, m.same (has_ref b), none_has) in
              m.others b none_had
              ∙ v.idle b
                  (omega (arith, none_had, counts (has_ref b), count_append (has_ref b) h.items x));
          small = omega (
            arith,
            m.width,
            length-set pushed.items pos (record (item pushed.items pos) { val = time }),
          );
        },
        λ p.
            let new_item : record (item pushed.items pos) { val = time }
                ≡ record { val = time; ref = a } =
              ap (λ y. record { val = time; ref = y.ref }) here in
            omega (
              arith,
              m.same p,
              counts p,
              count_append p h.items x,
              count-others p a h.items no_item,
              ap (λ y. to_nat (p y)) new_item,
              ap (λ y. to_nat (p y)) here,
            ),
      )

  pub arm_item_lem :
      length h.items + 1 < 2 ^ 62
      → (h' : Heap) × (arm_item h a time ≡ ok h') × IsTimed h' × Armed h a time h'
  arm_item_lem room = elim (Bool-cases (h.cells a == size_max)) [
    | inl e ↦ arm_new (eqb→eq _ _ e) room
    | inr e ↦ arm_old (ground arith)
  ]

-- What the heap holds after `entry_set_ttl`: the items of the other entries, and for a time that is
-- not negative one of this entry.
abbrev pub HasTtl : ℕ → Heap → ℕ → ℕ → Heap → Type 0
HasTtl now h a ttl_ms h' =
    (p : HeapItem → Bool)
    → count p h'.items
      ≡ count (of_others p a) h.items
        + to_nat (not (is_negative ttl_ms) && p (record { val = expire_at now ttl_ms; ref = a }))

-- A time that is negative takes the entry's item out of the heap.
pub entry_set_ttl-cleared :
    (now : ℕ) (h : Heap) (a ttl_ms : ℕ)
    → IsTimed h
    → is_negative ttl_ms ≡ true
    → (h' : Heap) × (entry_set_ttl now h a ttl_ms ≡ ok h') × IsTimed h' × HasTtl now h a ttl_ms h'
unfolding entry_set_ttl
entry_set_ttl-cleared now h a ttl_ms v e = elim (Bool-cases (h.cells a == size_max)) [
  | inr has_time ↦
      let (h', run, v', others) = erase_item_lem h a v (ground arith) in
      (h', rw (e, has_time) run, v', λ p. rw e (omega (arith, others p)))
  | inl no_time ↦ (
    h,
    rw (e, no_time),
    v,
    λ p. rw e (omega (arith, count-others p a h.items (no_item (eqb→eq _ _ no_time)))),
  )
]
  where
    no_item : h.cells a ≡ size_max → (i : ℕ) → i < length h.items → (item h.items i).ref ≢ a
    no_item no_time i p e = absurd (omega (arith, v.refs i p, ap h.cells e, no_time, v.small))

-- On a heap of fewer than 2^62 - 1 items, in order, in which each item points to the cell of its
-- index, `entry_set_ttl` ends within its array. It leaves such a heap: the items of the other
-- entries are kept, and the entry has one item, with the new time, or none when the time is
-- negative.
pub entry_set_ttl-IsTimed :
    (now : ℕ) (h : Heap) (a ttl_ms : ℕ)
    → IsTimed h
    → length h.items + 1 < 2 ^ 62
    → (h' : Heap) × (entry_set_ttl now h a ttl_ms ≡ ok h') × IsTimed h' × HasTtl now h a ttl_ms h'
unfolding entry_set_ttl
entry_set_ttl-IsTimed now h a ttl_ms v room = elim (Bool-cases (is_negative ttl_ms)) [
  | inl e ↦ entry_set_ttl-cleared now h a ttl_ms v e
  | inr e ↦
      let (h', run, v', armed) = arm_item_lem h a (expire_at now ttl_ms) v room in
      (h', rw e run, v', λ p. rw e (armed p))
]
