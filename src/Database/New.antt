-- ===== src/Database/New.antt =====
-- A new entry in the database, under a key that had none.
use cachetron.Prelude.{
  ℕ, ◌+◌, ◌<◌, ◌≤◌, ◌≡◌, ◌≢◌, refl, sym, ap, ◌∙◌, inl, inr, ◌⊎◌, Bool, true, false, not,
}
use cachetron.Prelude.{count, ltb→lt}
use cachetron.Heap.Order.{has_ref, item}
use cachetron.Expiry.Clear.{IsTimed}
use cachetron.Prelude.{Option, none, some, List, arith, ltb, ◌==◌, Bool-cases, eqb→eq, to_nat}
use cachetron.HashMap.{HNode, HMap}
use cachetron.HashMap.Resize.{IsValid, tally_map}
use cachetron.LiteString.Compare.{same_bytes}
use cachetron.LiteString.Compare.Equal.{same_bytes-eq, same_bytes_refl}
use cachetron.Database.{Db, Entry, entry_eq, key_hash, key_is, new_entry, t_str}
use cachetron.Database.Maps.{
  IsDb, Maps, Agrees, Represents, is_stray, sound_entry, at_address, tally_map_mono,
  tally_map-cover, tally_map-witness, sound_node, address_sound, Option_inj,
}
use cachetron.Database.Lookup.{key_is-true}
use cachetron.Database.Set.{override}

module _ (d : Db) (k v : List ℕ) (m : HMap ℕ) (valid : IsDb d) (map : IsValid m)
    (adds : (p : HNode ℕ → Bool)
      → tally_map p m
        ≡ tally_map p d.db + to_nat (p (record { hcode = key_hash k; item = d.next })))
    (fresh : (e : Entry) → Maps d k e → ⊥) where
  abbrev d' : Db
  d' = record (new_entry d k v) { db = m }

  abbrev made : Entry
  made = record { key = k; value = v; type = t_str }

  entries-next : d'.entries d.next ≡ some made
  entries-next = ground arith

  entries_ne : (a : ℕ) → a ≢ d.next → d'.entries a ≡ d.entries a
  entries_ne a h = ground arith

  -- No node of the map had the new address.
  old_address : (a : ℕ) → 0 < tally_map (at_address a) d.db → a < d.next
  old_address a at_a = let (n, e, item, has, code, below) = address_sound d a valid at_a in below

  sound_mono :
      (x : HNode ℕ) (o : Option Entry)
      → sound_entry d.next x o ≡ true
      → sound_entry (d.next + 1) x o ≡ true
  sound_mono x none s = s
  sound_mono x (some e) s = ground arith

  stray_before : (x : HNode ℕ) → is_stray d' x ≡ true → is_stray d x ≡ true
  stray_before x s = elim (Bool-cases (is_stray d x)) [
    | inl stray ↦ stray
    | inr fine ↦
        let (e, has, code, below) = sound_node d x fine in
        let same : d'.entries x.item ≡ some e = entries_ne x.item (λ e₁. omega arith) ∙ has in
        let coded : (x.hcode == key_hash e.key) ≡ true = ground arith in
        let inside : ltb x.item (d.next + 1) ≡ true = ground arith in
        let sound : sound_entry (d.next + 1) x (some e) ≡ true = rw (coded, inside) in
        absurd (cc (s, ap (λ o. not (sound_entry (d.next + 1) x o)) same, ap not sound))
  ]

  -- A node whose entry has a key had it before, or has the new address.
  key_before :
      (k' : List ℕ) (x : HNode ℕ)
      → entry_eq d' k' x ≡ true
      → (entry_eq d k' x ≡ true) ⊎ (is_stray d x ≡ true)
  key_before k' x s = elim (Bool-cases (is_stray d x)) [
    | inl stray ↦ inr stray
    | inr fine ↦
        let (e, has, code, below) = sound_node d x fine in
        inl (ap (key_is k') (sym (entries_ne x.item (λ e₁. omega arith))) ∙ s)
  ]

  no_key : tally_map (entry_eq d k) d.db ≡ 0
  no_key = elim (Bool-cases (ltb 0 (tally_map (entry_eq d k) d.db))) [
    | inr empty ↦ ground arith
    | inl one ↦
        let (n, has_key, fine, counts) =
          tally_map-witness (entry_eq d k) (is_stray d) d.db (ground arith) valid.sound in
        let (e, has, same) = key_is-true d k n has_key in
        let self : (n.item == n.item) ≡ true = ground arith in
        absurd (fresh e (n.item, counts (at_address n.item) self, has, same))
  ]

  keys_then : (k' : List ℕ) → tally_map (entry_eq d' k') d.db ≤ tally_map (entry_eq d k') d.db
  keys_then k' = omega (
    arith,
    valid.sound,
    tally_map-cover (entry_eq d' k') (entry_eq d k') (is_stray d) d.db (key_before k'),
  )

  -- The new address had no item in the heap.
  no_item : count (has_ref d.next) d.heap.items ≡ 0
  no_item = elim (Bool-cases (ltb 0 (count (has_ref d.next) d.heap.items))) [
    | inr empty ↦ ground arith
    | inl one ↦ absurd (omega (arith, old_address d.next (valid.owned d.next (ltb→lt _ _ one))))
  ]

  same_cells : (r : ℕ) → d'.heap.cells r ≡ d.heap.cells r
  same_cells r = elim (Bool-cases (r == d.next)) [
    | inr apart ↦ rw apart
    | inl e ↦ rw e (sym (ap d.heap.cells (eqb→eq r d.next e) ∙ valid.timed.idle d.next no_item))
  ]

  timed_then : IsTimed d'.heap
  timed_then = record {
    ordered = valid.timed.ordered;
    refs = λ i p. same_cells (item d.heap.items i).ref ∙ valid.timed.refs i p;
    idle = λ a none_has. same_cells a ∙ valid.timed.idle a none_has;
    small = valid.timed.small;
  }

  pub IsDb-made : IsDb d'
  IsDb-made = record {
    map = map;
    sound =
        let self : (key_hash k == key_hash k) ≡ true = ground arith in
        let below : ltb d.next (d.next + 1) ≡ true = ground arith in
        let settled : is_stray d' (record { hcode = key_hash k; item = d.next }) ≡ false =
          ap (λ o. not (sound_entry (d.next + 1) (record { hcode = key_hash k; item = d.next }) o))
            entries-next
          ∙ rw (self, below) in
        omega (
          arith,
          valid.sound,
          adds (is_stray d'),
          ap to_nat settled,
          tally_map_mono (is_stray d') (is_stray d) d.db stray_before,
        );
    unique = λ k'. elim (Bool-cases (same_bytes k k')) [
      | inl same ↦
          let one = same_bytes-eq k k' same in
          let none_before : tally_map (entry_eq d k') d.db ≡ 0 =
            ap (λ l. tally_map (entry_eq d l) d.db) (sym one) ∙ no_key in
          omega (
            arith,
            adds (entry_eq d' k'),
            ap to_nat (ap (key_is k') entries-next ∙ same),
            keys_then k',
          )
      | inr other ↦ omega (
        arith,
        adds (entry_eq d' k'),
        ap to_nat (ap (key_is k') entries-next ∙ other),
        valid.unique k',
        keys_then k',
      )
    ];
    timed = timed_then;
    owned = λ a p. omega (arith, adds (at_address a), valid.owned a p);
  }

  there_now : 0 < tally_map (at_address d.next) m
  there_now =
      let self : (d.next == d.next) ≡ true = ground arith in
      omega (arith, adds (at_address d.next), ap to_nat self)

  there_still : (a : ℕ) → a ≢ d.next → tally_map (at_address a) m ≡ tally_map (at_address a) d.db
  there_still a h =
      let apart : (d.next == a) ≡ false = ground arith in
      omega (arith, adds (at_address a), ap to_nat apart)

  pub Represents-made :
      (σ : List ℕ → Option (List ℕ)) → Represents d σ → Represents d' (override σ k (some v))
  Represents-made σ r k' = elim (Bool-cases (same_bytes k k')) [
    | inl same ↦
        rw same (made, (d.next, there_now, entries-next, same_bytes-eq k k' same), refl, refl)
    | inr other ↦ rw other (kept (σ k') (r k') other)
  ]
    where
      kept : (o : Option (List ℕ)) → Agrees d k' o → same_bytes k k' ≡ false → Agrees d' k' o
      kept none no_value other = λ x (a, at_a, has_x, same). elim (Bool-cases (a == d.next)) [
        | inl e₁ ↦
            let x_is : made ≡ x =
              Option_inj (sym (ap d'.entries (eqb→eq a d.next e₁) ∙ entries-next) ∙ has_x) in
            absurd (cc (other, ap (λ y. y.key) x_is, same, same_bytes_refl k))
        | inr apart ↦
            let ne : a ≢ d.next = ground arith in
            no_value x (a, omega (arith, there_still a ne), sym (entries_ne a ne) ∙ has_x, same)
      ]
      kept (some w) (x, (a, at_a, has_x, same), value, type) other =
          let below = old_address a at_a in
          let ne : a ≢ d.next = λ e₁. omega arith in
          (x, (a, omega (arith, there_still a ne), entries_ne a ne ∙ has_x, same), value, type)
