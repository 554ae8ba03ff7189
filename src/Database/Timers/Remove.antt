-- ===== src/Database/Timers/Remove.antt =====
-- A database from which one entry is removed.
use cachetron.Prelude.{
  ℕ, ◌+◌, ◌<◌, ◌≤◌, ◌≡◌, ◌≢◌, refl, sym, ap, ◌∙◌, inl, inr, ◌⊎◌, Bool, true, false, not,
}
use cachetron.Prelude.{Option, none, some, List, [], ◌∷◌, arith, ◌==◌, ◌&&◌, Bool-cases}
use cachetron.Prelude.{eqb→eq, to_nat, count}
use cachetron.HashMap.{HNode, HMap}
use cachetron.HashMap.Resize.{IsValid, tally_map}
use cachetron.Heap.{Heap, HeapItem}
use cachetron.Heap.Order.{has_ref}
use cachetron.Expiry.Clear.{IsTimed, of_others, of_others_none}
use cachetron.LiteString.Compare.{same_bytes}
use cachetron.LiteString.Compare.Equal.{same_bytes-eq, same_bytes_refl}
use cachetron.Database.{Db, Entry, entry_eq, key_is, upd}
use cachetron.Database.Maps.{
  IsDb, Maps, Agrees, Represents, is_stray, sound_entry, at_address, tally_map_mono,
  tally_map-cover, sound_node, Option_inj,
}
use cachetron.Database.Set.{override}

pub count-of_others :
    (p : HeapItem → Bool) (a : ℕ) (items : List HeapItem)
    → count (of_others p a) items ≤ count p items
count-of_others p a [] = omega arith
count-of_others p a (x ∷ items) =
    omega (arith, fewer (p x) (not (x.ref == a)), count-of_others p a items)
  where
    fewer : (b c : Bool) → to_nat (b && c) ≤ to_nat b
    fewer true true = omega arith
    fewer true false = omega arith
    fewer false c = omega arith

module _ (d : Db) (n : HNode ℕ) (m : HMap ℕ) (h : Heap) (valid : IsDb d) (map : IsValid m)
    (removes : (p : HNode ℕ → Bool) → tally_map p m + to_nat (p n) ≡ tally_map p d.db)
    (timed : IsTimed h)
    (others : (p : HeapItem → Bool)
      → count p h.items ≡ count (of_others p n.item) d.heap.items) where
  abbrev d' : Db
  d' = record d { db = m; heap = h; entries = upd d.entries n.item none }

  entries_gone : (a : ℕ) → a ≡ n.item → d'.entries a ≡ none
  entries_gone a e = ground arith

  entries_ne : (a : ℕ) → a ≢ n.item → d'.entries a ≡ d.entries a
  entries_ne a ne = ground arith

  settled : is_stray d n ≡ false
  settled = elim (Bool-cases (is_stray d n)) [
    | inl stray ↦ absurd (omega (arith, removes (is_stray d), ap to_nat stray, valid.sound))
    | inr fine ↦ fine
  ]

  -- What the removed node says of its entry.
  removed_entry : (e : Entry) × (d.entries n.item ≡ some e)
  removed_entry = let (e, has, code, below) = sound_node d n settled in (e, has)

  key_here :
      (k : List ℕ) (e : Entry) (x : HNode ℕ)
      → d.entries x.item ≡ some e
      → e.key ≡ k
      → entry_eq d k x ≡ true
  key_here k e x has same = ap (key_is k) has ∙ ap (λ l. same_bytes l k) same ∙ same_bytes_refl k

  -- No other node has the key of the removed one.
  key_gone :
      (k : List ℕ) (e : Entry)
      → d.entries n.item ≡ some e
      → e.key ≡ k
      → tally_map (entry_eq d k) m ≡ 0
  key_gone k e has same =
      omega (arith, removes (entry_eq d k), valid.unique k, ap to_nat (key_here k e n has same))

  address_gone : tally_map (at_address n.item) m ≡ 0
  address_gone =
      let (e, has) = removed_entry in
      omega (
        arith,
        key_gone e.key e has refl,
        tally_map_mono (at_address n.item) (entry_eq d e.key) m
            λ x at_n. key_here e.key e x (ap d.entries (eqb→eq x.item n.item at_n) ∙ has) refl,
      )

  address_kept : (a : ℕ) → a ≢ n.item → tally_map (at_address a) m ≡ tally_map (at_address a) d.db
  address_kept a ne =
      let apart : (n.item == a) ≡ false = ground arith in
      omega (arith, removes (at_address a), ap to_nat apart)

  stray_before :
      (x : HNode ℕ) → is_stray d' x ≡ true → (at_address n.item x ≡ true) ⊎ (is_stray d x ≡ true)
  stray_before x s = elim (Bool-cases (x.item == n.item)) [
    | inl here ↦ inl here
    | inr apart ↦
        inr (ap (λ o. not (sound_entry d.next x o)) (sym (entries_ne x.item (ground arith))) ∙ s)
  ]

  key_before : (k : List ℕ) (x : HNode ℕ) → entry_eq d' k x ≡ true → entry_eq d k x ≡ true
  key_before k x s = elim (Bool-cases (x.item == n.item)) [
    | inl here ↦ absurd (cc (s, ap (key_is k) (entries_gone x.item (eqb→eq x.item n.item here))))
    | inr apart ↦ ap (key_is k) (sym (entries_ne x.item (ground arith))) ∙ s
  ]

  owned_still : (a : ℕ) → 0 < count (has_ref a) h.items → 0 < tally_map (at_address a) m
  owned_still a some_item = elim (Bool-cases (a == n.item)) [
    | inl here ↦
        let none_of : count (of_others (has_ref a) n.item) d.heap.items ≡ 0 =
          ap (λ b. count (of_others (has_ref a) b) d.heap.items) (sym (eqb→eq a n.item here))
          ∙ of_others_none a d.heap.items in
        absurd (omega (arith, others (has_ref a)))
    | inr apart ↦ omega (
      arith,
      address_kept a (ground arith),
      valid.owned a
          (omega (arith, others (has_ref a), count-of_others (has_ref a) n.item d.heap.items)),
    )
  ]

  pub IsDb-removed : IsDb d'
  IsDb-removed = record {
    map = map;
    sound = omega (
      arith,
      removes (is_stray d),
      valid.sound,
      address_gone,
      tally_map-cover (is_stray d') (at_address n.item) (is_stray d) m stray_before,
    );
    unique = λ k. omega (
      arith,
      removes (entry_eq d k),
      valid.unique k,
      tally_map_mono (entry_eq d' k) (entry_eq d k) m (key_before k),
    );
    timed = timed;
    owned = owned_still;
  }

  -- An entry that is left was there before.
  Maps-before : (k : List ℕ) (x : Entry) → Maps d' k x → Maps d k x
  Maps-before k x (a, at_a, has, same) = elim (Bool-cases (a == n.item)) [
    | inl here ↦ absurd (cc (has, entries_gone a (eqb→eq a n.item here)))
    | inr apart ↦ (
      a,
      omega (arith, address_kept a (ground arith)),
      sym (entries_ne a (ground arith)) ∙ has,
      same,
    )
  ]

  pub Represents-removed :
      (σ : List ℕ → Option (List ℕ)) (e : Entry)
      → d.entries n.item ≡ some e
      → Represents d σ
      → Represents d' (override σ e.key none)
  Represents-removed σ e has_e r k' = elim (Bool-cases (same_bytes e.key k')) [
    | inl same ↦ rw same λ x (a, at_a, has, same_x). elim (Bool-cases (a == n.item)) [
      | inl here ↦ absurd (cc (has, entries_gone a (eqb→eq a n.item here)))
      | inr apart ↦ absurd (
          omega (
            arith,
            key_gone k' e has_e (same_bytes-eq e.key k' same),
            tally_map_mono (at_address a) (entry_eq d k') m λ y at_y.
                key_here k' x y
                  (ap d.entries (eqb→eq y.item a at_y) ∙ sym (entries_ne a (ground arith)) ∙ has)
                  same_x,
          ))
    ]
    | inr other ↦ rw other (kept (σ k') (r k') other)
  ]
    where
      kept : (o : Option (List ℕ)) → Agrees d k' o → same_bytes e.key k' ≡ false → Agrees d' k' o
      kept none no_value other = λ x maps. no_value x (Maps-before k' x maps)
      kept (some w) (x, (a, at_a, has, same), value, type) other =
          let ne : a ≢ n.item = λ e₁. cc (
            other,
            same_bytes_refl e.key,
            ap (same_bytes e.key)
                (ap (λ y. y.key) (Option_inj (sym has_e ∙ ap d.entries (sym e₁) ∙ has)) ∙ same),
          ) in
          (x, (a, omega (arith, address_kept a ne), entries_ne a ne ∙ has, same), value, type)
