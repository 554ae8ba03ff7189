-- ===== src/Database/Maps.antt =====
-- The keys of a database and what they map to, in any stage of a resizing of its hash map.
use cachetron.Prelude.{
  ℕ, ◌+◌, ◌<◌, ◌≤◌, ◌≡◌, refl, sym, ap, ◌∙◌, inl, inr, ◌⊎◌, Bool, true, false, not,
}
use cachetron.Prelude.{
  Option, none, some, List, [], ◌∷◌, arith, count, to_nat, ltb, ◌==◌, ◌&&◌, Bool-cases,
}
use cachetron.Prelude.{eqb→eq, flatten, ltb→lt, ltb-false}
use cachetron.HashMap.{HNode, HMap}
use cachetron.HashMap.Table.{tally}
use cachetron.HashMap.Resize.{IsValid, tally_map}
use cachetron.Heap.Order.{has_ref}
use cachetron.Expiry.Clear.{IsTimed}
use cachetron.Database.{Db, Entry, entry_eq, key_hash, t_str}

count-cover :
    {A : Type 0} (p q r : A → Bool)
    → ((a : A) → p a ≡ true → (q a ≡ true) ⊎ (r a ≡ true))
    → (xs : List A) → count p xs ≤ count q xs + count r xs
count-cover p q r h [] = omega arith
count-cover p q r h (x ∷ xs) = elim (Bool-cases (p x)) [
  | inr e ↦ omega (arith, ap to_nat e, count-cover p q r h xs)
  | inl e ↦ elim (h x e) [
    | inl e' ↦ omega (arith, ap to_nat e, ap to_nat e', count-cover p q r h xs)
    | inr e' ↦ omega (arith, ap to_nat e, ap to_nat e', count-cover p q r h xs)
  ]
]

-- Nodes that pass one test are counted by two others that cover it.
pub tally_map-cover :
    (p q r : HNode ℕ → Bool) (m : HMap ℕ)
    → ((n : HNode ℕ) → p n ≡ true → (q n ≡ true) ⊎ (r n ≡ true))
    → tally_map p m ≤ tally_map q m + tally_map r m
tally_map-cover p q r m h =
    omega (arith, count-cover p q r h (flatten m.ht1.tab), count-cover p q r h (flatten m.ht2.tab))

count-disjoint :
    {A : Type 0} (p q r : A → Bool)
    → ((a : A) → p a ≡ true → (r a ≡ true) × (q a ≡ false))
    → ((a : A) → q a ≡ true → r a ≡ true)
    → (xs : List A) → count p xs + count q xs ≤ count r xs
count-disjoint p q r h k [] = omega arith
count-disjoint p q r h k (x ∷ xs) = elim (Bool-cases (p x)) [
  | inl e ↦
      let (inside, out) = h x e in
      omega (arith, ap to_nat e, ap to_nat inside, ap to_nat out, count-disjoint p q r h k xs)
  | inr e ↦ elim (Bool-cases (q x)) [
    | inl e' ↦
        omega (arith, ap to_nat e, ap to_nat e', ap to_nat (k x e'), count-disjoint p q r h k xs)
    | inr e' ↦ omega (arith, ap to_nat e, ap to_nat e', count-disjoint p q r h k xs)
  ]
]

-- Two tests that no node passes both, inside of a third.
pub tally_map-disjoint :
    (p q r : HNode ℕ → Bool) (m : HMap ℕ)
    → ((n : HNode ℕ) → p n ≡ true → (r n ≡ true) × (q n ≡ false))
    → ((n : HNode ℕ) → q n ≡ true → r n ≡ true)
    → tally_map p m + tally_map q m ≤ tally_map r m
tally_map-disjoint p q r m h k = omega (
  arith,
  count-disjoint p q r h k (flatten m.ht1.tab),
  count-disjoint p q r h k (flatten m.ht2.tab),
)

-- A node's entry is allocated, and the node has the hash code of its key.
abbrev pub sound_entry : ℕ → HNode ℕ → Option Entry → Bool
sound_entry next n none = false
sound_entry next n (some e) = (n.hcode == key_hash e.key) && ltb n.item next

abbrev pub is_stray : Db → HNode ℕ → Bool
is_stray d n = not (sound_entry d.next n (d.entries n.item))

abbrev pub at_address : ℕ → HNode ℕ → Bool
at_address a n = n.item == a

-- The hash map is well formed, each node has its entry, and no key has two. The heap is in order,
-- and each of its items is of an entry that is in the map.
pub record IsDb (d : Db) : Type 0 where
  pub map : IsValid d.db
  pub sound : tally_map (is_stray d) d.db ≡ 0
  pub unique : (k : List ℕ) → tally_map (entry_eq d k) d.db ≤ 1
  pub timed : IsTimed d.heap
  pub owned : (a : ℕ) → 0 < count (has_ref a) d.heap.items → 0 < tally_map (at_address a) d.db

-- The entry `e` is in the database under the key `k`.
abbrev pub Maps : Db → List ℕ → Entry → Type 0
Maps d k e = (a : ℕ) × (0 < tally_map (at_address a) d.db) × (d.entries a ≡ some e) × (e.key ≡ k)

-- What the database has under a key, if it has a string.
abbrev pub Agrees : Db → List ℕ → Option (List ℕ) → Type 0
Agrees d k none = (e : Entry) → Maps d k e → ⊥
Agrees d k (some v) = (e : Entry) × Maps d k e × (e.value ≡ v) × (e.type ≡ t_str)

-- The database holds strings, those of the map `σ` from keys to values.
abbrev pub Represents : Db → (List ℕ → Option (List ℕ)) → Type 0
Represents d σ = (k : List ℕ) → Agrees d k (σ k)

pub Option_inj {ℓ} : {A : Type ℓ} {a b : A} → some a ≡ some b → a ≡ b
Option_inj e = cc

-- A node that one test counts and another does not.
count-witness :
    {A : Type 0} (p q : A → Bool) (xs : List A)
    → 0 < count p xs
    → count q xs ≡ 0
    → (a : A) × (p a ≡ true) × (q a ≡ false) × ((r : A → Bool) → r a ≡ true → 0 < count r xs)
count-witness p q [] h k = absurd (omega arith)
count-witness p q (x ∷ xs) h k = elim (Bool-cases (p x)) [
  | inr e ↦
      let (a, hit, miss, counts) =
        count-witness p q xs (omega (arith, ap to_nat e)) (omega arith) in
      (a, hit, miss, λ r e'. omega (arith, counts r e'))
  | inl e ↦ elim (Bool-cases (q x)) [
    | inr e' ↦ (x, e, e', λ r e''. omega (arith, ap to_nat e''))
    | inl e' ↦ absurd (omega (arith, ap to_nat e'))
  ]
]

pub tally_map-witness :
    (p q : HNode ℕ → Bool) (m : HMap ℕ)
    → 0 < tally_map p m
    → tally_map q m ≡ 0
    → (n : HNode ℕ) × (p n ≡ true)
      × (q n ≡ false)
      × ((r : HNode ℕ → Bool) → r n ≡ true → 0 < tally_map r m)
tally_map-witness p q m h k = elim (Bool-cases (ltb 0 (tally p m.ht1))) [
  | inl e ↦
      let (n, hit, miss, counts) =
        count-witness p q (flatten m.ht1.tab) (ltb→lt _ _ e) (omega arith) in
      (n, hit, miss, λ r e'. omega (arith, counts r e'))
  | inr e ↦
      let (n, hit, miss, counts) =
        count-witness p q (flatten m.ht2.tab) (omega (arith, ltb-false _ _ e)) (omega arith) in
      (n, hit, miss, λ r e'. omega (arith, counts r e'))
]

-- A test inside of another.
pub tally_map_mono :
    (p r : HNode ℕ → Bool) (m : HMap ℕ)
    → ((n : HNode ℕ) → p n ≡ true → r n ≡ true)
    → tally_map p m ≤ tally_map r m
tally_map_mono p r m h =
    omega (arith, tally_map-disjoint p (λ _. false) r m (λ n e. (h n e, refl)) (λ n e. cc))

-- What a node that is no stray says of its entry.
pub sound_node :
    (d : Db) (n : HNode ℕ)
    → is_stray d n ≡ false
    → (e : Entry) × (d.entries n.item ≡ some e) × (n.hcode ≡ key_hash e.key) × (n.item < d.next)
sound_node d n h = go (d.entries n.item) refl h
  where
    go :
        (o : Option Entry)
        → d.entries n.item ≡ o
        → not (sound_entry d.next n o) ≡ false
        → (e : Entry) × (d.entries n.item ≡ some e) × (n.hcode ≡ key_hash e.key) × (n.item < d.next)
    go none has k = absurd (cc)
    go (some e) has k = (e, has, ground arith, ground arith)

-- An address that a node has is that of an allocated entry.
pub address_sound :
    (d : Db) (a : ℕ)
    → IsDb d
    → 0 < tally_map (at_address a) d.db
    → (n : HNode ℕ) × (e : Entry) × (n.item ≡ a)
      × (d.entries a ≡ some e)
      × (n.hcode ≡ key_hash e.key)
      × (a < d.next)
address_sound d a v there =
    let (n, here, fine, _) = tally_map-witness (at_address a) (is_stray d) d.db there v.sound in
    let same = eqb→eq n.item a here in
    let (e, has, code, below) = sound_node d n fine in
    (n, e, same, ap d.entries (sym same) ∙ has, code, omega arith)
