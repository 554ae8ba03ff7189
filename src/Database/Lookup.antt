-- ===== src/Database/Lookup.antt =====
-- `lookup_entry` finds the entry of a key, at any stage of a resizing.
use cachetron.Prelude.{ℕ, ◌<◌, ◌≡◌, refl, sym, ap, ◌∙◌, inl, inr, Bool, true, false}
use cachetron.Prelude.{Option, none, some, List, arith, ◌==◌, ◌&&◌, Bool-cases, eqb→eq}
use cachetron.Prelude.Result.{ok}
use cachetron.HashMap.{HNode, HMap, hit}
use cachetron.HashMap.Resize.{Kept, tally_map}
use cachetron.HashMap.Lookup.{Answer, hm_lookup-Answer}
use cachetron.LiteString.Compare.{same_bytes}
use cachetron.LiteString.Compare.Equal.{same_bytes-eq, same_bytes_refl}
use cachetron.Database.{Db, Entry, entry_eq, key_hash, key_is, lookup_entry}
use cachetron.Database.Maps.{
  IsDb, Maps, Agrees, Represents, is_stray, at_address, tally_map-cover, tally_map-disjoint,
  sound_node, Option_inj,
}

-- What a lookup answers: a node with the entry of the key, or none where the key has no entry.
pub data Looked (d : Db) (k : List ℕ) : Option (HNode ℕ) → Type 0 where
  absent : ((e : Entry) → Maps d k e → ⊥) → Looked d k none
  there :
      (n : HNode ℕ) (e : Entry)
      → 0 < tally_map (at_address n.item) d.db
      → d.entries n.item ≡ some e
      → e.key ≡ k
      → Looked d k (some n)

-- A node that is no stray passes the test of the lookup, when its entry has the key.
passes :
    (d : Db) (k : List ℕ) (e : Entry) (n : HNode ℕ)
    → d.entries n.item ≡ some e
    → e.key ≡ k
    → is_stray d n ≡ false
    → hit (key_hash k) (entry_eq d k) n ≡ true
passes d k e n has same fine =
    let (e', has', code, below) = sound_node d n fine in
    let one : e' ≡ e = Option_inj (sym has' ∙ has) in
    let coded : n.hcode ≡ key_hash k = code ∙ ap (λ x. key_hash x.key) one ∙ ap key_hash same in
    let first : (n.hcode == key_hash k) ≡ true = ground (arith, coded) in
    let second : entry_eq d k n ≡ true =
      ap (key_is k) has ∙ ap (λ x. same_bytes x k) same ∙ same_bytes_refl k in
    rw (first, second)

-- The test of the lookup reads a key.
pub key_is-true :
    (d : Db) (k : List ℕ) (n : HNode ℕ)
    → entry_eq d k n ≡ true
    → (e : Entry) × (d.entries n.item ≡ some e) × (e.key ≡ k)
key_is-true d k n = go (d.entries n.item) refl
  where
    go :
        (o : Option Entry)
        → d.entries n.item ≡ o
        → key_is k o ≡ true
        → (e : Entry) × (d.entries n.item ≡ some e) × (e.key ≡ k)
    go none has e = absurd (cc)
    go (some e) has same = (e, has, same_bytes-eq e.key k same)

-- The node that a lookup finds has the key.
pub found_key :
    (d : Db) (k : List ℕ) (n : HNode ℕ)
    → hit (key_hash k) (entry_eq d k) n ≡ true
    → (e : Entry) × (d.entries n.item ≡ some e) × (e.key ≡ k)
found_key d k n h = key_is-true d k n (second (n.hcode == key_hash k) (entry_eq d k n) h)
  where
    second : (a b : Bool) → (a && b) ≡ true → b ≡ true
    second true b e = e
    second false b e = absurd (cc)

pub no_entry :
    (d : Db) (k : List ℕ)
    → IsDb d
    → tally_map (hit (key_hash k) (entry_eq d k)) d.db ≡ 0
    → (e : Entry) → Maps d k e
    → ⊥
no_entry d k v none_pass e (a, here_a, has, same) = absurd (
    omega (
      arith,
      none_pass,
      v.sound,
      tally_map-cover (at_address a) (hit (key_hash k) (entry_eq d k)) (is_stray d) d.db λ n at_a.
          elim (Bool-cases (is_stray d n)) [
            | inl stray ↦ inr stray
            | inr fine ↦ inl (passes d k e n (ap d.entries (eqb→eq n.item a at_a) ∙ has) same fine)
          ],
    ))

-- A lookup runs to its end, answers rightly, and leaves the same nodes in a well-formed map.
pub lookup_entry-Looked :
    (d : Db) (k : List ℕ)
    → IsDb d
    → (o : Option (HNode ℕ)) × (m : HMap ℕ) × (lookup_entry d k ≡ ok (o, record d { db = m }))
      × Kept d.db m
      × Looked d k o
unfolding lookup_entry
lookup_entry-Looked d k v =
    let (o, m, run, answer, kept) = hm_lookup-Answer d.db (key_hash k) (entry_eq d k) v.map in
    (o, m, rw run, kept, looked o answer)
  where
    looked : (o : Option (HNode ℕ)) → Answer d.db (hit (key_hash k) (entry_eq d k)) o → Looked d k o
    looked _ (Answer.absent none_pass) = absent (no_entry d k v none_pass)
    looked _ (Answer.found n hits here) =
        let (e, has, same) = found_key d k n hits in
        let self : (n.item == n.item) ≡ true = ground arith in
        there n e (here (at_address n.item) self) has same

module _ (d : Db) (m : HMap ℕ) (kept : Kept d.db m) where
  -- The database with the map that a lookup leaves.
  pub IsDb-kept : IsDb d → IsDb (record d { db = m })
  IsDb-kept v = record {
    map = kept.valid;
    sound = kept.same (is_stray d) ∙ v.sound;
    unique = λ k. omega (arith, kept.same (entry_eq d k), v.unique k);
    timed = v.timed;
    owned = λ a p. omega (arith, kept.same (at_address a), v.owned a p);
  }

  pub Maps-kept : (k : List ℕ) (e : Entry) → Maps d k e → Maps (record d { db = m }) k e
  Maps-kept k e (a, here, has, same) = (a, omega (arith, kept.same (at_address a)), has, same)

  pub Maps-unkept : (k : List ℕ) (e : Entry) → Maps (record d { db = m }) k e → Maps d k e
  Maps-unkept k e (a, here, has, same) = (a, omega (arith, kept.same (at_address a)), has, same)

  pub Looked-kept :
      (k : List ℕ) (o : Option (HNode ℕ)) → Looked d k o → Looked (record d { db = m }) k o
  Looked-kept k _ (absent no_value) = absent (λ e maps. no_value e (Maps-unkept k e maps))
  Looked-kept k _ (there n e here has same) =
      there n e (omega (arith, kept.same (at_address n.item))) has same

  pub Represents-kept :
      (σ : List ℕ → Option (List ℕ)) → Represents d σ → Represents (record d { db = m }) σ
  Represents-kept σ r k = go (σ k) (r k)
    where
      go : (o : Option (List ℕ)) → Agrees d k o → Agrees (record d { db = m }) k o
      go none no_value = λ e maps. no_value e (Maps-unkept k e maps)
      go (some v) (e, maps, value, type) = (e, Maps-kept k e maps, value, type)

-- A key maps to one entry at most.
pub Maps-unique : (d : Db) (k : List ℕ) (e e' : Entry) → IsDb d → Maps d k e → Maps d k e' → e ≡ e'
Maps-unique d k e e' v (a, here, has, same) (a', here', has', same') = elim (Bool-cases (a == a')) [
  | inl e₁ ↦ Option_inj (sym has ∙ ap d.entries (eqb→eq a a' e₁) ∙ has')
  | inr apart ↦ absurd (
      omega (
        arith,
        v.unique k,
        tally_map-disjoint (at_address a) (at_address a') (entry_eq d k) d.db
            (λ n at_a. (keyed n a e at_a has same, ground (arith, eqb→eq n.item a at_a)))
            (λ n at_a. keyed n a' e' at_a has' same'),
      ))
]
  where
    keyed :
        (n : HNode ℕ) (b : ℕ) (x : Entry)
        → at_address b n ≡ true
        → d.entries b ≡ some x
        → x.key ≡ k
        → entry_eq d k n ≡ true
    keyed n b x at_b has same =
        ap (λ i. key_is k (d.entries i)) (eqb→eq n.item b at_b)
        ∙ ap (key_is k) has
        ∙ ap (λ l. same_bytes l k) same
        ∙ same_bytes_refl k
