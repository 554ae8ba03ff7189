-- ===== src/Database/Set.antt =====
-- `do_set` maps its key to its value, and leaves all other keys as they are.
use cachetron.Prelude.{ℕ, ◌<◌, ◌≡◌, ◌≢◌, refl, sym, ap, ◌∙◌, inl, inr, Bool, false, not}
use cachetron.Prelude.{Option, none, some, List, arith, ◌==◌, if◌then◌else◌, Bool-cases, eqb→eq}
use cachetron.HashMap.{HNode}
use cachetron.HashMap.Resize.{tally_map}
use cachetron.LiteString.Compare.{same_bytes}
use cachetron.LiteString.Compare.Equal.{same_bytes-eq, same_bytes_refl}
use cachetron.Database.{Db, Entry, entry_eq, key_is, upd, t_str}
use cachetron.Database.Maps.{
  IsDb, Agrees, Represents, is_stray, sound_entry, at_address, tally_map_mono, Option_inj,
}

-- The map with a new value for one key.
abbrev pub override :
    (List ℕ → Option (List ℕ)) → List ℕ → Option (List ℕ) → List ℕ → Option (List ℕ)
override σ k x k' = if same_bytes k k' then x else σ k'

abbrev with_entry : Db → ℕ → Entry → Db
with_entry d a e = record d { entries = upd d.entries a (some e) }

entries_self : (d : Db) (a : ℕ) (e : Entry) → (with_entry d a e).entries a ≡ some e
entries_self d a e = ground arith

entries_ne : (d : Db) (a b : ℕ) (e : Entry) → b ≢ a → (with_entry d a e).entries b ≡ d.entries b
entries_ne d a b e h = ground arith

-- An entry gets another value.
module _ (d : Db) (n : HNode ℕ) (e : Entry) (v : List ℕ) (valid : IsDb d)
    (here : 0 < tally_map (at_address n.item) d.db) (has : d.entries n.item ≡ some e) where
  abbrev changed : Entry
  changed = record e { value = v }

  abbrev d' : Db
  d' = with_entry d n.item changed

  -- A test that looks at the keys alone has not changed.
  same_test :
      (test : HNode ℕ → Option Entry → Bool)
      → ((x : HNode ℕ) → test x (some changed) ≡ test x (some e))
      → (x : HNode ℕ) → test x (d'.entries x.item) ≡ test x (d.entries x.item)
  same_test test keys x = elim (Bool-cases (x.item == n.item)) [
    | inr apart ↦ ap (test x) (entries_ne d n.item x.item changed (ground arith))
    | inl e₁ ↦
        let at_n = eqb→eq x.item n.item e₁ in
        ap (λ a. test x (d'.entries a)) at_n
        ∙ ap (test x) (entries_self d n.item changed)
        ∙ keys x
        ∙ sym (ap (λ a. test x (d.entries a)) at_n ∙ ap (test x) has)
  ]

  pub IsDb-changed : IsDb d'
  IsDb-changed = record {
    map = valid.map;
    sound = omega (
      arith,
      valid.sound,
      tally_map_mono (is_stray d') (is_stray d) d.db
          λ x s. sym (same_test (λ x o. not (sound_entry d.next x o)) (λ x. refl) x) ∙ s,
    );
    unique = λ k. omega (
      arith,
      valid.unique k,
      tally_map_mono (entry_eq d' k) (entry_eq d k) d.db
          λ x s. sym (same_test (λ x o. key_is k o) (λ x. refl) x) ∙ s,
    );
    timed = valid.timed;
    owned = valid.owned;
  }

  pub Represents-changed :
      (σ : List ℕ → Option (List ℕ))
      → e.type ≡ t_str
      → Represents d σ
      → Represents d' (override σ e.key (some v))
  Represents-changed σ type r k' = elim (Bool-cases (same_bytes e.key k')) [
    | inl same ↦ rw same (
      changed,
      (n.item, here, entries_self d n.item changed, same_bytes-eq e.key k' same),
      refl,
      type,
    )
    | inr other ↦ rw other (kept (σ k') (r k') other)
  ]
    where
      kept : (o : Option (List ℕ)) → Agrees d k' o → same_bytes e.key k' ≡ false → Agrees d' k' o
      kept none no_value other = λ x (a, at_a, has_x, same). elim (Bool-cases (a == n.item)) [
        | inl e₁ ↦
            let x_is : changed ≡ x =
              Option_inj (
                sym (ap d'.entries (eqb→eq a n.item e₁) ∙ entries_self d n.item changed) ∙ has_x) in
            absurd (cc (other, ap (λ y. y.key) x_is, same, same_bytes_refl e.key))
        | inr apart ↦
            no_value x (a, at_a, sym (entries_ne d n.item a changed (ground arith)) ∙ has_x, same)
      ]
      kept (some w) (x, (a, at_a, has_x, same), value, type) other = (
        x,
        (
          a,
          at_a,
          entries_ne d n.item a changed (λ e₁. cc (
            other,
            same_bytes_refl e.key,
            ap (same_bytes e.key)
                (ap (λ y. y.key) (Option_inj (sym has ∙ ap d.entries (sym e₁) ∙ has_x)) ∙ same),
          ))
              ∙ has_x,
          same,
        ),
        value,
        type,
      )
