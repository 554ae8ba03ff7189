-- ===== src/Database/Timers/Expire.antt =====
-- `do_expire` leaves what the database stands for, and gives the entry its time.
use cachetron.Prelude.{
  ℕ, ◌+◌, ◌^◌, ◌<◌, ◌≤◌, ◌≡◌, refl, ap, ◌∙◌, inl, inr, Bool, true, false, not, Option, none, some,
}
use cachetron.Prelude.{List, arith, length, ◌==◌, ◌&&◌, to_nat, Bool-cases, eqb→eq}
use cachetron.HashMap.{HNode}
use cachetron.HashMap.Resize.{tally_map}
use cachetron.Heap.{Heap}
use cachetron.Heap.Order.{has_ref}
use cachetron.Expiry.{is_negative, expire_at}
use cachetron.Expiry.Clear.{IsTimed}
use cachetron.Expiry.Arm.{HasTtl, entry_set_ttl-IsTimed}
use cachetron.LiteString.{LiteString, Handle, contents}
use cachetron.Prelude.{◌++◌}
use cachetron.Prelude.Result.{Result, ok}
use cachetron.LiteString.Append
use cachetron.Wire.Response.Encode.{encode}
use cachetron.Wire.Response.Writes.{out_int-Writes}
use cachetron.Database.{Db, Entry}
use cachetron.Database.Maps.{IsDb, Agrees, Represents, at_address}
use cachetron.Database.Lookup.{Looked, lookup_entry-Looked, IsDb-kept, Looked-kept, Represents-kept}
use cachetron.Database.Timers.{answer_expire, do_expire}
use cachetron.Database.Timers.Remove.{count-of_others}
use cachetron.Database.Timers.Delete.{reply_del}

-- An entry of the map gets a time, or loses it.
IsDb-timed :
    (now : ℕ) (d : Db) (a ttl_ms : ℕ) (h : Heap)
    → IsDb d
    → 0 < tally_map (at_address a) d.db
    → IsTimed h
    → HasTtl now d.heap a ttl_ms h
    → IsDb (record d { heap = h })
IsDb-timed now d a ttl_ms h v there timed has = record {
  map = v.map;
  sound = v.sound;
  unique = v.unique;
  timed = timed;
  owned = λ b some_item. elim (Bool-cases (a == b)) [
    | inl here ↦ omega (arith, there, ap (λ x. tally_map (at_address x) d.db) (eqb→eq a b here))
    | inr apart ↦
        let none_new : to_nat (
              not (is_negative ttl_ms)
              && has_ref b (record { val = expire_at now ttl_ms; ref = a }))
            ≡ 0 =
          ap (λ c. to_nat (not (is_negative ttl_ms) && c)) apart
          ∙ and_false (not (is_negative ttl_ms)) in
        v.owned b
          (omega (arith, has (has_ref b), none_new, count-of_others (has_ref b) a d.heap.items))
  ];
}
  where
    and_false : (c : Bool) → to_nat (c && false) ≡ 0
    and_false true = refl
    and_false false = refl

-- The time of a key after `expire`: where it has a value, its entry has the new time, and else the
-- heap is as it was.
abbrev pub Timed : ℕ → Db → List ℕ → ℕ → Option (List ℕ) → Db → Type 0
Timed now d k ttl_ms none d' = d'.heap ≡ d.heap
Timed now d k ttl_ms (some w) d' =
    (a : ℕ) × (e : Entry) × (0 < tally_map (at_address a) d'.db)
    × (d'.entries a ≡ some e)
    × (e.key ≡ k)
    × HasTtl now d.heap a ttl_ms d'.heap

-- A run that is served as the others are, and gives the key its time.
abbrev pub ServedAt :
    ℕ → Db → List ℕ → ℕ → Result (Handle × Db) → LiteString → (List ℕ → Option (List ℕ)) → Type 0
ServedAt now d k ttl_ms run out σ =
    (out' : LiteString) × (d' : Db) × (run ≡ ok (some out', d'))
    × Append.IsValid out'
    × (contents out' ≡ contents out ++ encode (reply_del (σ k)))
    × IsDb d'
    × Represents d' σ
    × Timed now d k ttl_ms (σ k) d'

module _ (alloc : ℕ → Bool) (given : (n : ℕ) → alloc n ≡ true) (now : ℕ) where
  expired :
      (d : Db) (k : List ℕ) (ttl_ms : ℕ) (out : LiteString) (o : Option (HNode ℕ))
      → IsDb d
      → length d.heap.items + 1 < 2 ^ 62
      → Append.IsValid out
      → out.size + 9 ≤ 2 ^ 62
      → Looked d k o
      → (x : Option (List ℕ)) → Agrees d k x
      → (out' : LiteString) × (h : Heap) × (answer_expire alloc now d o ttl_ms (some out)
          ≡ ok (some out', record d { heap = h }))
        × Append.IsValid out'
        × (contents out' ≡ contents out ++ encode (reply_del x))
        × IsDb (record d { heap = h })
        × Timed now d k ttl_ms x (record d { heap = h })
  unfolding answer_expire encode
  expired d k ttl_ms out _ v small valid room (Looked.absent no_entry) none agrees =
      let (out', run', valid', all) = out_int-Writes alloc given 0 out valid (omega arith) in
      (out', d.heap, rw run', valid', all, v, refl)
  expired d k ttl_ms out _ v small valid room (Looked.absent no_entry) (some w) (e, maps, _, _) =
      absurd (no_entry e maps)
  expired d k ttl_ms out _ v small valid room (Looked.there n e here has same) none agrees =
      absurd (agrees e (n.item, here, has, same))
  expired d k ttl_ms out _ v small valid room (Looked.there n e here has same) (some w) agrees =
      let (h, run, timed, ttl) = entry_set_ttl-IsTimed now d.heap n.item ttl_ms v.timed small in
      let (out', run', valid', all) = out_int-Writes alloc given 1 out valid (omega arith) in
      (
        out',
        h,
        rw (run, run'),
        valid',
        all,
        IsDb-timed now d n.item ttl_ms h v here timed ttl,
        (n.item, e, here, has, same, ttl),
      )

  -- On a well-formed database that stands for `σ`, with fewer than 2^62 - 1 items in its heap, and
  -- as long as allocations succeed, `do_expire` of a number ends. It answers 1 where `σ` has the key
  -- and 0 where it does not, and leaves a well-formed database, its heap included, that stands for
  -- `σ`. Where `σ` has the key, the heap then holds the items of the other entries and, unless the
  -- number is negative, one for the key's entry, with the time that `expire_at` gives; where it does
  -- not, the heap is as it was.
  pub do_expire-Served :
      (d : Db) (k : List ℕ) (ttl_ms : ℕ) (σ : List ℕ → Option (List ℕ)) (out : LiteString)
      → IsDb d
      → Represents d σ
      → length d.heap.items + 1 < 2 ^ 62
      → Append.IsValid out
      → out.size + 9 ≤ 2 ^ 62
      → ServedAt now d k ttl_ms (do_expire alloc now d k (some ttl_ms) (some out)) out σ
  unfolding do_expire
  do_expire-Served d k ttl_ms σ out v r small valid room =
      let (o, m, run, kept, looked) = lookup_entry-Looked d k v in
      let r' = Represents-kept d m kept σ r in
      let (out', h, run', valid', all, v', timed) =
        expired (record d { db = m }) k ttl_ms out o (IsDb-kept d m kept v) small valid room
          (Looked-kept d m kept k o looked) (σ k) (r' k) in
      (out', record d { db = m; heap = h }, rw run run', valid', all, v', r', timed)
