-- ===== src/Database/Timers/Delete.antt =====
-- `entry_del` and `do_del` on the map from keys to values that the database stands for.
use mathlib.Core.Path.{subst}
use cachetron.Prelude.{
  ℕ, ◌+◌, ◌^◌, ◌≤◌, ◌≡◌, refl, sym, ap, ◌∙◌, inl, inr, Bool, true, Option, none, some,
}
use cachetron.Prelude.{List, arith, ◌==◌, to_nat, size_max, Bool-cases, count}
use cachetron.Prelude.Result.{Result, ok, ◌>>=◌}
use cachetron.HashMap.{HNode, HMap, hm_pop, hit, k_resizing_work}
use cachetron.HashMap.Resize.{IsValid, tally_map}
use cachetron.HashMap.Pop.{Popped, hm_pop-Popped}
use cachetron.LiteString.{LiteString}
use cachetron.LiteString.Append
use cachetron.LiteString.Compare.{same_bytes}
use cachetron.LiteString.Compare.Equal.{same_bytes-eq}
use cachetron.Wire.Response.{out_int}
use cachetron.Wire.Response.Encode.{Reply, encode}
use cachetron.Wire.Response.Writes.{out_int-Writes}
use cachetron.Heap.{HeapItem}
use cachetron.Expiry.Clear.{of_others}
use cachetron.Expiry.Arm.{entry_set_ttl-cleared}
use cachetron.Database.{Db, Entry, entry_eq, key_hash, upd}
use cachetron.Database.Maps.{IsDb, Maps, Agrees, Represents, at_address}
use cachetron.Database.Lookup.{found_key, no_entry, IsDb-kept, Represents-kept}
use cachetron.Database.Set.{override}
use cachetron.Database.Commands.{Served, answered}
use cachetron.Database.Timers.{entry_del, answer_del, do_del}
use cachetron.Database.Timers.Remove.{IsDb-removed, Represents-removed}

-- The database `d'` is `d` without the entry of the node.
pub record Without (d : Db) (n : HNode ℕ) (d' : Db) : Type 0 where
  pub valid : IsDb d'
  pub represents :
      (σ : List ℕ → Option (List ℕ)) (e : Entry)
      → d.entries n.item ≡ some e
      → Represents d σ
      → Represents d' (override σ e.key none)

-- The entry of a node that has left the map is freed.
pub entry_del-Without :
    (now : ℕ) (d : Db) (n : HNode ℕ) (m : HMap ℕ)
    → IsDb d
    → IsValid m
    → ((p : HNode ℕ → Bool) → tally_map p m + to_nat (p n) ≡ tally_map p d.db)
    → (d' : Db) × (entry_del now (record d { db = m }) n.item ≡ ok d') × Without d n d'
unfolding entry_del
entry_del-Without now d n m v map removes =
    let (h, run, timed, others) = entry_set_ttl-cleared now d.heap n.item size_max v.timed refl in
    let fewer : (p : HeapItem → Bool) → count p h.items ≡ count (of_others p n.item) d.heap.items =
      λ p. omega (arith, others p) in
    (
      record d { db = m; heap = h; entries = upd d.entries n.item none },
      rw run,
      record {
        valid = IsDb-removed d n m h v map removes timed fewer;
        represents = Represents-removed d n m h v map removes timed fewer;
      },
    )

-- What `del` answers, by the value that the key had.
abbrev pub reply_del : Option (List ℕ) → Reply
reply_del none = Reply.int 0
reply_del (some v) = Reply.int 1

module _ (alloc : ℕ → Bool) (given : (n : ℕ) → alloc n ≡ true) (now : ℕ) where
  -- The answer behind a pop that took a node.
  taken-Served :
      (d : Db) (n : HNode ℕ) (m : HMap ℕ) (d' : Db) (σ : List ℕ → Option (List ℕ))
      (out : LiteString)
      → entry_del now (record d { db = m }) n.item ≡ ok d'
      → IsDb d'
      → Represents d' σ
      → Append.IsValid out
      → out.size + 9 ≤ 2 ^ 62
      → Served (answer_del alloc now (record d { db = m }) (some n) (some out)) out (Reply.int 1) σ
  unfolding answer_del encode
  taken-Served d n m d' σ out run v rep valid room =
      let (out', d'', run', valid', all, v', rep') =
        answered alloc given d' σ (λ out. out_int alloc out 1) out (Reply.int 1)
          (out_int-Writes alloc given 1) valid (omega arith) v rep in
      (out', d'', rw run run', valid', all, v', rep')

  absent-Served :
      (d : Db) (σ : List ℕ → Option (List ℕ)) (out : LiteString)
      → IsDb d
      → Represents d σ
      → Append.IsValid out
      → out.size + 9 ≤ 2 ^ 62
      → Served (answer_del alloc now d none (some out)) out (Reply.int 0) σ
  unfolding answer_del encode
  absent-Served d σ out v rep valid room =
      answered alloc given d σ (λ out. out_int alloc out 0) out (Reply.int 0)
        (out_int-Writes alloc given 0) valid (omega arith) v rep

  -- A key that is not there can be taken off the map.
  Represents-none :
      (d : Db) (k : List ℕ) (σ : List ℕ → Option (List ℕ))
      → Represents d σ
      → ((e : Entry) → Maps d k e → ⊥)
      → Represents d (override σ k none)
  Represents-none d k σ rep no_key k' = elim (Bool-cases (same_bytes k k')) [
    | inl same ↦
        rw same
          λ e (a, at_a, has, key). no_key e (a, at_a, has, key ∙ sym (same_bytes-eq k k' same))
    | inr other ↦ rw other (rep k')
  ]

  deleted :
      (d : Db) (k : List ℕ) (σ : List ℕ → Option (List ℕ)) (out : LiteString)
      (r : Result (Option (HNode ℕ) × HMap ℕ))
      → IsDb d
      → Represents d σ
      → d.db.ht2.size ≤ k_resizing_work
      → Append.IsValid out
      → out.size + 9 ≤ 2 ^ 62
      → Popped d.db (hit (key_hash k) (entry_eq d k)) r
      → (o : Option (List ℕ)) → Agrees d k o
      → Served
          (r >>= λ (node, m). answer_del alloc now (record d { db = m }) node (some out))
          out
          (reply_del o)
          (override σ k none)
  deleted d k σ out _ v rep work valid room (Popped.taken n m hits map removes) none agrees =
      let (e, has, same) = found_key d k n hits in
      let self : (n.item == n.item) ≡ true = ground arith in
      absurd
        (agrees e (n.item, omega (arith, removes (at_address n.item), ap to_nat self), has, same))
  deleted d k σ out _ v rep work valid room (Popped.taken n m hits map removes) (some x) agrees =
      let (e, has, same) = found_key d k n hits in
      let (d', run, w) = entry_del-Without now d n m v map removes in
      taken-Served d n m d' (override σ k none) out run w.valid
        (subst (λ l. Represents d' (override σ l none)) same (w.represents σ e has rep)) valid room
  deleted d k σ out _ v rep work valid room (Popped.absent m none_hits kept) none agrees =
      absent-Served (record d { db = m }) (override σ k none) out (IsDb-kept d m kept v)
        (Represents-kept d m kept (override σ k none) (Represents-none d k σ rep agrees)) valid room
  deleted d k σ out _ v rep work valid room (Popped.absent m none_hits kept) (some x)
        (e, maps, _, _) =
      absurd (no_entry d k v none_hits e maps)
  deleted d k σ out _ v rep work valid room (Popped.crashed m run miss there more) o agrees =
      absurd (omega arith)

  -- On a well-formed database that stands for `σ`, whose older table has no more nodes than one
  -- call moves, and as long as allocations succeed, `do_del` ends. It answers 1 where `σ` has the
  -- key and 0 where it does not, and leaves a well-formed database that stands for `σ` without the
  -- key, in which each item of the heap is of an entry that is left.
  pub do_del-Served :
      (d : Db) (k : List ℕ) (σ : List ℕ → Option (List ℕ)) (out : LiteString)
      → IsDb d
      → Represents d σ
      → d.db.ht2.size ≤ k_resizing_work
      → Append.IsValid out
      → out.size + 9 ≤ 2 ^ 62
      → Served (do_del alloc now d k (some out)) out (reply_del (σ k)) (override σ k none)
  unfolding do_del
  do_del-Served d k σ out v rep work valid room =
      deleted d k σ out (hm_pop d.db (key_hash k) (entry_eq d k)) v rep work valid room
        (hm_pop-Popped d.db (key_hash k) (entry_eq d k) v.map) (σ k) (rep k)
