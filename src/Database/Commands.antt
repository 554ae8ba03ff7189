-- ===== src/Database/Commands.antt =====
-- `do_get` and `do_set` against the map from keys to values that the database stands for.
use mathlib.Core.Path.{subst}
use cachetron.Prelude.{ℕ, ◌+◌, ◌^◌, ◌<◌, ◌≤◌, ◌≡◌, ap, ◌∙◌, Bool, true, Option, none, some}
use cachetron.Prelude.{List, ◌++◌, arith, length, ◌==◌}
use cachetron.Prelude.Result.{Result, ok}
use cachetron.HashMap.{HNode}
use cachetron.HashMap.Insert.{hm_insert_lem}
use cachetron.LiteString.{LiteString, Handle, contents}
use cachetron.LiteString.Append
use cachetron.Wire.Response.{out_nil, out_str}
use cachetron.Wire.Response.Encode.{Reply, encode}
use cachetron.Wire.Response.Writes.{Writes, out_nil-Writes, out_str-Writes_all}
use cachetron.Database.{
  Db, key_hash, do_get, do_set, answer_get, store_value, answers, new_entry, upd, t_str,
}
use cachetron.Database.Maps.{IsDb, Agrees, Represents}
use cachetron.Database.Lookup.{
  Looked, lookup_entry-Looked, IsDb-kept, Looked-kept, Represents-kept, Maps-unique,
}
use cachetron.Database.Set.{override, IsDb-changed, Represents-changed}
use cachetron.Database.New.{IsDb-made, Represents-made}

-- What `get` answers for a key, by the value that the key has.
abbrev pub reply_get : Option (List ℕ) → Reply
reply_get none = Reply.nil
reply_get (some v) = Reply.str v

-- The run ends, answers `reply` behind what `out` held, and leaves a database that stands for `σ`.
abbrev pub Served : Result (Handle × Db) → LiteString → Reply → (List ℕ → Option (List ℕ)) → Type 0
Served run out reply σ =
    (out' : LiteString) × (d' : Db) × (run ≡ ok (some out', d'))
    × Append.IsValid out'
    × (contents out' ≡ contents out ++ encode reply)
    × IsDb d'
    × Represents d' σ

module _ (alloc : ℕ → Bool) (given : (n : ℕ) → alloc n ≡ true) where
  -- An answer that is written behind a database that is not touched any more.
  pub answered :
      (d : Db) (σ : List ℕ → Option (List ℕ)) (f : Handle → Result Handle) (out : LiteString)
      (reply : Reply)
      → Writes f (encode reply)
      → Append.IsValid out
      → out.size + length (encode reply) ≤ 2 ^ 62
      → IsDb d
      → Represents d σ
      → Served (answers alloc d (f (some out))) out reply σ
  answered d σ f out reply writes valid room v r =
      let (out', run, valid', all) = writes out valid room in (out', d, rw run, valid', all, v, r)

  answer_get-Served :
      (d : Db) (k : List ℕ) (σ : List ℕ → Option (List ℕ)) (out : LiteString) (o : Option (HNode ℕ))
      → IsDb d
      → Represents d σ
      → Append.IsValid out
      → Looked d k o
      → (x : Option (List ℕ)) → Agrees d k x
      → out.size + length (encode (reply_get x)) ≤ 2 ^ 62
      → Served (answer_get alloc d o (some out)) out (reply_get x) σ
  unfolding answer_get
  answer_get-Served d k σ out _ v r valid (Looked.absent no_entry) none agrees room =
      answered d σ (out_nil alloc) out Reply.nil (out_nil-Writes alloc given) valid room v r
  answer_get-Served d k σ out _ v r valid (Looked.absent no_entry) (some w) (e, maps, _, _) room =
      absurd (no_entry e maps)
  answer_get-Served d k σ out _ v r valid (Looked.there n e here has same) none agrees room =
      absurd (agrees e (n.item, here, has, same))
  answer_get-Served d k σ out _ v r valid (Looked.there n e here has same) (some w)
        (e', maps, value, type) room =
      let one : e ≡ e' = Maps-unique d k e e' v (n.item, here, has, same) maps in
      let text : e.value ≡ w = ap (λ y. y.value) one ∙ value in
      let is_str : (e.type == t_str) ≡ true = ground (arith, ap (λ y. y.type) one ∙ type) in
      let write : Writes (λ out. out_str alloc out e.value (length e.value))
          (encode (Reply.str w)) =
        subst
          (λ l. Writes (λ out. out_str alloc out e.value (length e.value)) (encode (Reply.str l)))
          text (out_str-Writes_all alloc given e.value) in
      let (out', run, valid', all) = write out valid room in
      (out', d, rw (has, is_str, run), valid', all, v, r)

  -- On a well-formed database that stands for `σ`, and as long as allocations succeed, `do_get`
  -- ends. It writes the value of the key in `σ` behind what the answer holds, nil where there is
  -- none, and leaves a well-formed database that stands for `σ`.
  pub do_get-Served :
      (d : Db) (k : List ℕ) (σ : List ℕ → Option (List ℕ)) (out : LiteString)
      → IsDb d
      → Represents d σ
      → Append.IsValid out
      → out.size + length (encode (reply_get (σ k))) ≤ 2 ^ 62
      → Served (do_get alloc d k (some out)) out (reply_get (σ k)) σ
  unfolding do_get
  do_get-Served d k σ out v r valid room =
      let (o, m, run, kept, looked) = lookup_entry-Looked d k v in
      let r' = Represents-kept d m kept σ r in
      let (out', d', run', valid', all, v', r'') =
        answer_get-Served (record d { db = m }) k σ out o (IsDb-kept d m kept v) r' valid
          (Looked-kept d m kept k o looked) (σ k) (r' k) room in
      (out', d', rw run run', valid', all, v', r'')

  store_value-Served :
      (d : Db) (k w : List ℕ) (σ : List ℕ → Option (List ℕ)) (out : LiteString)
      (o : Option (HNode ℕ))
      → IsDb d
      → Represents d σ
      → d.db.ht1.size + d.db.ht2.size + 1 < 2 ^ 64
      → Append.IsValid out
      → out.size + length (encode Reply.nil) ≤ 2 ^ 62
      → Looked d k o
      → Served (store_value alloc d o k w (some out)) out Reply.nil (override σ k (some w))
  unfolding store_value
  store_value-Served d k w σ out _ v r space valid room (Looked.absent no_entry) =
      let (m, run, map, adds) =
        hm_insert_lem alloc given d.db (record { hcode = key_hash k; item = d.next }) v.map space in
      let (out', d', run', valid', all, v', r') =
        answered (record (new_entry d k w) { db = m }) (override σ k (some w)) (out_nil alloc) out
          Reply.nil (out_nil-Writes alloc given) valid room (IsDb-made d k w m v map adds no_entry)
          (Represents-made d k w m v map adds no_entry σ r) in
      (out', d', rw (given 56, run) run', valid', all, v', r')
  store_value-Served d k w σ out _ v r space valid room (Looked.there n e here has same) =
      let is_string : e.type ≡ t_str = typed (σ k) (r k) in
      let is_str : (e.type == t_str) ≡ true = ground (arith, is_string) in
      let represents : Represents
          (record d { entries = upd d.entries n.item (some (record e { value = w })) })
          (override σ k (some w)) =
        subst
          (λ l.
            Represents (record d { entries = upd d.entries n.item (some (record e { value = w })) })
              (override σ l (some w)))
          same (Represents-changed d n e w v here has σ is_string r) in
      let (out', d', run', valid', all, v', r') =
        answered (record d { entries = upd d.entries n.item (some (record e { value = w })) })
          (override σ k (some w)) (out_nil alloc) out Reply.nil (out_nil-Writes alloc given) valid
          room (IsDb-changed d n e w v here has) represents in
      (out', d', rw (has, is_str) run', valid', all, v', r')
    where
      typed : (x : Option (List ℕ)) → Agrees d k x → e.type ≡ t_str
      typed none agrees = absurd (agrees e (n.item, here, has, same))
      typed (some u) (e', maps, value, type) =
          ap (λ y. y.type) (Maps-unique d k e e' v (n.item, here, has, same) maps) ∙ type

  -- On a well-formed database that stands for `σ`, with fewer than 2^64 - 1 nodes and as long as
  -- allocations succeed, `do_set` ends and answers nil. It leaves a well-formed database that
  -- stands for `σ` with the new value for the key, whether the key was there or not.
  pub do_set-Served :
      (d : Db) (k w : List ℕ) (σ : List ℕ → Option (List ℕ)) (out : LiteString)
      → IsDb d
      → Represents d σ
      → d.db.ht1.size + d.db.ht2.size + 1 < 2 ^ 64
      → Append.IsValid out
      → out.size + length (encode Reply.nil) ≤ 2 ^ 62
      → Served (do_set alloc d k w (some out)) out Reply.nil (override σ k (some w))
  unfolding do_set
  do_set-Served d k w σ out v r space valid room =
      let (o, m, run, kept, looked) = lookup_entry-Looked d k v in
      let (out', d', run', valid', all, v', r') =
        store_value-Served (record d { db = m }) k w σ out o (IsDb-kept d m kept v)
          (Represents-kept d m kept σ r) (omega (arith, kept.total)) valid room
          (Looked-kept d m kept k o looked) in
      (out', d', rw run run', valid', all, v', r')
