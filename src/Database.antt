-- ===== src/Database.antt =====
-- The database of server.c: entries behind the hash map of keys, and the heap of their expiry
-- times. An entry is known by its address, which is the `item` of its node and the `ref` of its
-- heap item; the cell of an address in the heap is the entry's `heap_idx`. Strings that the
-- entries and the commands hold are the lists of their bytes. `malloc` gives a new address.
pub mod Maps
pub mod Lookup
pub mod Set
pub mod New
pub mod Commands
pub mod Timers
pub mod Exists
use cachetron.Prelude.{
  ℕ, zero, suc, ◌+◌, ◌-◌, ◌*◌, ◌/◌, ◌%◌, ◌^◌, Bool, true, false, Option, none, some,
}
use cachetron.Prelude.{
  List, [], ◌∷◌, ◌++◌, ltb, leb, ◌==◌, if◌then◌else◌, ◌&&◌, not, size_max, length,
}
use cachetron.Prelude.{set, take}
use cachetron.Prelude.Result.{Result, ok, fault, null_deref, ◌>>=◌, at, deref}
use cachetron.Hash.{fnv1a_hash, fnv_shifts}
use cachetron.HashMap.{HNode, HTab, HMap, hm_lookup, hm_insert, hm_pop, hm_size}
use cachetron.Heap.{Heap, HeapItem, heap_update}
use cachetron.LiteString.{Handle}
use cachetron.LiteString.Compare.{same_bytes}
use cachetron.Wire.Response.{out_nil, out_str, out_int, out_err, out_arr}

abbrev pub t_str : ℕ
t_str = 0

abbrev pub t_zset : ℕ
t_zset = 1

abbrev pub err_unknown : ℕ
err_unknown = 1

abbrev pub err_type : ℕ
err_type = 3

pub record Entry : Type 0 where
  pub key : List ℕ
  pub value : List ℕ
  pub type : ℕ

pub record Db : Type 0 where
  pub db : HMap ℕ
  pub heap : Heap
  pub entries : ℕ → Option Entry
  pub next : ℕ

abbrev pub entry_init : Entry
entry_init = record { key = []; value = []; type = t_str }

abbrev pub upd {ℓ} : {A : Type ℓ} → (ℕ → A) → ℕ → A → ℕ → A
upd f a x b = if b == a then x else f b

-- `fnv1a_hash((uint8_t *) key.key->data, string_length(key.key))`
pub key_hash : List ℕ → ℕ
key_hash k = fnv1a_hash fnv_shifts k

-- `entry_eq`, a node of the map on its left and the entry made for the lookup on its right.
abbrev pub key_is : List ℕ → Option Entry → Bool
key_is k none = false
key_is k (some e) = same_bytes e.key k

abbrev pub entry_eq : Db → List ℕ → HNode ℕ → Bool
entry_eq d k n = key_is k (d.entries n.item)

-- `hm_lookup(&g_data.db, &key.node, &entry_eq)`
pub lookup_entry : Db → List ℕ → Result (Option (HNode ℕ) × Db)
lookup_entry d k = do
  (node, m) ← hm_lookup d.db (key_hash k) (entry_eq d k)
  ok (node, record d { db = m })

-- The entry that `set` makes: `entry_init` and the swaps of the two strings.
abbrev pub new_entry : Db → List ℕ → List ℕ → Db
new_entry d k v = record d {
  entries = upd d.entries d.next (some (record entry_init { key = k; value = v }));
  heap = record { items = d.heap.items; cells = upd d.heap.cells d.next size_max };
  next = d.next + 1;
}

-- "expect string type", with its terminator
abbrev pub expect_string : List ℕ
expect_string =
    101 ∷ 120 ∷ 112 ∷ 101 ∷ 99 ∷ 116 ∷ 32 ∷ 115 ∷ 116 ∷ 114 ∷ 105 ∷ 110 ∷ 103 ∷ 32 ∷ 116 ∷ 121 ∷ 112
    ∷ 101 ∷ 0 ∷ []

-- "memory allocation failed", with its terminator
abbrev pub no_memory : List ℕ
no_memory =
    109 ∷ 101 ∷ 109 ∷ 111 ∷ 114 ∷ 121 ∷ 32 ∷ 97 ∷ 108 ∷ 108 ∷ 111 ∷ 99 ∷ 97 ∷ 116 ∷ 105 ∷ 111 ∷ 110
    ∷ 32 ∷ 102 ∷ 97 ∷ 105 ∷ 108 ∷ 101 ∷ 100 ∷ 0 ∷ []

module _ (alloc : ℕ → Bool) where
  -- An answer beside the database that it leaves.
  abbrev pub answers : Db → Result Handle → Result (Handle × Db)
  answers d r = r >>= λ out. ok (out, d)

  -- The part of `do_get` behind the lookup.
  pub answer_get : Db → Option (HNode ℕ) → Handle → Result (Handle × Db)
  answer_get d none out = answers d (out_nil alloc out)
  answer_get d (some n) out = do
    e ← deref (d.entries n.item)
    if e.type == t_str
        then answers d (out_str alloc out e.value (length e.value))
        else answers d (out_err alloc out err_type expect_string)

  unfoldable pub do_get : Db → List ℕ → Handle → Result (Handle × Db)
  unfolding lookup_entry answer_get
  do_get d k out = lookup_entry d k >>= λ (node, d'). answer_get d' node out

  -- The part of `do_set` behind the lookup. `sizeof(Entry)` is 56.
  pub store_value : Db → Option (HNode ℕ) → List ℕ → List ℕ → Handle → Result (Handle × Db)
  store_value d none k v out =
      if alloc 56
      then (do
        let made = new_entry d k v
        m ← hm_insert alloc d.db (record { hcode = key_hash k; item = d.next })
        answers (record made { db = m }) (out_nil alloc out))
      else answers d (out_err alloc out err_unknown no_memory)
  store_value d (some n) k v out = do
    e ← deref (d.entries n.item)
    if e.type == t_str
        then answers (record d { entries = upd d.entries n.item (some (record e { value = v })) })
            (out_nil alloc out)
        else answers d (out_err alloc out err_type expect_string)

  unfoldable pub do_set : Db → List ℕ → List ℕ → Handle → Result (Handle × Db)
  unfolding lookup_entry store_value
  do_set d k v out = lookup_entry d k >>= λ (node, d'). store_value d' node k v out
