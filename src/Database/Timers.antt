-- ===== src/Database/Timers.antt =====
-- The commands of server.c that take an entry out of the database or give it a time: `del`,
-- `expire` and `pttl`, and the loop of `process_timers` over the heap, with `next_timer`. `now` is
-- what the clock answers, and a signed number is the word that holds it. An entry is freed at once,
-- where `entry_del` leaves a large sorted set to the thread pool.
pub mod Remove
pub mod Delete
pub mod Expire
use cachetron.Prelude.{
  ℕ, zero, suc, ◌+◌, ◌-◌, ◌*◌, ◌/◌, ◌%◌, ◌^◌, Bool, true, false, Option, none, some,
}
use cachetron.Prelude.{
  List, [], ◌∷◌, ltb, ◌==◌, if◌then◌else◌, ◌&&◌, not, size_max, size_mod, length,
}
use cachetron.Prelude.Result.{Result, ok, fault, ◌>>=◌, at, deref}
use cachetron.HashMap.{HNode, HMap, hm_pop}
use cachetron.Heap.{Heap, HeapItem}
use cachetron.Expiry.{entry_set_ttl}
use cachetron.LiteString.{Handle}
use cachetron.Wire.Response.{out_int, out_err}
use cachetron.Database.{Db, Entry, upd, key_hash, entry_eq, lookup_entry, answers}

abbrev pub err_arg : ℕ
err_arg = 4

-- "expect int64 type", with its terminator
abbrev pub expect_int64 : List ℕ
expect_int64 =
    101 ∷ 120 ∷ 112 ∷ 101 ∷ 99 ∷ 116 ∷ 32 ∷ 105 ∷ 110 ∷ 116 ∷ 54 ∷ 52 ∷ 32 ∷ 116 ∷ 121 ∷ 112 ∷ 101
    ∷ 0 ∷ []

-- `entry_set_ttl(ent, -1)`, and the entry is freed.
pub entry_del : ℕ → Db → ℕ → Result Db
entry_del now d a = do
  heap ← entry_set_ttl now d.heap a size_max
  ok (record d { heap = heap; entries = upd d.entries a none })

-- `(int64_t) w / 1000`
abbrev pub over_1000 : ℕ → ℕ
over_1000 w = if ltb w (2 ^ 63) then w / 1000 else (2 ^ 64 - (2 ^ 64 - w) / 1000) % 2 ^ 64

-- What is left until a time in microseconds, in milliseconds.
abbrev pub time_left : ℕ → ℕ → ℕ
time_left now expire_at = if ltb now expire_at then over_1000 (expire_at - now) else 0

-- `strtoll` answers the number that the text begins with, and where the number ends.
pub str2int : (List ℕ → ℕ × ℕ) → List ℕ → Option ℕ
str2int strtoll text =
    let (val, end) = strtoll text in if end == length text then some val else none

module _ (alloc : ℕ → Bool) (now : ℕ) where
  -- The part of `do_del` behind the lookup.
  pub answer_del : Db → Option (HNode ℕ) → Handle → Result (Handle × Db)
  unfolding entry_del
  answer_del d none out = answers alloc d (out_int alloc out 0)
  answer_del d (some n) out = do d' ← entry_del now d n.item; answers alloc d' (out_int alloc out 1)

  unfoldable pub do_del : Db → List ℕ → Handle → Result (Handle × Db)
  unfolding answer_del
  do_del d k out = hm_pop d.db (key_hash k) (entry_eq d k) >>= λ (node, m).
      answer_del (record d { db = m }) node out

  pub answer_expire : Db → Option (HNode ℕ) → ℕ → Handle → Result (Handle × Db)
  answer_expire d none ttl_ms out = answers alloc d (out_int alloc out 0)
  answer_expire d (some n) ttl_ms out = do
    heap ← entry_set_ttl now d.heap n.item ttl_ms
    answers alloc (record d { heap = heap }) (out_int alloc out 1)

  -- `do_expire` on what `str2int` answers.
  unfoldable pub do_expire : Db → List ℕ → Option ℕ → Handle → Result (Handle × Db)
  unfolding answer_expire lookup_entry
  do_expire d k none out = answers alloc d (out_err alloc out err_arg expect_int64)
  do_expire d k (some ttl_ms) out =
      lookup_entry d k >>= λ (node, d'). answer_expire d' node ttl_ms out

  -- The words of -2 and -1 stand for no entry and for no time.
  pub answer_ttl : Db → Option (HNode ℕ) → Handle → Result (Handle × Db)
  answer_ttl d none out = answers alloc d (out_int alloc out (2 ^ 64 - 2))
  answer_ttl d (some n) out =
      if d.heap.cells n.item == size_max
      then answers alloc d (out_int alloc out (2 ^ 64 - 1))
      else (do
        x ← at d.heap.items (d.heap.cells n.item)
        answers alloc d (out_int alloc out (time_left now x.val)))

  unfoldable pub do_ttl : Db → List ℕ → Handle → Result (Handle × Db)
  unfolding answer_ttl lookup_entry
  do_ttl d k out = lookup_entry d k >>= λ (node, d'). answer_ttl d' node out

-- The loop of `process_timers` over the heap, with the rounds it may still take. The node of the
-- entry at `a` has the hash code of the entry's key, and `compare_hnode` compares addresses.
unfoldable pub expire_loop : ℕ → ℕ → Db → Result Db
unfolding entry_del
expire_loop zero now d = ok d
expire_loop (suc works) now d =
    let round : Result Db = do
      first ← at d.heap.items 0
      let gone = do
        e ← deref (d.entries first.ref)
        (node, m) ← hm_pop d.db (key_hash e.key) (λ n. n.item == first.ref)
        elim node [
          | none ↦ ok (record d { db = m })
          | some n ↦ do d' ← entry_del now (record d { db = m }) first.ref; expire_loop works now d'
        ]
      if ltb first.val now then gone else ok d
    in if length d.heap.items == 0 then ok d else round

-- One round more than `k_max_works`, as `nworks++` answers the number before.
unfoldable pub process_timers : ℕ → Db → Result Db
unfolding expire_loop
process_timers clock d = expire_loop 2001 ((clock + 1000) % size_mod) d

-- `k_idle_timeout_ms * 1000`
abbrev pub idle_timeout : ℕ
idle_timeout = 5 * 1000 * 1000

-- `idle` is the `idle_start` of the first idle connection. The last item is compared, and the first
-- one's time is taken.
unfoldable pub next_timer : ℕ → Option ℕ → List HeapItem → Result ℕ
next_timer now idle heap = do
  let idle_end : ℕ = elim idle [ none ↦ size_max | some start ↦ (start + idle_timeout) % size_mod ]
  next ←
      (if length heap == 0 then ok idle_end else (do
        last ← at heap (length heap - 1)
        first ← at heap 0
        ok (if ltb last.val idle_end then first.val else idle_end)))
  ok (
      if next == size_max
      then 10000
      else if ltb now next
      then ((next - now) / 1000) % 2 ^ 32
      else 0)
