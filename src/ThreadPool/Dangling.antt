-- ===== src/ThreadPool/Dangling.antt =====
-- What a thread reads from the deque once the calls that pushed have returned.
use mathlib.Core.Path.{subst}
use cachetron.Prelude.{
  ℕ, ◌^◌, ◌<◌, ◌≡◌, refl, sym, ap, Bool, true, false, inl, inr, Bool-cases, some, List, [], ◌∷◌,
  ◌==◌, arith, count, to_nat,
}
use cachetron.Prelude.Result.{ok, fault, use_after_free}
use cachetron.Deque.{deque_empty, deque_front}
use cachetron.Deque.Stocked.{
  Stocked, deque_pop_front-Stocked, deque_front-Stocked, deque_push_back-Stocked,
  create_deque-Stocked,
}
use cachetron.ThreadPool.{
  Thread, Call, ThreadPool, worker, take_task, read_task, thread_pool_init, thread_pool_destroy,
}
use cachetron.ThreadPool.{
  Turn, Step, Reach, locks, ends, signal_wakes, signal_lost, returns, turns, wakes, pushes, queues,
  destroys, here, next,
}
use cachetron.ThreadPool.Calls.{thread_pool_push-called, thread_pool_queue-called, init-IsNew}
use cachetron.ThreadPool.Steps.{Worked, stops, waits, takes, worker-Worked}

module _ {ℓ} {A : Type ℓ} where
  Turn-Stocked : (p q : ThreadPool A) → Turn p q → Stocked p.queue → Stocked q.queue
  Turn-Stocked _ _ (locks p q pre post at run) v = worked (worker-Worked p q pre post run)
    where
      worked : Worked p pre post q → Stocked q.queue
      worked (stops s e) = subst (λ r. Stocked r.queue) (sym e) v
      worked (waits s m e) = subst (λ r. Stocked r.queue) (sym e) v
      worked (takes task x queue s m popped e) =
          subst (λ r. Stocked r.queue) (sym e) (deque_pop_front-Stocked p.queue v x queue m popped)
  Turn-Stocked _ _ (ends p pre post task at) v = v
  Turn-Stocked _ _ (signal_wakes p pre post newer older c at e there) v = v
  Turn-Stocked _ _ (signal_lost p newer older c at e idle) v = v
  Turn-Stocked _ _ (returns p newer older c at e) v = v

  module _ (alloc : ℕ → Bool) (small : (n : ℕ) → alloc n ≡ true → n < 2 ^ 63) where
    Step-Stocked : (p q : ThreadPool A) → Step alloc false p q → Stocked p.queue → Stocked q.queue
    unfolding thread_pool_destroy
    Step-Stocked _ _ (turns p q t) v = Turn-Stocked p q t v
    Step-Stocked _ _ (wakes p pre post at) v = v
    Step-Stocked _ _ (pushes p q task success run) v =
        let (queue, pushed, e) = thread_pool_push-called alloc false p q task success run in
        subst (λ r. Stocked r.queue) (sym e)
          (deque_push_back-Stocked p.queue v alloc small p.next success queue pushed)
    Step-Stocked _ _ (queues p q task run) v =
        let (b, queue, pushed, e) = thread_pool_queue-called alloc false p q task run in
        subst (λ r. Stocked r.queue) (sym e)
          (deque_push_back-Stocked p.queue v alloc small p.next b queue pushed)
    Step-Stocked _ _ (destroys p) v = v

    Reach-Stocked : (p q : ThreadPool A) → Reach alloc false p q → Stocked p.queue → Stocked q.queue
    Reach-Stocked p _ here v = v
    Reach-Stocked p _ (next q r to step) v = Step-Stocked q r step (Reach-Stocked p q to v)

    -- A thread that finds the address of a local whose call has returned.
    read_task-ended :
        (a : ℕ) (calls : List (Call A))
        → count (λ c. c.frame == a) calls ≡ 0
        → read_task a calls ≡ fault use_after_free
    unfolding read_task
    read_task-ended a [] h = refl
    read_task-ended a (c ∷ calls) h = elim (Bool-cases (c.frame == a)) [
      | inl same ↦ absurd (omega (arith, ap to_nat same))
      | inr other ↦ rw other (read_task-ended a calls (omega arith))
    ]

    worker-dangling :
        (q : ThreadPool A) (pre post : List (Thread A)) (a : ℕ)
        → q.stop ≡ false
        → deque_empty q.queue ≡ false
        → deque_front q.queue ≡ ok (some a)
        → read_task a q.calls ≡ fault use_after_free
        → worker q pre post ≡ fault use_after_free
    unfolding worker take_task
    worker-dangling q pre post a s e front gone = rw (s, e) (rw front (rw gone refl))

    -- Where `realloc` moves each array and no array has 2^63 cells, and in a state that a new pool gets
    -- to, whatever the order of the steps: when the pool is not destroyed, its deque is not empty and
    -- the calls of `thread_pool_push` and `thread_pool_queue` have all returned, each thread that
    -- locks the mutex reads the local of a call that has ended.
    pub Reach-dangling :
        (n : ℕ) (p q : ThreadPool A) (pre post : List (Thread A))
        → thread_pool_init alloc false n ≡ some p
        → Reach alloc false p q
        → q.stop ≡ false
        → deque_empty q.queue ≡ false
        → q.calls ≡ []
        → worker q pre post ≡ fault use_after_free
    Reach-dangling n p q pre post made to s some_in over =
        let new = init-IsNew alloc false n p made in
        let v = Reach-Stocked p q to (create_deque-Stocked alloc p.queue new.created) in
        let (a, front) = deque_front-Stocked q.queue v some_in in
        worker-dangling q pre post a s some_in front
          (read_task-ended a q.calls (ap (count (λ c. c.frame == a)) over))
