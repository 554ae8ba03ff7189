-- ===== src/ThreadPool.antt =====
-- thread_pool.{h,c}: the threads of a pool and the deque between them. What a thread or a call does
-- while it holds the mutex is one step; the steps of the threads, and of those who use the pool, come
-- in any order. A step that reaches undefined behaviour is a fault, and leads to no state.
-- The deque holds addresses, as in the source: `thread_pool_push` and `thread_pool_queue` push the
-- address of their local `task`, which ends when the call returns. Each call has an address of its
-- own here, so that a read of a local that has ended is always told from a read of another.
pub mod Steps
pub mod Calls
pub mod Turns
pub mod Wake
pub mod Drain
pub mod Dangling
use cachetron.Prelude.{
  ℕ, zero, suc, ◌≡◌, Bool, true, false, Option, none, some, List, [], ◌∷◌, ◌++◌, map, replicate,
  count, ◌==◌, if◌then◌else◌,
}
use cachetron.Prelude.Result.{Result, ok, fault, use_after_free, deref, ◌>>=◌}
use cachetron.Deque.{
  Deque, create_deque, deque_empty, deque_front, deque_pop_front, deque_push_back,
}

-- Where a thread is: before it locks the mutex, in `pthread_cond_wait`, in a task, or gone.
pub data Thread {ℓ} (A : Type ℓ) : Type ℓ where
  ready : Thread A
  waiting : Thread A
  running : A → Thread A
  exited : Thread A

-- A call of `thread_pool_push` or `thread_pool_queue` behind its unlock: the address and the content
-- of its local, and whether its `pthread_cond_signal` is still to come.
pub record Call {ℓ} (A : Type ℓ) : Type ℓ where
  pub frame : ℕ
  pub task : A
  pub signals : Bool

-- `calls` are those that have not returned, and `next` is the address of the next local.
pub record ThreadPool {ℓ} (A : Type ℓ) : Type ℓ where
  pub queue : Deque ℕ
  pub stop : Bool
  pub threads : List (Thread A)
  pub calls : List (Call A)
  pub next : ℕ

module _ {ℓ} {A : Type ℓ} where
  pub init_with : ℕ → Option (Deque ℕ) → Option (ThreadPool A)
  init_with n none = none
  init_with zero (some queue) = none
  init_with (suc n) (some queue) = some (record {
    queue = queue;
    stop = false;
    threads = replicate (suc n) ready;
    calls = [];
    next = 0;
  })

  -- `thread_pool_init` of a pool with static storage, as that of server.c, so that `stop` is false
  -- from the start. `none` where it answers false, or has no deque.
  unfoldable pub thread_pool_init : (ℕ → Bool) → Bool → ℕ → Option (ThreadPool A)
  unfolding init_with
  thread_pool_init alloc in_place n = init_with n (create_deque alloc in_place)

  -- `*(Worker *) address`, a read of the local of a call, which is there until the call returns.
  unfoldable pub read_task : ℕ → List (Call A) → Result A
  read_task address [] = fault use_after_free
  read_task address (c ∷ calls) = if c.frame == address then ok c.task else read_task address calls

  pub take_task : ThreadPool A → List (Thread A) → List (Thread A) → Result (ThreadPool A)
  unfolding read_task
  take_task p pre post = do
    front ← deque_front p.queue
    address ← deref front
    task ← read_task address p.calls
    (popped, queue) ← deque_pop_front p.queue
    ok (record p { queue = queue; threads = pre ++ running task ∷ post })

  -- From the lock to the unlock, or to the wait, of the thread between `pre` and `post`.
  unfoldable pub worker : ThreadPool A → List (Thread A) → List (Thread A) → Result (ThreadPool A)
  unfolding take_task
  worker p pre post =
      if p.stop
      then ok (record p { threads = pre ++ exited ∷ post })
      else if deque_empty p.queue
      then ok (record p { threads = pre ++ waiting ∷ post })
      else take_task p pre post

  -- The pool while the call that pushed its local is behind its unlock.
  abbrev pub called : ThreadPool A → A → Bool → Deque ℕ → ThreadPool A
  called p task signals queue = record p {
    queue = queue;
    calls = record { frame = p.next; task = task; signals = signals } ∷ p.calls;
    next = suc p.next;
  }

  module _ (alloc : ℕ → Bool) (in_place : Bool) where
    -- Up to the unlock, with the answer; it signals only where the push succeeded.
    unfoldable pub thread_pool_push : ThreadPool A → A → Result (Bool × ThreadPool A)
    thread_pool_push p task = do
      (success, queue) ← deque_push_back alloc in_place p.queue (some p.next)
      ok (success, called p task success queue)

    -- Up to the unlock; it signals in any case.
    unfoldable pub thread_pool_queue : ThreadPool A → A → Result (ThreadPool A)
    thread_pool_queue p task = do
      (success, queue) ← deque_push_back alloc in_place p.queue (some p.next)
      ok (called p task true queue)

  -- A thread that is woken locks the mutex again.
  abbrev pub wake : Thread A → Thread A
  wake ready = ready
  wake waiting = ready
  wake (running task) = running task
  wake exited = exited

  -- `stop` and the broadcast; the joins then wait until all threads are gone.
  unfoldable pub thread_pool_destroy : ThreadPool A → ThreadPool A
  thread_pool_destroy p = record p { stop = true; threads = map wake p.threads }

  abbrev pub is_waiting : Thread A → Bool
  is_waiting ready = false
  is_waiting waiting = true
  is_waiting (running task) = false
  is_waiting exited = false

  abbrev pub is_exited : Thread A → Bool
  is_exited ready = false
  is_exited waiting = false
  is_exited (running task) = false
  is_exited exited = true

  abbrev pub signalled : Call A → Call A
  signalled c = record c { signals = false }

  -- What the threads and the calls do: a thread locks the mutex, or ends its task; the signal of a
  -- call wakes a thread that waits, or none where none waits; a call returns.
  pub data Turn : ThreadPool A → ThreadPool A → Type ℓ where
    locks :
        (p q : ThreadPool A) (pre post : List (Thread A))
        → p.threads ≡ pre ++ ready ∷ post
        → worker p pre post ≡ ok q
        → Turn p q
    ends :
        (p : ThreadPool A) (pre post : List (Thread A)) (task : A)
        → p.threads ≡ pre ++ running task ∷ post
        → Turn p (record p { threads = pre ++ ready ∷ post })
    signal_wakes :
        (p : ThreadPool A) (pre post : List (Thread A)) (newer older : List (Call A)) (c : Call A)
        → p.calls ≡ newer ++ c ∷ older
        → c.signals ≡ true
        → p.threads ≡ pre ++ waiting ∷ post
        → Turn p (record p { threads = pre ++ ready ∷ post; calls = newer ++ signalled c ∷ older })
    signal_lost :
        (p : ThreadPool A) (newer older : List (Call A)) (c : Call A)
        → p.calls ≡ newer ++ c ∷ older
        → c.signals ≡ true
        → count is_waiting p.threads ≡ 0
        → Turn p (record p { calls = newer ++ signalled c ∷ older })
    returns :
        (p : ThreadPool A) (newer older : List (Call A)) (c : Call A)
        → p.calls ≡ newer ++ c ∷ older
        → c.signals ≡ false
        → Turn p (record p { calls = newer ++ older })

  module _ (alloc : ℕ → Bool) (in_place : Bool) where
    -- All steps: also a thread may wake for no reason, and the users push tasks and destroy the pool.
    pub data Step : ThreadPool A → ThreadPool A → Type ℓ where
      turns : (p q : ThreadPool A) → Turn p q → Step p q
      wakes :
          (p : ThreadPool A) (pre post : List (Thread A))
          → p.threads ≡ pre ++ waiting ∷ post
          → Step p (record p { threads = pre ++ ready ∷ post })
      pushes :
          (p q : ThreadPool A) (task : A) (success : Bool)
          → thread_pool_push alloc in_place p task ≡ ok (success, q)
          → Step p q
      queues :
          (p q : ThreadPool A) (task : A)
          → thread_pool_queue alloc in_place p task ≡ ok q
          → Step p q
      destroys : (p : ThreadPool A) → Step p (thread_pool_destroy p)

    pub data Reach (p : ThreadPool A) : ThreadPool A → Type ℓ where
      here : Reach p p
      next : (q r : ThreadPool A) → Reach p q → Step q r → Reach p r
