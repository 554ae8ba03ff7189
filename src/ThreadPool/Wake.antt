-- ===== src/ThreadPool/Wake.antt =====
-- No wake-up of a thread pool is lost.
use mathlib.Core.Path.{subst}
use cachetron.Prelude.{
  ℕ, zero, suc, ◌+◌, ◌<◌, ◌≡◌, refl, sym, ap, ◌∙◌, Bool, true, false, some, length, length-map,
  count, replicate, length-replicate, arith,
}
use cachetron.Prelude.Result.{ok}
use cachetron.Deque.{Deque, deque_empty, deque_push_back}
use cachetron.Deque.Resize.{deque_push_back-false}
use cachetron.ThreadPool.{
  Thread, ThreadPool, ready, waiting, thread_pool_init, thread_pool_destroy, wake, called,
  is_waiting, is_exited,
}
use cachetron.ThreadPool.{Step, Reach, turns, wakes, pushes, queues, destroys, here, next}
use cachetron.ThreadPool.Calls.{
  thread_pool_push-called, thread_pool_queue-called, IsNew, init-IsNew,
}
use cachetron.ThreadPool.Steps.{is_awake, to_signal, tallies, length_changed, none_waiting}
use cachetron.ThreadPool.Turns.{Sound, Turn-Sound, Turn-length, wakes-Sound}

module _ {ℓ} {A : Type ℓ} where
  -- A call that is to signal, or that left the queue as it was.
  called-Sound :
      (p : ThreadPool A) (task : A) (signals : Bool) (queue : Deque ℕ)
      → (signals ≡ false → queue ≡ p.queue)
      → Sound p
      → Sound (called p task signals queue)
  called-Sound p task true queue same v = record {
    stay = v.stay;
    leave = v.leave;
    woken = λ s n q. omega arith;
  }
  called-Sound p task false queue same v = record {
    stay = v.stay;
    leave = v.leave;
    woken = λ s n q. omega (arith, v.woken s n (sym (ap deque_empty (same refl)) ∙ q));
  }

  module _ (alloc : ℕ → Bool) (in_place : Bool) where
    destroy-Sound : (p : ThreadPool A) → Sound p → Sound (thread_pool_destroy p)
    unfolding thread_pool_destroy
    destroy-Sound p v = record {
      stay = λ s. absurd (cc s);
      leave = λ s. none_waiting p.threads;
      woken = λ s. absurd (cc s);
    }

    Step-Sound : (p q : ThreadPool A) → Step alloc in_place p q → Sound p → Sound q
    Step-Sound _ _ (turns p q t) v = Turn-Sound p q t v
    Step-Sound _ _ (wakes p pre post at) v =
        wakes-Sound p pre post waiting ready at refl refl refl refl v p.calls p.queue
    Step-Sound _ _ (pushes p q task success run) v =
        let (queue, pushed, e) = thread_pool_push-called alloc in_place p q task success run in
        subst Sound (sym e) (
          called-Sound p task success queue
            (λ failed. deque_push_back-false alloc in_place p.queue (some p.next) queue (
              subst (λ b. deque_push_back alloc in_place p.queue (some p.next) ≡ ok (b, queue))
                failed pushed))
            v)
    Step-Sound _ _ (queues p q task run) v =
        let (b, queue, pushed, e) = thread_pool_queue-called alloc in_place p q task run in
        subst Sound (sym e) (called-Sound p task true queue (λ no. absurd (cc no)) v)
    Step-Sound _ _ (destroys p) v = destroy-Sound p v

    init_awake : (f : Thread A → Bool) (n : ℕ) → f ready ≡ false → count f (replicate n ready) ≡ 0
    init_awake f zero e = refl
    init_awake f (suc n) e = rw e (omega (arith, init_awake f n e))

    init-Sound : (n : ℕ) (p : ThreadPool A) → IsNew alloc in_place n p → Sound p
    init-Sound n p v = record {
      stay = λ s. ap (count is_exited) v.threads ∙ init_awake is_exited n refl;
      leave = λ s. absurd (cc (s, v.stop));
      woken = λ s m q. omega (
        arith,
        ap (count is_waiting) v.threads,
        ap (count is_exited) v.threads,
        init_awake is_waiting n refl,
        init_awake is_exited n refl,
        tallies p.threads,
      );
    }

    Reach-Sound : (p q : ThreadPool A) → Reach alloc in_place p q → Sound p → Sound q
    Reach-Sound p _ here v = v
    Reach-Sound p _ (next q r to step) v = Step-Sound q r step (Reach-Sound p q to v)

    pub pool-Sound :
        (n : ℕ) (p q : ThreadPool A)
        → thread_pool_init alloc in_place n ≡ some p
        → Reach alloc in_place p q
        → Sound q
    pool-Sound n p q made to =
        Reach-Sound p q to (init-Sound n p (init-IsNew alloc in_place n p made))

    Step-length :
        (p q : ThreadPool A) → Step alloc in_place p q → length q.threads ≡ length p.threads
    unfolding thread_pool_destroy
    Step-length _ _ (turns p q t) = Turn-length p q t
    Step-length _ _ (wakes p pre post at) = length_changed p.threads pre post waiting ready at
    Step-length _ _ (pushes p q task success run) =
        let (queue, pushed, e) = thread_pool_push-called alloc in_place p q task success run in
        ap (λ r. length r.threads) e
    Step-length _ _ (queues p q task run) =
        let (b, queue, pushed, e) = thread_pool_queue-called alloc in_place p q task run in
        ap (λ r. length r.threads) e
    Step-length _ _ (destroys p) = length-map wake p.threads

    Reach-length :
        (p q : ThreadPool A) → Reach alloc in_place p q → length q.threads ≡ length p.threads
    Reach-length p _ here = refl
    Reach-length p _ (next q r to step) = Step-length q r step ∙ Reach-length p q to

    pub pool-length :
        (n : ℕ) (p q : ThreadPool A)
        → thread_pool_init alloc in_place n ≡ some p
        → Reach alloc in_place p q
        → length q.threads ≡ n
    pool-length n p q made to =
        Reach-length p q to
        ∙ ap (λ l. length l) (init-IsNew alloc in_place n p made).threads
        ∙ length-replicate n ready

    -- No wake-up is lost: in a state that a new pool gets to, whatever the order of the steps, where
    -- the pool is not destroyed and its deque is not empty, a signal is still to come or a thread is
    -- neither waiting nor gone.
    pub Reach-woken :
        (n : ℕ) (p q : ThreadPool A)
        → thread_pool_init alloc in_place n ≡ some p
        → Reach alloc in_place p q
        → q.stop ≡ false
        → deque_empty q.queue ≡ false
        → 0 < count to_signal q.calls + count is_awake q.threads
    Reach-woken n p q made to s some_in =
        (pool-Sound n p q made to).woken s
          (omega (arith, pool-length n p q made to, (init-IsNew alloc in_place n p made).many))
          some_in
