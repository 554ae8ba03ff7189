-- ===== src/ThreadPool/Calls.antt =====
-- The states of a pool behind a push, behind a queueing, and when it is new.
use mathlib.Core.Path.{subst}
use cachetron.Prelude.{
  ℕ, zero, suc, ◌<◌, ◌≡◌, refl, sym, ap, ◌∙◌, Bool, true, false, Option, none, some, [], replicate,
  arith,
}
use cachetron.Prelude.Result.{Result, ok, ok_inj, bind-ok}
use cachetron.Deque.{Deque, create_deque, deque_push_back}
use cachetron.ThreadPool.{
  ThreadPool, ready, thread_pool_init, init_with, thread_pool_push, thread_pool_queue, called,
}

module _ {ℓ} {A : Type ℓ} where
  module _ (alloc : ℕ → Bool) (in_place : Bool) where
    -- The states behind the unlock of a push, and of a queueing.
    pub thread_pool_push-called :
        (p q : ThreadPool A) (task : A) (success : Bool)
        → thread_pool_push alloc in_place p task ≡ ok (success, q)
        → (queue : Deque ℕ) × (deque_push_back alloc in_place p.queue (some p.next)
            ≡ ok (success, queue))
          × (q ≡ called p task success queue)
    unfolding thread_pool_push
    thread_pool_push-called p q task success run =
        let after : Bool × Deque ℕ → Result (Bool × ThreadPool A) =
          λ r. ok (r.0, called p task r.0 r.1) in
        let ((b, queue), pushed, done) =
          bind-ok (deque_push_back alloc in_place p.queue (some p.next)) after (success, q) run in
        let same = ok_inj done in
        let answer : b ≡ success = ap (λ r. r.0) same in
        (
          queue,
          subst (λ b. deque_push_back alloc in_place p.queue (some p.next) ≡ ok (b, queue)) answer
              pushed,
          sym (ap (λ r. r.1) same) ∙ ap (λ b. called p task b queue) answer,
        )

    pub thread_pool_queue-called :
        (p q : ThreadPool A) (task : A)
        → thread_pool_queue alloc in_place p task ≡ ok q
        → (b : Bool) × (queue : Deque ℕ) × (deque_push_back alloc in_place p.queue (some p.next)
            ≡ ok (b, queue))
          × (q ≡ called p task true queue)
    unfolding thread_pool_queue
    thread_pool_queue-called p q task run =
        let after : Bool × Deque ℕ → Result (ThreadPool A) = λ r. ok (called p task true r.1) in
        let ((b, queue), pushed, done) =
          bind-ok (deque_push_back alloc in_place p.queue (some p.next)) after q run in
        (b, queue, pushed, sym (ok_inj done))

    -- A new pool.
    pub record IsNew (n : ℕ) (p : ThreadPool A) : Type ℓ where
      pub created : create_deque alloc in_place ≡ some p.queue
      pub stop : p.stop ≡ false
      pub threads : p.threads ≡ replicate n ready
      pub calls : p.calls ≡ []
      pub many : 0 < n

    pub init-IsNew :
        (n : ℕ) (p : ThreadPool A) → thread_pool_init alloc in_place n ≡ some p → IsNew n p
    unfolding thread_pool_init init_with
    init-IsNew n p = by_deque n (create_deque alloc in_place) refl
      where
        by_deque :
            (n : ℕ) (o : Option (Deque ℕ))
            → create_deque alloc in_place ≡ o
            → init_with n o ≡ some p
            → IsNew n p
        by_deque n none e made = absurd (cc made)
        by_deque zero (some queue) e made = absurd (cc made)
        by_deque (suc n) (some queue) e made = record {
          created = cc (e, made);
          stop = cc made;
          threads = cc made;
          calls = cc made;
          many = omega arith;
        }
