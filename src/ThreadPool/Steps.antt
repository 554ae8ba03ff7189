-- ===== src/ThreadPool/Steps.antt =====
-- Tallies of threads and of calls, and the runs of `worker`.
use cachetron.Prelude.{ℕ, ◌+◌, ◌≡◌, refl, sym, ap, Bool, true, false, Option, List, [], ◌∷◌, ◌++◌}
use cachetron.Prelude.{length, length-append, count, count-append, map, to_nat, arith}
use cachetron.Prelude.{inl, inr, Bool-cases, if_true, if_false}
use cachetron.Prelude.Result.{ok, deref, ok_inj, bind-ok, ◌>>=◌}
use cachetron.Deque.{Deque, deque_empty, deque_front, deque_pop_front}
use cachetron.ThreadPool.{
  Thread, Call, ThreadPool, ready, waiting, running, exited, worker, take_task, read_task, wake,
  is_waiting, is_exited,
}

module _ {ℓ} {A : Type ℓ} where
  -- The threads that are neither waiting nor gone.
  abbrev pub is_awake : Thread A → Bool
  is_awake ready = true
  is_awake waiting = false
  is_awake (running task) = true
  is_awake exited = false

  pub tallies :
      (ts : List (Thread A))
      → count is_awake ts + count is_waiting ts + count is_exited ts ≡ length ts
  tallies [] = omega arith
  tallies (ready ∷ ts) = omega (arith, tallies ts)
  tallies (waiting ∷ ts) = omega (arith, tallies ts)
  tallies (running task ∷ ts) = omega (arith, tallies ts)
  tallies (exited ∷ ts) = omega (arith, tallies ts)

  -- The calls whose signal is still to come.
  abbrev pub to_signal : Call A → Bool
  to_signal c = c.signals

  -- The tallies of a list with one thread in another state.
  module _ (f : Thread A → Bool) (ts pre post : List (Thread A)) (old new : Thread A)
      (at : ts ≡ pre ++ old ∷ post) where
    pub count_changed : count f (pre ++ new ∷ post) + to_nat (f old) ≡ count f ts + to_nat (f new)
    count_changed =
        omega
          (arith, count-append f pre (old ∷ post), count-append f pre (new ∷ post), ap (count f) at)

  pub length_changed :
      (ts pre post : List (Thread A)) (old new : Thread A)
      → ts ≡ pre ++ old ∷ post
      → length (pre ++ new ∷ post) ≡ length ts
  length_changed ts pre post old new at =
      omega (
        arith,
        length-append pre (old ∷ post),
        length-append pre (new ∷ post),
        ap (λ l. length l) at,
      )

  pub none_waiting : (ts : List (Thread A)) → count is_waiting (map wake ts) ≡ 0
  none_waiting [] = refl
  none_waiting (ready ∷ ts) = omega (arith, none_waiting ts)
  none_waiting (waiting ∷ ts) = omega (arith, none_waiting ts)
  none_waiting (running task ∷ ts) = omega (arith, none_waiting ts)
  none_waiting (exited ∷ ts) = omega (arith, none_waiting ts)

  -- The runs of `worker`.
  pub worker_stops :
      (p : ThreadPool A) (pre post : List (Thread A))
      → p.stop ≡ true
      → worker p pre post ≡ ok (record p { threads = pre ++ exited ∷ post })
  unfolding worker
  worker_stops p pre post s = rw s refl

  -- The ways in which a run of `worker` ends well.
  pub data Worked (p : ThreadPool A) (pre post : List (Thread A)) (q : ThreadPool A) : Type ℓ where
    stops : p.stop ≡ true → q ≡ record p { threads = pre ++ exited ∷ post } → Worked p pre post q
    waits :
        p.stop ≡ false
        → deque_empty p.queue ≡ true
        → q ≡ record p { threads = pre ++ waiting ∷ post }
        → Worked p pre post q
    takes :
        (task : A) (x : Option ℕ) (queue : Deque ℕ)
        → p.stop ≡ false
        → deque_empty p.queue ≡ false
        → deque_pop_front p.queue ≡ ok (x, queue)
        → q ≡ record p { queue = queue; threads = pre ++ running task ∷ post }
        → Worked p pre post q

  pub worker-Worked :
      (p q : ThreadPool A) (pre post : List (Thread A))
      → worker p pre post ≡ ok q
      → Worked p pre post q
  unfolding worker take_task
  worker-Worked p q pre post run = elim (Bool-cases p.stop) [
    | inl s ↦ stops s (sym (ok_inj (if_true p.stop _ _ (ok q) s run)))
    | inr s ↦
        let on = if_false p.stop _ _ (ok q) s run in
        elim (Bool-cases (deque_empty p.queue)) [
          | inl e ↦ waits s e (sym (ok_inj (if_true (deque_empty p.queue) _ _ (ok q) e on)))
          | inr e ↦
              let after = λ (task : A) (r : Option ℕ × Deque ℕ).
                ok (record p { queue = r.1; threads = pre ++ running task ∷ post }) in
              let pop = λ (task : A). deque_pop_front p.queue >>= after task in
              let read = λ (frame : ℕ). read_task frame p.calls >>= pop in
              let run0 = if_false (deque_empty p.queue) _ _ (ok q) e on in
              let (x, _, run1) = bind-ok (deque_front p.queue) (λ x. deref x >>= read) q run0 in
              let (frame, _, run2) = bind-ok (deref x) read q run1 in
              let (task, _, run3) = bind-ok (read_task frame p.calls) pop q run2 in
              let ((y, queue), popped, run4) =
                bind-ok (deque_pop_front p.queue) (after task) q run3 in
              takes task y queue s e popped (sym (ok_inj run4))
        ]
  ]
