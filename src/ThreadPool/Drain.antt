-- ===== src/ThreadPool/Drain.antt =====
-- When a pool is destroyed, its threads end, and none of them reads the deque any more.
use mathlib.Core.Path.{subst}
use cachetron.Prelude.{
  ℕ, suc, ◌+◌, ◌*◌, ◌≤◌, ◌<◌, ◌≡◌, refl, sym, ap, ◌∙◌, Bool, true, false, Bool-cases, inl, inr, ◌⊎◌,
  some, List, [], ◌∷◌, ◌++◌,
}
use cachetron.Prelude.{length, count, to_nat, ltb, ltb→lt, ltb-false, arith}
use cachetron.Prelude.Result.{ok_inj}
use cachetron.ThreadPool.{
  Thread, Call, ThreadPool, ready, waiting, running, exited, thread_pool_init, is_exited, signalled,
}
use cachetron.ThreadPool.{Turn, Reach, locks, ends, signal_wakes, signal_lost, returns}
use cachetron.ThreadPool.Steps.{is_awake, tallies, worker_stops}
use cachetron.ThreadPool.Turns.{Sound, Turn-Sound, Turn-length}
use cachetron.ThreadPool.Wake.{pool-Sound, pool-length}

one_at_most : (b : Bool) → to_nat b ≤ 1
one_at_most true = omega arith
one_at_most false = omega arith

module _ {ℓ} {A : Type ℓ} where
  -- The turns that a thread may still make once `stop` is set.
  weight : Thread A → ℕ
  weight ready = 1
  weight waiting = 2
  weight (running task) = 2
  weight exited = 0

  weigh : List (Thread A) → ℕ
  weigh [] = 0
  weigh (t ∷ ts) = weight t + weigh ts

  weigh-append : (xs ys : List (Thread A)) → weigh (xs ++ ys) ≡ weigh xs + weigh ys
  unfolding weigh
  weigh-append [] ys = omega arith
  weigh-append (x ∷ xs) ys = omega (arith, weigh-append xs ys)

  weigh_changed :
      (ts pre post : List (Thread A)) (old new : Thread A)
      → ts ≡ pre ++ old ∷ post
      → weigh (pre ++ new ∷ post) + weight old ≡ weigh ts + weight new
  unfolding weigh
  weigh_changed ts pre post old new at =
      omega (arith, weigh-append pre (old ∷ post), weigh-append pre (new ∷ post), ap weigh at)

  weigh_most : (ts : List (Thread A)) → weigh ts ≤ 2 * length ts
  unfolding weigh weight
  weigh_most [] = omega arith
  weigh_most (ready ∷ ts) = omega (arith, weigh_most ts)
  weigh_most (waiting ∷ ts) = omega (arith, weigh_most ts)
  weigh_most (running task ∷ ts) = omega (arith, weigh_most ts)
  weigh_most (exited ∷ ts) = omega (arith, weigh_most ts)

  -- The turns that the calls may still make: a signal, and the return.
  owed : List (Call A) → ℕ
  owed [] = 0
  owed (c ∷ calls) = suc (to_nat c.signals) + owed calls

  owed-append : (xs ys : List (Call A)) → owed (xs ++ ys) ≡ owed xs + owed ys
  unfolding owed
  owed-append [] ys = omega arith
  owed-append (c ∷ calls) ys = omega (arith, owed-append calls ys)

  owed_most : (calls : List (Call A)) → owed calls ≤ 2 * length calls
  unfolding owed
  owed_most [] = omega arith
  owed_most (c ∷ calls) = omega (arith, one_at_most c.signals, owed_most calls)

  signals_less :
      (calls newer older : List (Call A)) (c : Call A)
      → calls ≡ newer ++ c ∷ older
      → c.signals ≡ true
      → suc (owed (newer ++ signalled c ∷ older)) ≡ owed calls
  unfolding owed
  signals_less calls newer older c at e = omega (
    arith,
    ap owed at,
    owed-append newer (c ∷ older),
    owed-append newer (signalled c ∷ older),
    ap to_nat e,
  )

  returns_less :
      (calls newer older : List (Call A)) (c : Call A)
      → calls ≡ newer ++ c ∷ older
      → owed (newer ++ older) < owed calls
  unfolding owed
  returns_less calls newer older c at =
      omega (arith, ap owed at, owed-append newer (c ∷ older), owed-append newer older)

  -- A turn of a pool that is told to stop uses one up.
  record Less (p q : ThreadPool A) : Type ℓ where
    pub stop : q.stop ≡ true
    pub less : owed q.calls + weigh q.threads < owed p.calls + weigh p.threads

  Turn-Less : (p q : ThreadPool A) → Turn p q → p.stop ≡ true → Less p q
  unfolding weight
  Turn-Less _ _ (locks p q pre post at run) s =
      subst (Less p) (ok_inj (sym (worker_stops p pre post s) ∙ run)) (record {
        stop = s;
        less = omega (arith, weigh_changed p.threads pre post ready exited at);
      })
  Turn-Less _ _ (ends p pre post task at) s = record {
    stop = s;
    less = omega (arith, weigh_changed p.threads pre post (running task) ready at);
  }
  Turn-Less _ _ (signal_wakes p pre post newer older c at e there) s = record {
    stop = s;
    less = omega (
      arith,
      weigh_changed p.threads pre post waiting ready there,
      signals_less p.calls newer older c at e,
    );
  }
  Turn-Less _ _ (signal_lost p newer older c at e idle) s = record {
    stop = s;
    less = omega (arith, signals_less p.calls newer older c at e);
  }
  Turn-Less _ _ (returns p newer older c at e) s = record {
    stop = s;
    less = omega (arith, returns_less p.calls newer older c at);
  }

  -- A run of turns.
  pub data Turns (p : ThreadPool A) : ℕ → ThreadPool A → Type ℓ where
    start : Turns p 0 p
    again : (k : ℕ) (q r : ThreadPool A) → Turns p k q → Turn q r → Turns p (suc k) r

  record Draining (p : ThreadPool A) (k : ℕ) (q : ThreadPool A) : Type ℓ where
    pub sound : Sound q
    pub stop : q.stop ≡ true
    pub used : k + (owed q.calls + weigh q.threads) ≤ owed p.calls + weigh p.threads
    pub same : length q.threads ≡ length p.threads

  Turns-Draining :
      (p : ThreadPool A) (k : ℕ) (q : ThreadPool A)
      → Turns p k q
      → Sound p
      → p.stop ≡ true
      → Draining p k q
  Turns-Draining p _ _ start v s = record { sound = v; stop = s; used = omega arith; same = refl }
  Turns-Draining p _ _ (again k q r run t) v s =
      let d = Turns-Draining p k q run v s in
      let l = Turn-Less q r t d.stop in
      record {
        sound = Turn-Sound q r t d.sound;
        stop = l.stop;
        used = omega (arith, d.used, l.less);
        same = Turn-length q r t ∙ d.same;
      }

  -- A thread that passes the test, where some do.
  find_thread :
      (f : Thread A → Bool) (ts : List (Thread A))
      → 0 < count f ts
      → (pre : List (Thread A)) × (t : Thread A) × (post : List (Thread A)) × (ts ≡ pre ++ t ∷ post)
        × (f t ≡ true)
  find_thread f [] some_in = absurd (omega arith)
  find_thread f (t ∷ ts) some_in = elim (Bool-cases (f t)) [
    | inl e ↦ ([], t, ts, refl, e)
    | inr e ↦
        let (pre, u, post, at, passes) = find_thread f ts (omega (arith, ap to_nat e)) in
        (t ∷ pre, u, post, ap (λ l. t ∷ l) at, passes)
  ]

  -- In a pool that is told to stop, a thread that is awake can make a turn.
  Turn-awake :
      (p : ThreadPool A) (pre post : List (Thread A)) (t : Thread A)
      → p.stop ≡ true
      → p.threads ≡ pre ++ t ∷ post
      → is_awake t ≡ true
      → (q : ThreadPool A) × Turn p q
  Turn-awake p pre post ready s at e =
      let q = record p { threads = pre ++ exited ∷ post } in
      (q, locks p q pre post at (worker_stops p pre post s))
  Turn-awake p pre post (running task) s at e =
      (record p { threads = pre ++ ready ∷ post }, ends p pre post task at)
  Turn-awake p pre post waiting s at e = absurd (cc e)
  Turn-awake p pre post exited s at e = absurd (cc e)

  ends_or_turns :
      (p : ThreadPool A)
      → Sound p
      → p.stop ≡ true
      → (count is_exited p.threads ≡ length p.threads) ⊎ ((q : ThreadPool A) × Turn p q)
  ends_or_turns p v s = elim (Bool-cases (ltb 0 (count is_awake p.threads))) [
    | inl some_in ↦
        let (pre, t, post, at, awake) = find_thread is_awake p.threads (ltb→lt _ _ some_in) in
        inr (Turn-awake p pre post t s at awake)
    | inr none_in ↦ inl (omega (arith, ltb-false _ _ none_in, v.leave s, tallies p.threads))
  ]

  -- Once `stop` is set in a state that a new pool of `n` threads gets to, each run of turns is at most
  -- twice as long as there are threads and calls under way; where it can not go on, all threads are
  -- gone. So the joins of `thread_pool_destroy` return if each task ends.
  pub Reach-stops :
      (alloc : ℕ → Bool) (in_place : Bool) (n : ℕ) (p q : ThreadPool A) (k : ℕ) (r : ThreadPool A)
      → thread_pool_init alloc in_place n ≡ some p
      → Reach alloc in_place p q
      → q.stop ≡ true
      → Turns q k r
      → (k ≤ 2 * length q.calls + 2 * n)
        × ((count is_exited r.threads ≡ n) ⊎ ((s : ThreadPool A) × Turn r s))
  Reach-stops alloc in_place n p q k r made to s run =
      let d = Turns-Draining q k r run (pool-Sound alloc in_place n p q made to) s in
      let all = pool-length alloc in_place n p q made to in
      (
        omega (arith, d.used, weigh_most q.threads, owed_most q.calls, all),
        elim (ends_or_turns r d.sound d.stop) [ inl e ↦ inl (e ∙ d.same ∙ all) | inr t ↦ inr t ],
      )
