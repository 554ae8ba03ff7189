-- ===== src/ThreadPool/Turns.antt =====
-- What each turn of a thread pool keeps.
use mathlib.Core.Path.{subst}
use cachetron.Prelude.{
  ℕ, ◌+◌, ◌<◌, ◌≡◌, refl, sym, ap, ◌∙◌, true, false, List, ◌∷◌, ◌++◌, length, count, count-append,
  to_nat, arith,
}
use cachetron.Deque.{Deque, deque_empty}
use cachetron.ThreadPool.{
  Thread, Call, ThreadPool, ready, waiting, running, exited, is_waiting, is_exited, signalled,
}
use cachetron.ThreadPool.{Turn, locks, ends, signal_wakes, signal_lost, returns}
use cachetron.ThreadPool.Steps.{
  is_awake, to_signal, tallies, count_changed, length_changed, Worked, stops, waits, takes,
  worker-Worked,
}

module _ {ℓ} {A : Type ℓ} where
  -- What holds in every state that the pool gets to.
  pub record Sound (p : ThreadPool A) : Type ℓ where
    pub stay : p.stop ≡ false → count is_exited p.threads ≡ 0
    pub leave : p.stop ≡ true → count is_waiting p.threads ≡ 0
    pub woken :
        p.stop ≡ false
        → 0 < length p.threads
        → deque_empty p.queue ≡ false
        → 0 < count to_signal p.calls + count is_awake p.threads

  -- A thread that turns from one awake state, or from waiting, to an awake state.
  pub wakes-Sound :
      (p : ThreadPool A) (pre post : List (Thread A)) (old new : Thread A)
      → p.threads ≡ pre ++ old ∷ post
      → is_exited old ≡ false
      → is_awake new ≡ true
      → is_waiting new ≡ false
      → is_exited new ≡ false
      → Sound p
      → (calls : List (Call A)) (queue : Deque ℕ)
      → Sound (record p { threads = pre ++ new ∷ post; calls = calls; queue = queue })
  wakes-Sound p pre post old new at a b c d v calls queue =
      let w = count_changed is_waiting p.threads pre post old new at in
      let e = count_changed is_exited p.threads pre post old new at in
      let awake = count-append is_awake pre (new ∷ post) in
      record {
        stay = λ s. omega (arith, v.stay s, e, ap to_nat d);
        leave = λ s. omega (arith, v.leave s, w, ap to_nat c);
        woken = λ s n q. omega (arith, awake, ap to_nat b);
      }

  module _ (p : ThreadPool A) (pre post : List (Thread A)) (at : p.threads ≡ pre ++ ready ∷ post)
      (v : Sound p) where
    stops-Sound : p.stop ≡ true → Sound (record p { threads = pre ++ exited ∷ post })
    stops-Sound s =
        let w = count_changed is_waiting p.threads pre post ready exited at in
        record {
          stay = λ s'. absurd (cc (s, s'));
          leave = λ s'. omega (arith, v.leave s, w);
          woken = λ s'. absurd (cc (s, s'));
        }

    waits-Sound :
        p.stop ≡ false
        → deque_empty p.queue ≡ true
        → Sound (record p { threads = pre ++ waiting ∷ post })
    waits-Sound s q =
        let e = count_changed is_exited p.threads pre post ready waiting at in
        record {
          stay = λ s'. omega (arith, v.stay s, e);
          leave = λ s'. absurd (cc (s, s'));
          woken = λ s' n m. absurd (cc (q, m));
        }

    Worked-Sound : (q : ThreadPool A) → Worked p pre post q → Sound q
    Worked-Sound q (stops s e) = subst Sound (sym e) (stops-Sound s)
    Worked-Sound q (waits s m e) = subst Sound (sym e) (waits-Sound s m)
    Worked-Sound q (takes task x queue s m popped e) =
        subst Sound (sym e)
          (wakes-Sound p pre post ready (running task) at refl refl refl refl v p.calls queue)

  lost-Sound :
      (p : ThreadPool A) (calls : List (Call A))
      → count is_waiting p.threads ≡ 0
      → Sound p
      → Sound (record p { calls = calls })
  lost-Sound p calls idle v = record {
    stay = v.stay;
    leave = v.leave;
    woken = λ s n q. omega (arith, v.stay s, tallies p.threads, idle);
  }

  returns-Sound :
      (p : ThreadPool A) (newer older : List (Call A)) (c : Call A)
      → p.calls ≡ newer ++ c ∷ older
      → c.signals ≡ false
      → Sound p
      → Sound (record p { calls = newer ++ older })
  returns-Sound p newer older c at e v = record {
    stay = v.stay;
    leave = v.leave;
    woken = λ s n q. omega (
      arith,
      v.woken s n q,
      ap (count to_signal) at,
      count-append to_signal newer (c ∷ older),
      count-append to_signal newer older,
      ap to_nat e,
    );
  }

  pub Turn-Sound : (p q : ThreadPool A) → Turn p q → Sound p → Sound q
  Turn-Sound _ _ (locks p q pre post at run) v =
      Worked-Sound p pre post at v q (worker-Worked p q pre post run)
  Turn-Sound _ _ (ends p pre post task at) v =
      wakes-Sound p pre post (running task) ready at refl refl refl refl v p.calls p.queue
  Turn-Sound _ _ (signal_wakes p pre post newer older c at e there) v =
      wakes-Sound p pre post waiting ready there refl refl refl refl v
        (newer ++ signalled c ∷ older) p.queue
  Turn-Sound _ _ (signal_lost p newer older c at e idle) v =
      lost-Sound p (newer ++ signalled c ∷ older) idle v
  Turn-Sound _ _ (returns p newer older c at e) v = returns-Sound p newer older c at e v

  pub Turn-length : (p q : ThreadPool A) → Turn p q → length q.threads ≡ length p.threads
  Turn-length _ _ (locks p q pre post at run) = worked (worker-Worked p q pre post run)
    where
      changed :
          (new : Thread A) (r : ThreadPool A)
          → r.threads ≡ pre ++ new ∷ post
          → q ≡ r
          → length q.threads ≡ length p.threads
      changed new r there e =
          ap (λ r. length r.threads) e
          ∙ ap (λ l. length l) there
          ∙ length_changed p.threads pre post ready new at

      worked : Worked p pre post q → length q.threads ≡ length p.threads
      worked (stops s e) = changed exited _ refl e
      worked (waits s m e) = changed waiting _ refl e
      worked (takes task x queue s m popped e) = changed (running task) _ refl e
  Turn-length _ _ (ends p pre post task at) =
      length_changed p.threads pre post (running task) ready at
  Turn-length _ _ (signal_wakes p pre post newer older c at e there) =
      length_changed p.threads pre post waiting ready there
  Turn-length _ _ (signal_lost p newer older c at e idle) = refl
  Turn-length _ _ (returns p newer older c at e) = refl
