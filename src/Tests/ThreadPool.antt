-- ===== src/Tests/ThreadPool.antt =====
-- A pool of one thread.
use cachetron.Prelude.{
  ℕ, ◌+◌, ◌*◌, ◌^◌, ◌<◌, ◌≤◌, ◌≡◌, refl, Bool, true, false, some, [], ◌∷◌, arith, count, length,
  ◌⊎◌, ltb, ltb→lt, replicate, ◌-◌, none,
}
use cachetron.Prelude.Result.{ok, fault, use_after_free}
use cachetron.Deque.{Deque, deque_empty, create_deque, deque_push_back}
use cachetron.ThreadPool.{
  ThreadPool, Call, ready, exited, Turn, Reach, locks, returns, signal_lost, turns, queues, pushes,
  destroys, here, next, worker, called, signalled,
}
use cachetron.ThreadPool.{
  thread_pool_init, thread_pool_push, thread_pool_queue, thread_pool_destroy, is_exited,
}
use cachetron.ThreadPool.Steps.{is_awake, to_signal, worker_stops}
use cachetron.ThreadPool.Wake.{Reach-woken}
use cachetron.ThreadPool.Drain.{Turns, start, again, Reach-stops}
use cachetron.ThreadPool.Dangling.{Reach-dangling}

abbrev alloc : ℕ → Bool
alloc n = ltb n 100

alloc_small : (n : ℕ) → alloc n ≡ true → n < 2 ^ 63
alloc_small n given = omega (arith, ltb→lt n 100 given)

abbrev empty_queue : Deque ℕ
empty_queue = record {
  capacity = 16;
  size = 0;
  front = 2 ^ 64 - 1;
  back = 2 ^ 64 - 1;
  cells = replicate 16 none;
}

abbrev fresh : ThreadPool ℕ
fresh = record { queue = empty_queue; stop = false; threads = ready ∷ []; calls = []; next = 0 }

fresh_made : thread_pool_init alloc false 1 ≡ some fresh
unfolding thread_pool_init create_deque
fresh_made = refl

-- The deque that holds the address 0.
abbrev one_queue : Deque ℕ
one_queue = record {
  capacity = 16;
  size = 1;
  front = 0;
  back = 0;
  cells = some 0 ∷ replicate 15 none;
}

abbrev queued : ThreadPool ℕ
queued = called fresh 7 true one_queue

fresh-queued : thread_pool_queue alloc false fresh 7 ≡ ok queued
unfolding thread_pool_queue deque_push_back
fresh-queued = refl

fresh-pushed : thread_pool_push alloc false fresh 7 ≡ ok (true, queued)
unfolding thread_pool_push deque_push_back
fresh-pushed = refl

to_pushed : Reach alloc false fresh queued
to_pushed = next fresh queued here (pushes fresh queued 7 true fresh-pushed)

some_queued : deque_empty one_queue ≡ false
unfolding deque_empty
some_queued = refl

Reach-woken_example : 0 < count to_signal queued.calls + count is_awake queued.threads
Reach-woken_example = Reach-woken alloc false 1 fresh queued fresh_made to_pushed refl some_queued

-- The call signals, where no thread waits yet, and returns.
abbrev left_over : ThreadPool ℕ
left_over = record queued { calls = [] }

to_left_over : Reach alloc false fresh left_over
to_left_over =
    let c : Call ℕ = record { frame = 0; task = 7; signals = true } in
    let told : ThreadPool ℕ = record queued { calls = signalled c ∷ [] } in
    next told left_over
      (next queued told (next fresh queued here (queues fresh queued 7 fresh-queued))
        (turns queued told (signal_lost queued [] [] c refl refl refl)))
      (turns told left_over (returns told [] [] (signalled c) refl refl))

Reach-dangling_example : worker left_over [] [] ≡ fault use_after_free
Reach-dangling_example =
    Reach-dangling alloc alloc_small 1 fresh left_over [] [] fresh_made to_left_over refl
      some_queued refl

abbrev over : ThreadPool ℕ
over = thread_pool_destroy queued

to_over : Reach alloc false fresh over
to_over = next queued over to_pushed (destroys queued)

over_stops : over.stop ≡ true
unfolding thread_pool_destroy
over_stops = refl

abbrev ended : ThreadPool ℕ
ended = record over { threads = exited ∷ [] }

last_turn : Turns over 1 ended
unfolding thread_pool_destroy
last_turn =
    again 0 over ended start (locks over ended [] [] refl (worker_stops over [] [] over_stops))

Reach-stops_example :
    (1 ≤ 2 * length over.calls + 2 * 1)
    × ((count is_exited ended.threads ≡ 1) ⊎ ((s : ThreadPool ℕ) × Turn ended s))
Reach-stops_example =
    Reach-stops alloc false 1 fresh over 1 ended fresh_made to_over over_stops last_turn
