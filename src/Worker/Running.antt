-- ===== src/Worker/Running.antt =====
-- The owner and the thread of worker.cpp, in any interleaving.
use ngfwtraffic_gen.Common.{◌≡◌, ◌↔◌, refl, Bool, true, false, none, some, arith}
use ngfwtraffic_gen.Worker.Thread.{
  Phase, absent, spawned, looping, leaving, returned, joined, Lifecycle, new_worker, start, stop,
  join, is_running, thread_step,
}

-- One step of the owner or of the thread.
pub data Step : Lifecycle → Lifecycle → Type 0 where
  starts : (s t : Lifecycle) (b : Bool) → start s ≡ some (t, b) → Step s t
  stops : (s : Lifecycle) → Step s (stop s)
  joins : (s t : Lifecycle) → join s ≡ some t → Step s t
  runs : (s : Lifecycle) (usable : Bool) → Step s (thread_step usable s)

pub data Reach : Lifecycle → Type 0 where
  begin : Reach new_worker
  next : {s t : Lifecycle} → Reach s → Step s t → Reach t

-- The thread has not returned yet.
abbrev pub alive : Phase → Bool
alive spawned = true
alive looping = true
alive leaving = true
alive absent = false
alive returned = false
alive joined = false

abbrev Agrees : Lifecycle → Type 0
Agrees s = s.running ≡ alive s.worker_thread

start-Agrees :
    (r q : Bool) (p : Phase) (t : Lifecycle) (b : Bool)
    → r ≡ alive p
    → start (record { running = r; should_stop = q; worker_thread = p }) ≡ some (t, b)
    → Agrees t
unfolding start
start-Agrees r q p t b h e = ground arith

join-Agrees :
    (r q : Bool) (p : Phase) (t : Lifecycle)
    → join (record { running = r; should_stop = q; worker_thread = p }) ≡ some t
    → Agrees t
unfolding join
join-Agrees r q p t e = ground arith

thread_step-Agrees :
    (usable r q : Bool) (p : Phase)
    → r ≡ alive p
    → Agrees (thread_step usable (record { running = r; should_stop = q; worker_thread = p }))
unfolding thread_step
thread_step-Agrees usable r q p h = ground arith

Step-Agrees : {s t : Lifecycle} → Step s t → Agrees s → Agrees t
unfolding stop
Step-Agrees (starts s t b e) h = start-Agrees s.running s.should_stop s.worker_thread t b h e
Step-Agrees (stops s) h = h
Step-Agrees (joins s t e) h = join-Agrees s.running s.should_stop s.worker_thread t e
Step-Agrees (runs s usable) h = thread_step-Agrees usable s.running s.should_stop s.worker_thread h

-- After any steps, `is_running` says whether the thread has not returned yet.
pub Reach-is_running : {s : Lifecycle} → Reach s → is_running s ≡ alive s.worker_thread
unfolding is_running
Reach-is_running begin = refl
Reach-is_running (next r st) = Step-Agrees st (Reach-is_running r)

-- The worker has ended, and can be started.
abbrev Ends : Lifecycle → Type 0
Ends s =
    (t : Lifecycle) × (join s ≡ some t)
    × (is_running t ≡ false)
    × (start t
        ≡ some (record { running = true; should_stop = false; worker_thread = spawned }, true))

stopped-Ends :
    (a b c r : Bool) (p : Phase)
    → r ≡ alive p
    → Ends (
        thread_step c (
          thread_step b
            (thread_step a (record { running = r; should_stop = true; worker_thread = p }))))
unfolding join is_running start thread_step
stopped-Ends a b c r absent h = (_, refl, refl, refl)
stopped-Ends true b c r spawned h = (_, refl, refl, refl)
stopped-Ends false b c r spawned h = (_, refl, refl, refl)
stopped-Ends a b c r looping h = (_, refl, refl, refl)
stopped-Ends a b c r leaving h = (_, refl, refl, refl)
stopped-Ends a b c r returned h = (_, refl, refl, refl)
stopped-Ends a b c r joined h = (_, refl, refl, refl)

-- After any steps and a `stop`, three steps of the thread are enough for `join` to return; the worker does
-- not run then, and `start` starts it again.
pub stop-join :
    (a b c : Bool) {s : Lifecycle}
    → Reach s
    → (t : Lifecycle) × (join (thread_step c (thread_step b (thread_step a (stop s)))) ≡ some t)
      × (is_running t ≡ false)
      × (start t
          ≡ some (record { running = true; should_stop = false; worker_thread = spawned }, true))
unfolding stop is_running
stop-join a b c {s = s} r = stopped-Ends a b c s.running s.worker_thread (Reach-is_running r)

start_aborts_at :
    (r q : Bool) (p : Phase)
    → r ≡ alive p
    → (start (record { running = r; should_stop = q; worker_thread = p }) ≡ none) ↔ (p ≡ returned)
unfolding start
start_aborts_at r q absent h = ground arith
start_aborts_at r q spawned h = ground arith
start_aborts_at r q looping h = ground arith
start_aborts_at r q leaving h = ground arith
start_aborts_at r q returned h = ground arith
start_aborts_at r q joined h = ground arith

-- After any steps of a worker's owner and thread, `start` ends the program exactly when the thread
-- has returned and was not joined.
pub Reach-start_aborts : {s : Lifecycle} → Reach s → (start s ≡ none) ↔ (s.worker_thread ≡ returned)
unfolding is_running
Reach-start_aborts {s = s} r =
    start_aborts_at s.running s.should_stop s.worker_thread (Reach-is_running r)
