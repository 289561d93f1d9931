-- ===== src/Worker/Thread.antt =====
-- The life of a worker's thread in worker.cpp: `start`, `stop`, `join` and `is_running` by the owner, and
-- the thread's own steps through `worker_loop`, on the two atomic flags.
use ngfwtraffic_gen.Common.{Bool, true, false, Option, none, some, if◌then◌else◌}

-- What `worker_thread_` points to: nothing, a thread that has not begun `worker_loop`, one in its loop, one
-- behind the loop, one that has returned, or one that was joined.
pub data Phase : Type 0 where
  absent spawned looping leaving returned joined : Phase

pub record Lifecycle : Type 0 where
  pub running : Bool
  pub should_stop : Bool
  pub worker_thread : Phase

abbrev pub new_worker : Lifecycle
new_worker = record { running = false; should_stop = false; worker_thread = absent }

-- `worker_thread_ && worker_thread_->joinable()`.
abbrev pub joinable : Phase → Bool
joinable absent = false
joinable joined = false
joinable spawned = true
joinable looping = true
joinable leaving = true
joinable returned = true

-- The new thread takes the place of the old one; a `std::thread` that is destroyed while it is joinable
-- ends the program, which is `none`.
unfoldable pub start : Lifecycle → Option (Lifecycle × Bool)
start s =
    if s.running
    then some (s, true)
    else if joinable s.worker_thread
    then none
    else some (record { running = true; should_stop = false; worker_thread = spawned }, true)

unfoldable pub stop : Lifecycle → Lifecycle
stop s = record s { should_stop = true }

-- Whether a join does not wait: there is nothing to wait for, or the thread has returned.
abbrev pub can_join : Phase → Bool
can_join returned = true
can_join absent = true
can_join joined = true
can_join _ = false

abbrev pub after_join : Phase → Phase
after_join returned = joined
after_join p = p

-- `none` while it waits.
unfoldable pub join : Lifecycle → Option Lifecycle
join s =
    if can_join s.worker_thread
    then some (record s { running = false; worker_thread = after_join s.worker_thread })
    else none

unfoldable pub is_running : Lifecycle → Bool
is_running s = s.running

-- The next step of the thread. `usable` says that it can be registered and has a memory pool; a round of
-- the loop ends, and a thread that has returned makes no step.
unfoldable pub thread_step_at : Bool → Phase → Lifecycle → Lifecycle
thread_step_at usable spawned s =
    if usable
    then record s { worker_thread = looping }
    else record s { running = false; worker_thread = returned }
thread_step_at usable looping s = if s.should_stop then record s { worker_thread = leaving } else s
thread_step_at usable leaving s = record s { running = false; worker_thread = returned }
thread_step_at usable absent s = s
thread_step_at usable returned s = s
thread_step_at usable joined s = s

unfoldable pub thread_step : Bool → Lifecycle → Lifecycle
unfolding thread_step_at
thread_step usable s = thread_step_at usable s.worker_thread s
