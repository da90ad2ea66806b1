-- ===== src/Scheduler.antt =====
-- scheduler/scheduler.cpp: how `IOSubmit` hands functions to `IOSubmitThread`, and how `Stop` ends that
-- thread, one access of shared state at a time. `ioQueue_` is the `LFQueue`, oldest first, which may lose
-- what is pushed (LfQueue/Loss), and a function is named by its number. Memory is taken as sequentially consistent.
pub mod Watched
pub mod Wakeup
pub mod Order
pub mod Stopping
pub mod Handover
pub mod IoWait
pub mod Starting
mod Tests
use uring_fiber.Prelude.{
  ℕ, Bool, true, false, List, [], ◌∷◌, ◌++◌, if◌then◌else◌, update, drop_nth, only_nth,
}

-- Where `IOSubmitThread` stands, with the function it has popped.
pub data ThreadPc : Type 0 where
  loop_head : ThreadPc  -- `while(!stop_)`
  first_pop : ThreadPc
  wait_lock : ThreadPc  -- before `lock(ioWaitMutex_)`
  set_wait : ThreadPc  -- before `ioWait_=true`
  second_pop : ThreadPc
  clear_wait : (f : ℕ) → ThreadPc  -- before `ioWait_=false`
  leave_run : (f : ℕ) → ThreadPc  -- the lock's scope ends, with a function to run
  wait_test : ThreadPc  -- the predicate of `ioWaitCond_.wait`, the mutex being held
  asleep : ThreadPc  -- blocked in it, the mutex being free
  woken : ThreadPc  -- about to lock the mutex again
  leave_loop : ThreadPc  -- `continue`: the lock's scope ends
  execute : (f : ℕ) → ThreadPc  -- before `(*ioFuncPtr)(ioEngine_)`
  ended : ThreadPc

-- Where a caller of `IOSubmit` or `Stop` stands.
pub data CallerPc : Type 0 where
  outside : CallerPc
  submit_push : (f : ℕ) → CallerPc  -- start of `IOSubmit`
  submit_test : CallerPc  -- before its read of `ioWait_`
  stop_store : CallerPc  -- start of `Stop`
  wake_lock : CallerPc  -- start of `WakeUpIOSubmit`
  wake_test : CallerPc  -- before the read of `ioWait_`
  wake_clear : CallerPc  -- before `ioWait_=false`
  wake_notify : CallerPc
  wake_unlock : CallerPc

-- Who holds `ioWaitMutex_`.
pub data Owner : Type 0 where
  nobody : Owner
  the_thread : Owner
  caller : (i : ℕ) → Owner

-- The fields of `Scheduler` that submission uses, where everyone stands, and what has been pushed and
-- executed so far; `lost` is what the queue has lost.
pub record Scheduler : Type 0 where
  pub stop : Bool
  pub io_queue : List ℕ
  pub io_wait : Bool
  pub owner : Owner
  pub thread : ThreadPc
  pub callers : ℕ → CallerPc
  pub pushed : List ℕ
  pub lost : List ℕ
  pub executed : List ℕ

abbrev pub start : Scheduler
start = record {
  stop = false;
  io_queue = [];
  io_wait = false;
  owner = nobody;
  thread = loop_head;
  callers = λ _. outside;
  pushed = [];
  lost = [];
  executed = [];
}

abbrev pub thread_to : ThreadPc → Scheduler → Scheduler
thread_to p s = record s { thread = p }

abbrev pub caller_to : ℕ → CallerPc → Scheduler → Scheduler
caller_to i p s = record s { callers = update s.callers i p }

-- Lock the mutex and go on with `t`; who finds it held stays where it is.
unfoldable pub acquire : Owner → Owner → (Scheduler → Scheduler) → Scheduler → Scheduler
acquire who nobody t s = t (record s { owner = who })
acquire who the_thread t s = s
acquire who (caller i) t s = s

-- `ioQueue_.pop()`: with a function go to `some_found f`, with null to `none_found`.
unfoldable pub pop_queue : List ℕ → ThreadPc → (ℕ → ThreadPc) → Scheduler → Scheduler
pop_queue [] none_found some_found s = thread_to none_found s
pop_queue (f ∷ fs) none_found some_found s = record s { io_queue = fs; thread = some_found f }

-- `IOSubmitThread`
unfoldable pub thread_step : ThreadPc → Scheduler → Scheduler
unfolding acquire pop_queue
thread_step loop_head s = if s.stop then thread_to ended s else thread_to first_pop s
thread_step first_pop s = pop_queue s.io_queue wait_lock execute s
thread_step wait_lock s = acquire the_thread s.owner (thread_to set_wait) s
thread_step set_wait s = record s { io_wait = true; thread = second_pop }
thread_step second_pop s = pop_queue s.io_queue wait_test clear_wait s
thread_step (clear_wait f) s = record s { io_wait = false; thread = leave_run f }
thread_step (leave_run f) s = record s { owner = nobody; thread = execute f }
thread_step wait_test s =
    if s.io_wait then record s { owner = nobody; thread = asleep } else thread_to leave_loop s
thread_step asleep s = s
thread_step woken s = acquire the_thread s.owner (thread_to wait_test) s
thread_step leave_loop s = record s { owner = nobody; thread = loop_head }
thread_step (execute f) s = record s { executed = s.executed ++ f ∷ []; thread = loop_head }
thread_step ended s = s

-- `notify_one`, or a wake-up for no reason: the only thread that may wait is `IOSubmitThread`.
unfoldable pub notified : ThreadPc → ThreadPc
notified asleep = woken
notified p = p

-- `Stop` sets `stop_`; of what follows, `WakeUpIOSubmit` concerns this thread.
abbrev pub stop_stored : ℕ → Scheduler → Scheduler
stop_stored i s = caller_to i wake_lock (record s { stop = true })

-- `IOSubmit`, `Stop` and `WakeUpIOSubmit`, which both call. What `ioQueue_.push` adds may be lost later (`lose`).
unfoldable pub caller_step : ℕ → CallerPc → Scheduler → Scheduler
unfolding acquire notified
caller_step i outside s = s
caller_step i (submit_push f) s =
    caller_to i submit_test
      (record s { io_queue = s.io_queue ++ f ∷ []; pushed = s.pushed ++ f ∷ [] })
caller_step i submit_test s = caller_to i (if s.io_wait then wake_lock else outside) s
caller_step i stop_store s = stop_stored i s
caller_step i wake_lock s = acquire (caller i) s.owner (caller_to i wake_test) s
caller_step i wake_test s = caller_to i (if s.io_wait then wake_clear else wake_unlock) s
caller_step i wake_clear s = caller_to i wake_notify (record s { io_wait = false })
caller_step i wake_notify s = caller_to i wake_unlock (record s { thread = notified s.thread })
caller_step i wake_unlock s = caller_to i outside (record s { owner = nobody })

-- A call begins where its caller is outside of both functions.
unfoldable pub enter : ℕ → CallerPc → CallerPc → Scheduler → Scheduler
enter i outside p s = caller_to i p s
enter i _ p s = s

-- A push that another one overtakes stores its function in a node that is out of the queue: of those that
-- were pushed and not popped, the `n`th is lost.
unfoldable pub lose : ℕ → Scheduler → Scheduler
lose n s = record s { io_queue = drop_nth n s.io_queue; lost = s.lost ++ only_nth n s.io_queue }

pub data Move : Type 0 where
  thread_moves : Move
  wakes_up : Move  -- for no reason, as a condition variable may
  caller_moves : (i : ℕ) → Move
  submits : (i f : ℕ) → Move
  loses : (n : ℕ) → Move
  stops : (i : ℕ) → Move

unfoldable pub move : Move → Scheduler → Scheduler
unfolding thread_step caller_step enter notified lose
move thread_moves s = thread_step s.thread s
move wakes_up s = thread_to (notified s.thread) s
move (caller_moves i) s = caller_step i (s.callers i) s
move (submits i f) s = enter i (s.callers i) (submit_push f) s
move (loses n) s = lose n s
move (stops i) s = enter i (s.callers i) stop_store s

-- A run: the moves in their order, from any state.
unfoldable pub run : List Move → Scheduler → Scheduler
unfolding move
run [] s = s
run (m ∷ ms) s = run ms (move m s)
