-- ===== src/Processer/Waiting.antt =====
-- processer/processer.cpp: how the thread of a `Processer` sleeps in `Wait`, and how `AddTask`, `Steal` and
-- `Stop` of other threads meet it, one access of shared state at a time. `runnableQueue_` is the `LFQueue`,
-- oldest first, which may lose what is pushed (LfQueue/Loss). Memory is taken as sequentially consistent.
pub mod Watched
pub mod Wakeup
pub mod Kept
pub mod Ended
use uring_fiber.Prelude.{
  ℕ, Bool, true, false, List, [], ◌∷◌, ◌++◌, if◌then◌else◌, update, drop_nth, only_nth,
}

-- Where the thread of `Start` stands, with the task that it has popped.
pub data StartPc : Type 0 where
  begin : StartPc  -- before `status_=Status::running`
  loop_head : StartPc  -- `while(!stop_)`
  first_pop : StartPc
  wait_lock : StartPc  -- start of `Wait`
  set_waiting : StartPc  -- before `status_=Status::waiting`
  second_pop : StartPc
  set_running : (tk : ℕ) → StartPc  -- before `status_=Status::running`
  wait_test : StartPc  -- the predicate of `cv_.wait`, the mutex being held
  asleep : StartPc  -- blocked in it, the mutex being free
  woken : StartPc  -- about to lock the mutex again
  last_pop : StartPc  -- `return runnableQueue_.pop()`
  leave_none : StartPc  -- the lock's scope ends, without a task
  leave_with : (tk : ℕ) → StartPc  -- the lock's scope ends, with a task to run
  swap : (tk : ℕ) → StartPc  -- before `Task::Swap`
  in_tasks : StartPc  -- coroutines execute
  ended : StartPc

-- Where a caller of `AddTask` or `Stop` stands.
pub data AdderPc : Type 0 where
  outside : AdderPc
  add_push : (tks : List ℕ) → AdderPc  -- `AddTask` with these tasks still to push
  add_test : AdderPc  -- before its read of `status_`
  stop_store : AdderPc  -- start of `Stop`
  wake_lock : AdderPc  -- start of `WakeUp`
  wake_test : AdderPc  -- before the read of `status_`
  wake_set : AdderPc  -- before `status_=Status::running`
  wake_notify : AdderPc
  wake_unlock : AdderPc

-- Who holds `status_mtx_`.
pub data Owner : Type 0 where
  nobody : Owner
  the_thread : Owner
  caller : (i : ℕ) → Owner

-- `waiting` says whether `status_` is `Status::waiting`, not `Status::running`. `pushed` are the tasks
-- that were pushed, `started` those that a coroutine or `Start` has switched to, `stolen` those of `Steal`,
-- `lost` those that the queue has lost.
pub record ProcState : Type 0 where
  pub stop : Bool
  pub runnable_queue : List ℕ
  pub waiting : Bool
  pub owner : Owner
  pub thread : StartPc
  pub callers : ℕ → AdderPc
  pub pushed : List ℕ
  pub started : List ℕ
  pub stolen : List ℕ
  pub lost : List ℕ

-- A new processor, before `Start`.
abbrev pub new_state : ProcState
new_state = record {
  stop = false;
  runnable_queue = [];
  waiting = true;
  owner = nobody;
  thread = begin;
  callers = λ _. outside;
  pushed = [];
  started = [];
  stolen = [];
  lost = [];
}

abbrev pub start_to : StartPc → ProcState → ProcState
start_to p w = record w { thread = p }

abbrev pub adder_to : ℕ → AdderPc → ProcState → ProcState
adder_to i p w = record w { callers = update w.callers i p }

-- `runnableQueue_.push`, of a task that may be lost later (`lose`)
abbrev pub push_queue : ℕ → ProcState → ProcState
push_queue tk w = record w {
  runnable_queue = w.runnable_queue ++ tk ∷ [];
  pushed = w.pushed ++ tk ∷ [];
}

-- Lock the mutex and go on with `t`; who finds it held stays where it is.
unfoldable pub lock_status : Owner → Owner → (ProcState → ProcState) → ProcState → ProcState
lock_status who nobody t w = t (record w { owner = who })
lock_status who the_thread t w = w
lock_status who (caller i) t w = w

-- `runnableQueue_.pop()` by the thread: with a task go to `some_found tk`, with null to `none_found`.
unfoldable pub pop_runnable : List ℕ → StartPc → (ℕ → StartPc) → ProcState → ProcState
pop_runnable [] none_found some_found w = start_to none_found w
pop_runnable (tk ∷ tks) none_found some_found w = record w {
  runnable_queue = tks;
  thread = some_found tk;
}

-- `Wait`
unfoldable pub wait_step : StartPc → ProcState → ProcState
unfolding lock_status pop_runnable
wait_step wait_lock w = lock_status the_thread w.owner (start_to set_waiting) w
wait_step set_waiting w = record w { waiting = true; thread = second_pop }
wait_step second_pop w = pop_runnable w.runnable_queue wait_test set_running w
wait_step (set_running tk) w = record w { waiting = false; thread = leave_with tk }
wait_step wait_test w =
    if w.waiting then record w { owner = nobody; thread = asleep } else start_to last_pop w
wait_step asleep w = w
wait_step woken w = lock_status the_thread w.owner (start_to wait_test) w
wait_step last_pop w = pop_runnable w.runnable_queue leave_none leave_with w
wait_step leave_none w = record w { owner = nobody; thread = loop_head }
wait_step (leave_with tk) w = record w { owner = nobody; thread = swap tk }
wait_step _ w = w

-- `Start`, which calls `Wait`
unfoldable pub start_step : StartPc → ProcState → ProcState
unfolding wait_step pop_runnable
start_step begin w = record w { waiting = false; thread = loop_head }
start_step loop_head w = if w.stop then start_to ended w else start_to first_pop w
start_step first_pop w = pop_runnable w.runnable_queue wait_lock swap w
start_step (swap tk) w = record w { started = w.started ++ tk ∷ []; thread = in_tasks }
start_step in_tasks w = start_to loop_head w
start_step ended w = w
start_step p w = wait_step p w

-- `notify_one`, or a wake-up for no reason: only the thread of `Start` may wait.
unfoldable pub cv_notified : StartPc → StartPc
cv_notified asleep = woken
cv_notified p = p

-- `AddTask`: of one function, which has its task by now, or of a list; then the test.
unfoldable pub add_step : ℕ → List ℕ → ProcState → ProcState
add_step i [] w = adder_to i add_test w
add_step i (tk ∷ tks) w = adder_to i (add_push tks) (push_queue tk w)

abbrev pub stop_and_wake : ℕ → ProcState → ProcState
stop_and_wake i w = adder_to i wake_lock (record w { stop = true })

-- `WakeUp`
unfoldable pub wake_step : ℕ → AdderPc → ProcState → ProcState
unfolding lock_status cv_notified
wake_step i wake_lock w = lock_status (caller i) w.owner (adder_to i wake_test) w
wake_step i wake_test w = adder_to i (if w.waiting then wake_set else wake_unlock) w
wake_step i wake_set w = adder_to i wake_notify (record w { waiting = false })
wake_step i wake_notify w = adder_to i wake_unlock (record w { thread = cv_notified w.thread })
wake_step i wake_unlock w = adder_to i outside (record w { owner = nobody })
wake_step i _ w = w

-- `AddTask` and `Stop`, which call `WakeUp`
unfoldable pub adder_step : ℕ → AdderPc → ProcState → ProcState
unfolding wake_step add_step
adder_step i outside w = w
adder_step i (add_push tks) w = add_step i tks w
adder_step i add_test w = adder_to i (if w.waiting then wake_lock else outside) w
adder_step i stop_store w = stop_and_wake i w
adder_step i p w = wake_step i p w

-- A call begins where its caller is outside of both functions.
unfoldable pub enter : ℕ → AdderPc → AdderPc → ProcState → ProcState
enter i outside p w = adder_to i p w
enter i _ p w = w

-- One `pop` of `Steal`.
unfoldable pub steal_one : List ℕ → ProcState → ProcState
steal_one [] w = w
steal_one (tk ∷ tks) w = record w { runnable_queue = tks; stolen = w.stolen ++ tk ∷ [] }

-- What coroutines do to the queue while they execute: `Yield` switches to the next task, and
-- `AfterLastSche` puts a task back.
unfoldable pub yield_next : StartPc → List ℕ → ProcState → ProcState
yield_next in_tasks (tk ∷ tks) w = record w { runnable_queue = tks; started = w.started ++ tk ∷ [] }
yield_next _ _ w = w

unfoldable pub put_back : StartPc → ℕ → ProcState → ProcState
put_back in_tasks tk w = push_queue tk w
put_back _ tk w = w

-- A push that another one overtakes stores its task in a node that is out of the queue: of those that were
-- pushed and not popped, the `n`th is lost.
unfoldable pub lose : ℕ → ProcState → ProcState
lose n w = record w {
  runnable_queue = drop_nth n w.runnable_queue;
  lost = w.lost ++ only_nth n w.runnable_queue;
}

pub data Move : Type 0 where
  thread_moves : Move
  wakes_up : Move  -- for no reason, as a condition variable may
  yields : Move
  puts_back : (tk : ℕ) → Move
  steals : Move
  loses : (n : ℕ) → Move
  caller_moves : (i : ℕ) → Move
  adds : (i : ℕ) (tks : List ℕ) → Move
  stops : (i : ℕ) → Move

unfoldable pub move : Move → ProcState → ProcState
unfolding start_step adder_step enter cv_notified steal_one yield_next put_back lose
move thread_moves w = start_step w.thread w
move wakes_up w = start_to (cv_notified w.thread) w
move yields w = yield_next w.thread w.runnable_queue w
move (puts_back tk) w = put_back w.thread tk w
move steals w = steal_one w.runnable_queue w
move (loses n) w = lose n w
move (caller_moves i) w = adder_step i (w.callers i) w
move (adds i tks) w = enter i (w.callers i) (add_push tks) w
move (stops i) w = enter i (w.callers i) stop_store w

-- A run: the moves in their order, from any state.
unfoldable pub run : List Move → ProcState → ProcState
unfolding move
run [] w = w
run (m ∷ ms) w = run ms (move m w)
