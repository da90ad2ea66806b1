-- ===== src/Scheduler/Tests.antt =====
-- The submission theorems at concrete runs.
use uring_fiber.Prelude.{
  none, some, pos, neg, false, arith, List, [], ◌∷◌, ◌++◌, ◌≡◌, refl, true, ℕ, ◌⊎◌,
}
use uring_fiber.Scheduler.{
  start, run, move, thread_step, caller_step, acquire, pop_queue, enter, Move, thread_moves,
  caller_moves, submits, asleep, outside, CallerPc,
}
use uring_fiber.Scheduler.Wakeup.{asleep-Watched}
use uring_fiber.Scheduler.Watched.{is_sleepy, Somebody, is_waking, is_notifying}
use uring_fiber.Scheduler.Order.{InOrder, run-InOrder, start-InOrder}
use uring_fiber.Scheduler.Stopping.{stop-missed, just_tested, is_internal, accesses}
use uring_fiber.Engine.{Engine, Result, Prep, exec}
use uring_fiber.Engine.Completion.{request_done}
use uring_fiber.Balance.{Worker}
use uring_fiber.Scheduler.IoWait.{
  WaitState, Round, over, as_pointer, io_wait_thread, wake_up_io_wait,
}
use uring_fiber.Scheduler.IoWait.Delivered.{Delivered, Listed, woken, io_wait_thread-Delivered}
use uring_fiber.Scheduler.IoWait.Ending.{wake_up_io_wait-ends}
use uring_fiber.Processer.Waiting
use uring_fiber.Scheduler.Starting.{Outlived, start_scheduler, start_scheduler-Outlived}
use uring_fiber.Scheduler.Handover.{submit-wakes, waiting, thread_runs}

-- The thread falls asleep while caller 1 has pushed 7 and not yet read `ioWait_`.
abbrev racing : List Move
racing =
    thread_moves
    ∷ thread_moves
    ∷ thread_moves
    ∷ thread_moves
    ∷ thread_moves
    ∷ submits 1 7
    ∷ caller_moves 1
    ∷ thread_moves
    ∷ []

racing_asleep : (run racing start).thread ≡ asleep
unfolding run move thread_step caller_step acquire pop_queue enter
racing_asleep = refl

asleep-Watched_example :
    ((run racing start).io_queue ≡ [])
    ⊎ Somebody is_waking (run racing start)
    ⊎ Somebody is_notifying (run racing start)
asleep-Watched_example = asleep-Watched racing racing_asleep

run-InOrder_example : InOrder (run racing start)
run-InOrder_example = run-InOrder racing start start-InOrder

stop-missed_example :
    (ms : List Move) × ((run ms (just_tested (λ _. outside) (3 ∷ []) (3 ∷ []))).stop ≡ true)
    × ((later : List Move)
        → is_internal later ≡ true
        → is_sleepy (run later (run ms (just_tested (λ _. outside) (3 ∷ []) (3 ∷ [])))).thread
          ≡ true)
stop-missed_example = stop-missed (λ _. outside) (3 ∷ []) (3 ∷ []) 1 (λ j. refl)

submit-wakes_example :
    (ds : ℕ → CallerPc) × (run
        (submits 1 7 ∷ accesses 1 7 (thread_runs 6))
        (waiting (λ _. outside) (3 ∷ []) (3 ∷ []))
      ≡ record start { callers = ds; pushed = (3 ∷ []) ++ 7 ∷ []; executed = (3 ∷ []) ++ 7 ∷ [] })
submit-wakes_example = submit-wakes (λ _. outside) (3 ∷ []) (3 ∷ []) 1 7 refl

-- Two processors, and an engine with the entry of a request of task 77, for its `res` number 3.
abbrev idle_worker : Worker
idle_worker = record { runnable_queue = 5 ∷ []; waiting = true }

abbrev no_requests : Engine
no_requests = record {
  entries = λ _. none;
  datas = λ _. none;
  next_data = 100;
  results = λ _. record { user_data = pos 77; ret = pos 0 };
  submits = 0;
  seen = 0;
}

abbrev two_workers : WaitState
two_workers = record {
  engine = no_requests;
  processers = idle_worker ∷ idle_worker ∷ [];
  list_idx = 1;
}

abbrev one_request : WaitState
one_request = record two_workers {
  engine =
      (exec (Prep.recv 5 0 64 0) 3 (record { tv_sec = 0; tv_nsec = 0 }) (some 0) none
        no_requests).0;
}

-- The request is done; then `WaitResult` fails once.
abbrev two_rounds : List Round
two_rounds =
    record { stop = false; answers = request_done no_requests (pos 12) ∷ [] }
    ∷ record { stop = false; answers = none ∷ [] }
    ∷ []

io_wait_thread-Delivered_example :
    Delivered
      (woken two_rounds one_request.engine)
      one_request
      (io_wait_thread two_rounds one_request)
io_wait_thread-Delivered_example = io_wait_thread-Delivered two_rounds one_request (omega arith)

-- What the local variable held names the address 666.
abbrev left_over : Result
left_over = record { user_data = pos 666; ret = pos 0 }

wake_up_io_wait-ends_example :
    let answered : Round = record {
      stop = false;
      answers = request_done no_requests (neg (pos 62)) ∷ [];
    } in
    let stopped : Round = record { stop = true; answers = [] } in
    let asked = wake_up_io_wait 9 left_over (some 0) two_workers in
    (t : WaitState) × (io_wait_thread (answered ∷ stopped ∷ []) asked ≡ (t, over))
    × Listed (as_pointer (pos 666) ∷ []) (record two_workers { engine = t.engine }) t
wake_up_io_wait-ends_example =
    wake_up_io_wait-ends 9 left_over 0 (neg (pos 62)) [] [] [] two_workers (omega arith) refl

-- The first processor is stopped at once; the second one runs on.
abbrev stopped_first : List (List Waiting.Move)
stopped_first =
    (Waiting.thread_moves ∷ Waiting.stops 1 ∷ Waiting.caller_moves 1 ∷ Waiting.thread_moves ∷ [])
    ∷ (Waiting.thread_moves ∷ [])
    ∷ []

start_scheduler-Outlived_example : Outlived (start_scheduler 4 stopped_first [])
start_scheduler-Outlived_example = start_scheduler-Outlived 4 stopped_first
