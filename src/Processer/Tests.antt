-- ===== src/Processer/Tests.antt =====
-- The theorems of the processor at concrete processors.
use uring_fiber.Prelude.{◌≡◌, ◌⊎◌, refl, false, none, some, List, [], ◌∷◌}
use uring_fiber.Pool.{Status, runnable}
use uring_fiber.Processer.{Processer, yield, suspend_task, add_to_do, added}
use uring_fiber.Processer.Deferred.{yield-alone, Stranded, suspend_task-Defers, Defers}
use uring_fiber.Processer.Waiting.{
  new_state, asleep, Move, thread_moves, steals, caller_moves, adds, move, run, start_step,
  wait_step, adder_step, wake_step, lock_status, pop_runnable, enter, add_step, steal_one,
}
use uring_fiber.Processer.Waiting.Watched.{Somebody, is_waking, is_notifying}
use uring_fiber.Processer.Waiting.Wakeup.{wait-Watched}
use uring_fiber.Processer.Waiting.Kept.{Kept, run-Kept}

-- Task 40 executes, 50 and 60 wait, and 70 is done.
abbrev three_tasks : Processer
three_tasks = record {
  stop = false;
  running_task = some 40;
  runnable_queue = 50 ∷ 60 ∷ [];
  last_sche_to_dos = [];
  statuses = λ t. runnable;
  current = some 40;
  released = 70 ∷ [];
  called = [];
}

abbrev one_task : Processer
one_task = record three_tasks { runnable_queue = [] }

yield-alone_example : Stranded 40 (yield (some runnable) (some 40) one_task)
yield-alone_example = yield-alone (some runnable) one_task 40 refl refl refl refl refl

suspend_task-Defers_example :
    (suspend_task none (some 40) (add_to_do (added 9) three_tasks) ≡ none)
    × ((seen : Status)
        → Defers 9 40 three_tasks
            (suspend_task (some seen) (some 40) (add_to_do (added 9) three_tasks)))
suspend_task-Defers_example = suspend_task-Defers 9 40 three_tasks refl refl refl

-- The thread falls asleep while caller 1 has pushed two tasks and not yet read `status_`; one is stolen.
abbrev racing : List Move
racing =
    thread_moves
    ∷ thread_moves
    ∷ thread_moves
    ∷ thread_moves
    ∷ thread_moves
    ∷ thread_moves
    ∷ adds 1 (80 ∷ 90 ∷ [])
    ∷ caller_moves 1
    ∷ caller_moves 1
    ∷ thread_moves
    ∷ steals
    ∷ []

racing_asleep : (run racing new_state).thread ≡ asleep
unfolding run move start_step wait_step adder_step wake_step lock_status pop_runnable enter add_step
    steal_one
racing_asleep = refl

wait-Watched_example :
    ((run racing new_state).runnable_queue ≡ [])
    ⊎ Somebody is_waking (run racing new_state)
    ⊎ Somebody is_notifying (run racing new_state)
wait-Watched_example = wait-Watched racing racing_asleep

run-Kept_example : Kept (run racing new_state)
run-Kept_example = run-Kept racing new_state (λ t. refl)
