-- ===== src/Pool/Tests.antt =====
-- The theorems of the pool at concrete pools.
use uring_fiber.Prelude.{none, some, List, [], ◌∷◌, ◌≡◌, refl, true, update, arith}
use uring_fiber.Pool.{
  run_task, call, take, write_task, Task, TaskPool, runnable, done, behind_yield, get, release, put,
  calls, gets, releases, Op,
}
use uring_fiber.Pool.Reuse.{reused-calls-nothing}
use uring_fiber.Pool.Gets.{Full}

abbrev old_task : Task
old_task = record { context = behind_yield; real_func = 3; status = done; id = 0 }

-- Task 40 is idle, and one idle task is allowed.
abbrev one_idle : TaskPool
one_idle = record {
  max_idle_task = 1;
  count = 1;
  task_queue = 40 ∷ [];
  tasks = update (λ _. none) 40 (some old_task);
  task_id = 1;
}

-- The idle task is taken out and comes back: it is deleted.
abbrev out_and_back : List Op
out_and_back = gets 60 9 ∷ releases true 40 ∷ []

one_idle-Full : Full 1 one_idle
one_idle-Full = record { counted = refl; limit = omega arith; idle = omega arith }

-- The pool afterwards.
abbrev none_idle : TaskPool
none_idle = record one_idle {
  task_queue = [];
  tasks =
      update
        (update one_idle.tasks 40
          (some (record { context = behind_yield; real_func = 9; status = runnable; id = 0 })))
        40 none;
}

out_and_back_run : calls out_and_back one_idle ≡ some none_idle
unfolding calls call get take write_task release put
out_and_back_run = refl

abbrev one_used : TaskPool
one_used = record one_idle { count = 0; task_queue = [] }

reused-calls-nothing_example :
    (t u w : TaskPool) × (get 60 9 one_used ≡ some (60, t))
    × (run_task 60 t ≡ some (some 9, u))
    × (get 80 5 (release true 60 u) ≡ some (60, w))
    × ((x : TaskPool) × (run_task 60 w ≡ some (none, x)))
reused-calls-nothing_example =
    reused-calls-nothing 60 80 9 5 one_used refl (omega arith) (omega arith)
