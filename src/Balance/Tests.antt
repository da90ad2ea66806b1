-- ===== src/Balance/Tests.antt =====
-- The theorems on balancing at concrete processors, with hundredths for `float`.
use uring_fiber.Prelude.{
  ℕ, ◌-◌, ◌*◌, ◌/◌, ◌≡◌, refl, false, none, some, List, [], ◌∷◌, ltb, leb, ◌==◌, if◌then◌else◌, pos,
  arith,
}
use uring_fiber.Pool.{at_start, TaskPool, runnable, get_out, take, write_task}
use uring_fiber.Pool.Idle.{WellFormed}
use uring_fiber.Balance.{
  Floats, Worker, Dispatch, add_task, load_balance, balance_all, balance_from, overloaded,
  underloaded, move_tasks, steal, add_tasks, add_next, add_to, add_func,
}
use uring_fiber.Balance.Kept.{queued, load_balance-queued}
use uring_fiber.Balance.Adding.{add_task-Added, Added, add_all}

-- `n` stands for `n / 100`.
instance abbrev hundredths : Floats ℕ
hundredths = record {
  of_int = λ n. n * 100;
  to_int = λ x. pos (x / 100);
  div = λ x y. x * 100 / y;
  mul = λ x y. x * y / 100;
  sub = λ x y. x - y;
  lt = ltb;
  le = leb;
  high = 110;
  low = 30;
}

abbrev worker_of : List ℕ → Worker
worker_of q = record { runnable_queue = q; waiting = false }

-- One processor has eight tasks, and the other none: one task is moved.
abbrev uneven : List Worker
uneven = worker_of (1 ∷ 2 ∷ 3 ∷ 4 ∷ 5 ∷ 6 ∷ 7 ∷ 8 ∷ []) ∷ worker_of [] ∷ []

uneven_balanced :
    load_balance ℕ uneven ≡ worker_of (2 ∷ 3 ∷ 4 ∷ 5 ∷ 6 ∷ 7 ∷ 8 ∷ []) ∷ worker_of (1 ∷ []) ∷ []
unfolding load_balance balance_all balance_from overloaded underloaded move_tasks steal add_tasks
uneven_balanced = refl

load_balance-queued_example : queued 1 (load_balance ℕ uneven) ≡ queued 1 uneven
load_balance-queued_example = load_balance-queued ℕ 1 uneven

abbrev empty_pool : TaskPool
empty_pool = record {
  max_idle_task = 4;
  count = 0;
  task_queue = [];
  tasks = λ _. none;
  task_id = 0;
}

empty_pool-WellFormed : WellFormed empty_pool
empty_pool-WellFormed = record {
  alive = λ t h. cc;
  distinct = refl;
  counted = omega arith;
  bounded = omega arith;
}

abbrev two_workers : Dispatch
two_workers = record {
  processers = worker_of (1 ∷ []) ∷ worker_of [] ∷ [];
  temp_tasks = [];
  idx = 3;
  pool = empty_pool;
}

add_task-Added_example :
    (t : Dispatch) × (add_task none 77 60 9 two_workers ≡ some t) × Added 77 9 two_workers t
add_task-Added_example = add_task-Added 77 60 9 two_workers (omega arith) refl empty_pool-WellFormed

-- The function 9 is handed to the second processor, which queues the pointer 77.
abbrev served : Dispatch
served = record {
  processers = worker_of (1 ∷ []) ∷ worker_of (77 ∷ []) ∷ [];
  temp_tasks = [];
  idx = 4;
  pool = record {
    max_idle_task = 4;
    count = 0;
    task_queue = [];
    tasks = λ j.
        if 60 == j
        then some (record { context = at_start; real_func = 9; status = runnable; id = 0 })
        else if 60 == j
        then some (record { context = at_start; real_func = 0; status = runnable; id = 0 })
        else none;
    task_id = 1;
  };
}

served_run : add_all ((77, 60, 9) ∷ []) two_workers ≡ some served
unfolding add_all add_next add_to add_func add_tasks get_out take write_task
served_run = refl
