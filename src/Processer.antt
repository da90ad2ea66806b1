-- ===== src/Processer.antt =====
-- processer/processer.cpp: how the coroutines of one `Processer` take turns. A task is named by its
-- address, and `runnableQueue_` is the `LFQueue<Task>`, oldest first.
pub mod Conserved
pub mod Deferred
pub mod Waiting
mod Tests
use uring_fiber.Prelude.{
  ℕ, Bool, true, false, Option, none, some, List, [], ◌∷◌, ◌++◌, if◌then◌else◌, update,
}
use uring_fiber.Pool.{Status, runnable, block, done}

-- What stands in `LastScheToDos_`: the two functions that `Yield` puts there, and one of `AddToDo`.
pub data ToDo : Type 0 where
  requeue : (tk : ℕ) → ToDo
  give_back : (tk : ℕ) → ToDo
  added : (f : ℕ) → ToDo

-- The fields that scheduling uses, with `status_` of the tasks; `current` is the context that executes,
-- `none` being that of `Start`. `released` are the tasks given to `TaskPool::Release`, and `called` the
-- functions of `AddToDo` that were called, each with the context that called it.
pub record Processer : Type 0 where
  pub stop : Bool
  pub running_task : Option ℕ
  pub runnable_queue : List ℕ
  pub last_sche_to_dos : List ToDo
  pub statuses : ℕ → Status
  pub current : Option ℕ
  pub released : List ℕ
  pub called : List (ℕ × Option ℕ)

-- One function of `LastScheToDos_`.
unfoldable pub run_to_do : ToDo → Processer → Processer
run_to_do (requeue tk) p = record p { runnable_queue = p.runnable_queue ++ tk ∷ [] }
run_to_do (give_back tk) p = record p { released = p.released ++ tk ∷ [] }
run_to_do (added f) p = record p { called = p.called ++ (f, p.current) ∷ [] }

unfoldable pub run_to_dos : List ToDo → Processer → Processer
unfolding run_to_do
run_to_dos [] p = p
run_to_dos (d ∷ ds) p = run_to_dos ds (run_to_do d p)

-- `AfterLastSche`
unfoldable pub after_last_sche : Processer → Processer
unfolding run_to_dos
after_last_sche p = record (run_to_dos p.last_sche_to_dos p) { last_sche_to_dos = [] }

-- `AddToDo`
abbrev pub add_to_do : ToDo → Processer → Processer
add_to_do d p = record p { last_sche_to_dos = p.last_sche_to_dos ++ d ∷ [] }

-- `Task::Swap`: the context that goes on, wherever it was left, first calls `AfterLastSche`.
unfoldable pub swap_to : Option ℕ → Processer → Processer
unfolding after_last_sche
swap_to who p = after_last_sche (record p { current = who })

-- The `switch` of `Yield`, with the status that it sees.
unfoldable pub put_away : ℕ → Status → Processer → Processer
put_away cur runnable p = add_to_do (requeue cur) p
put_away cur done p = add_to_do (give_back cur) p
put_away cur block p = p

-- `LastScheToDos_.pop_back()`, which is undefined on an empty list.
unfoldable pub pop_back : List ToDo → Option (List ToDo)
pop_back [] = none
pop_back (d ∷ []) = some []
pop_back (d ∷ e ∷ ds) = elim (pop_back (e ∷ ds)) [ none ↦ none | some rest ↦ some (d ∷ rest) ]

-- The rest of `Yield` where `runnableQueue_.pop()` returned null.
unfoldable pub none_runnable : ℕ → Status → Processer → Option Processer
unfolding pop_back after_last_sche swap_to
none_runnable cur runnable p = elim (pop_back p.last_sche_to_dos) [
  | none ↦ none
  | some ds ↦ some (after_last_sche (record p { last_sche_to_dos = ds }))
]
none_runnable cur block p = some (swap_to none p)
none_runnable cur done p = some (swap_to none p)

-- `runningTask_=runnableQueue_.pop()`, and what follows it in `Yield`.
unfoldable pub switch_next : ℕ → List ℕ → Processer → Option Processer
unfolding none_runnable swap_to
switch_next cur [] p = none_runnable cur (p.statuses cur) p
switch_next cur (tk ∷ ts) p =
    some (swap_to (some tk) (record p { running_task = some tk; runnable_queue = ts }))

-- `Yield` of the task that `release` takes out of `runningTask_`. The switch reads `status_` through
-- `runningTask_`, which is null by then: `seen` is what that read gives, `none` being a trap.
unfoldable pub yield_task : Option Status → ℕ → Processer → Option Processer
unfolding put_away switch_next swap_to
yield_task none cur p = none
yield_task (some seen) cur p =
    let q = put_away cur seen (record p { running_task = none }) in
    if q.stop then some (swap_to none q) else switch_next cur q.runnable_queue q

-- `Yield`; without a task in `runningTask_`, `cur_task` is null too, and is read later on.
unfoldable pub yield : Option Status → Option ℕ → Processer → Option Processer
unfolding yield_task
yield seen none p = none
yield seen (some cur) p = yield_task seen cur p

abbrev pub set_status : ℕ → Status → Processer → Processer
set_status tk s p = record p { statuses = update p.statuses tk s }

-- `SuspendTask`, called inside of a processor.
unfoldable pub suspend_task : Option Status → Option ℕ → Processer → Option Processer
unfolding yield
suspend_task seen none p = none
suspend_task seen (some cur) p = yield seen (some cur) (set_status cur block p)

-- The end of `TaskFunc`, when `realFunc_` of `task` has returned.
unfoldable pub finish_task : Option Status → ℕ → Processer → Option Processer
unfolding yield
finish_task seen task p = yield seen p.running_task (set_status task done p)

-- A round of `Start` that finds a task: it is swapped to.
unfoldable pub start_task : ℕ → List ℕ → Processer → Processer
unfolding swap_to
start_task tk ts p = swap_to (some tk) (record p { running_task = some tk; runnable_queue = ts })
