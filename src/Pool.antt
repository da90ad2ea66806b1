-- ===== src/Pool.antt =====
-- processer/task_pool.hpp and processer/task.{hpp,cpp}: the pool of idle tasks. A task is named by its
-- address, and `taskQueue_` is the `LFQueue<Task>`, oldest first.
pub mod Idle
pub mod Gets
pub mod Reuse
mod Tests
use uring_fiber.Prelude.{
  ℕ, ◌+◌, ◌-◌, ◌%◌, ◌^◌, Bool, true, false, Option, none, some, List, [], ◌∷◌, ◌++◌, if◌then◌else◌,
  ltb, update,
}

-- `Task::Status`
pub data Status : Type 0 where
  runnable block done : Status

-- Where the context of a task goes on when it is swapped to: at the start of `taskFunc`, which calls
-- `realFunc_`, or behind the `Yield` at the end of it.
pub data Stands : Type 0 where
  at_start behind_yield : Stands

-- The fields of a `Task`, its context as far as where it stands. `real_func` names the function in
-- `realFunc_`, 0 the empty one.
pub record Task : Type 0 where
  pub context : Stands
  pub real_func : ℕ
  pub status : Status
  pub id : ℕ

-- The fields of `TaskPool`, with the tasks on the heap and the static `taskID_`.
pub record TaskPool : Type 0 where
  pub max_idle_task : ℕ
  pub count : ℕ
  pub task_queue : List ℕ
  pub tasks : ℕ → Option Task
  pub task_id : ℕ

-- `Create`, where `new` returns `address`.
abbrev pub create : ℕ → TaskPool → TaskPool
create address s = record s {
  tasks =
      update s.tasks address
        (some (record { context = at_start; real_func = 0; status = runnable; id = s.task_id }));
  task_id = (s.task_id + 1) % 2 ^ 64;
}

-- `Delete`
abbrev pub delete : ℕ → TaskPool → TaskPool
delete tk s = record s { tasks = update s.tasks tk none }

-- `Put`: `count_` is counted up, compared, and counted down again if there are too many.
unfoldable pub put : ℕ → TaskPool → TaskPool
put tk s =
    let counted = (s.count + 1) % 2 ^ 64 in
    if ltb s.max_idle_task counted
    then delete tk (record s { count = (counted + 2 ^ 64 - 1) % 2 ^ 64 })
    else record s { count = counted; task_queue = s.task_queue ++ tk ∷ [] }

-- `Release`, where `Task::Check_stack_used` answers `fits`.
unfoldable pub release : Bool → ℕ → TaskPool → TaskPool
unfolding put
release fits tk s = if fits then put tk s else delete tk s

-- `taskQueue_.pop()`, and `Create` if it returns null.
unfoldable pub take : List ℕ → ℕ → TaskPool → ℕ × TaskPool
take [] address s = (address, create address s)
take (tk ∷ ts) address s = (tk, record s { task_queue = ts })

-- A write to the task at `tk`; `none` if there is no task, which is undefined behaviour.
unfoldable pub write_task : ℕ → (Task → Task) → TaskPool → Option TaskPool
write_task tk f s = elim (s.tasks tk) [
  | none ↦ none
  | some k ↦ some (record s { tasks = update s.tasks tk (some (f k)) })
]

abbrev pub returning : ℕ → Option TaskPool → Option (ℕ × TaskPool)
returning tk none = none
returning tk (some s) = some (tk, s)

-- The second `Get`: the pointer that it returns, and the pool. What `Out` returns calls `release` when its last
-- owner goes.
unfoldable pub get : ℕ → ℕ → TaskPool → Option (ℕ × TaskPool)
unfolding take write_task
get address func s =
    let (tk, s1) = take s.task_queue address s in
    returning tk (write_task tk (λ k. record k { real_func = func; status = runnable }) s1)

-- The first `Get`: `out` is passed by value, so the caller's variable is what it was.
unfoldable pub get_out : ℕ → ℕ → ℕ → TaskPool → Option (ℕ × TaskPool)
unfolding take write_task
get_out out address func s =
    let (tk, s1) = take s.task_queue address s in
    returning out (write_task tk (λ k. record k { real_func = func }) s1)

-- A task is swapped to and goes on to its next `Yield`, if any: the function that it calls, and what it is then.
-- At the start `TaskFunc` calls `realFunc_`, sets `done` and yields; behind that `Yield` it only returns.
abbrev pub goes_on : Stands → Task → Option ℕ × Task
goes_on at_start k = (some k.real_func, record k { context = behind_yield; status = done })
goes_on behind_yield k = (none, k)

unfoldable pub run_task : ℕ → TaskPool → Option (Option ℕ × TaskPool)
run_task tk s = elim (s.tasks tk) [
  | none ↦ none
  | some k ↦
      let (called, k') = goes_on k.context k in
      some (called, record s { tasks = update s.tasks tk (some k') })
]

-- The calls of a pool, with what their environment answers.
pub data Op : Type 0 where
  gets : (address func : ℕ) → Op
  gets_out : (out address func : ℕ) → Op
  releases : (fits : Bool) (tk : ℕ) → Op

abbrev pub pool_of : Option (ℕ × TaskPool) → Option TaskPool
pool_of none = none
pool_of (some (tk, s)) = some s

unfoldable pub call : Op → TaskPool → Option TaskPool
unfolding get get_out release
call (gets address func) s = pool_of (get address func s)
call (gets_out out address func) s = pool_of (get_out out address func s)
call (releases fits tk) s = some (release fits tk s)

-- A run of calls; `none` once one was undefined.
unfoldable pub calls : List Op → TaskPool → Option TaskPool
unfolding call
calls [] s = some s
calls (op ∷ ops) s = elim (call op s) [ none ↦ none | some t ↦ calls ops t ]
