-- ===== src/Pool/Reuse.antt =====
-- A task that has run, came back to the pool and is given out again.
use uring_fiber.Prelude.{
  ℕ, ◌+◌, ◌%◌, ◌^◌, ◌≤◌, ◌<◌, true, none, some, List, [], ◌∷◌, ◌++◌, update, update-same, ◌≡◌, refl,
  ap, ◌∙◌, arith,
}
use uring_fiber.Pool.{
  behind_yield, at_start, runnable, done, Task, TaskPool, create, release, put, take, write_task,
  get, run_task, returning, goes_on,
}
use uring_fiber.Pool.Gets.{write_task-some}

-- `Get` on a pool with the queue `q`, whose first task, or the new one, is `k`.
get-first :
    (address func : ℕ) (q : List ℕ) (s : TaskPool) (k : Task)
    → s.task_queue ≡ q
    → (take q address s).1.tasks (take q address s).0 ≡ some k
    → get address func s
      ≡ some (
        (take q address s).0,
        record (take q address s).1 {
          tasks =
              update
                (take q address s).1.tasks
                (take q address s).0
                (some (record k { real_func = func; status = runnable }));
        },
      )
unfolding get
get-first address func q s k e at =
    ap
      (λ q. returning (take q address s).0 (
        write_task (take q address s).0 (λ k. record k { real_func = func; status = runnable })
          (take q address s).1))
      e
    ∙ ap (returning (take q address s).0) (
        write_task-some (take q address s).0 (λ k. record k { real_func = func; status = runnable })
          (take q address s).1 k at)

run_task-at :
    (tk : ℕ) (s : TaskPool) (k : Task)
    → s.tasks tk ≡ some k
    → run_task tk s
      ≡ some (
        (goes_on k.context k).0,
        record s { tasks = update s.tasks tk (some (goes_on k.context k).1) },
      )
unfolding run_task
run_task-at tk s k e = rw (e, run_task) refl

released_kept :
    (tk : ℕ) (s : TaskPool)
    → s.count + 1 ≤ s.max_idle_task
    → s.max_idle_task < 2 ^ 64
    → release true tk s ≡ record s { count = s.count + 1; task_queue = s.task_queue ++ tk ∷ [] }
unfolding release put
released_kept tk s room few =
    let small : (s.count + 1) % 2 ^ 64 ≡ s.count + 1 = omega (arith, room, few) in
    rw small (ground (arith, room))

-- Let no task be idle, and room for one more. The task that `Get` makes for the function `f` calls `f` when
-- it is first swapped to. Once it has run and come back to the pool, the next `Get`, for `g`, gives out the
-- same task, and when that is swapped to, it calls nothing.
pub reused-calls-nothing :
    (address other f g : ℕ) (s : TaskPool)
    → s.task_queue ≡ []
    → s.count + 1 ≤ s.max_idle_task
    → s.max_idle_task < 2 ^ 64
    → (t u w : TaskPool) × (get address f s ≡ some (address, t))
      × (run_task address t ≡ some (some f, u))
      × (get other g (release true address u) ≡ some (address, w))
      × ((x : TaskPool) × (run_task address w ≡ some (none, x)))
unfolding take
reused-calls-nothing address other f g s empty room few =
    let made : Task = record {
      context = at_start;
      real_func = 0;
      status = runnable;
      id = s.task_id;
    } in
    let given : Task = record made { real_func = f; status = runnable } in
    let ran : Task = record given { context = behind_yield; status = done } in
    let again : Task = record ran { real_func = g; status = runnable } in
    let s1 = create address s in
    let t : TaskPool = record s1 { tasks = update s1.tasks address (some given) } in
    let u : TaskPool = record t { tasks = update t.tasks address (some ran) } in
    let v : TaskPool = record u {
      count = s.count + 1;
      task_queue = s.task_queue ++ address ∷ [];
    } in
    let w : TaskPool = record v { task_queue = []; tasks = update v.tasks address (some again) } in
    (
      t,
      u,
      w,
      get-first address f [] s made empty (update-same s.tasks address (some made)),
      run_task-at address t given (update-same s1.tasks address (some given)),
      ap (get other g) (released_kept address u room few)
          ∙ get-first other g (address ∷ []) v ran (ap (λ q. q ++ address ∷ []) empty)
              (update-same t.tasks address (some ran)),
      (
        record w { tasks = update w.tasks address (some again) },
        run_task-at address w again (update-same v.tasks address (some again)),
      ),
    )
