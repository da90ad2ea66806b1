-- ===== src/Processer/Deferred.antt =====
-- What a task leaves behind when it yields: functions of `AddToDo` run in another context, and a task that
-- is alone runs on without its place in `runningTask_`.
use uring_fiber.Prelude.{
  ℕ, ◌≡◌, ◌≢◌, refl, ap, sym, ◌∙◌, subst, false, Option, none, some, List, [], ◌∷◌, ◌++◌, count,
  if◌then◌else◌, if_cases, inl, inr, Option-cases, update-same, arith,
}
use uring_fiber.Pool.{Status, runnable, block, done}
use uring_fiber.Processer.{
  ToDo, requeue, give_back, added, Processer, run_to_do, run_to_dos, after_last_sche, add_to_do,
  pop_back, swap_to, put_away, none_runnable, switch_next, yield_task, yield, suspend_task,
  finish_task, set_status,
}

running-run_to_dos :
    (ds : List ToDo) (p : Processer)
    → ((run_to_dos ds p).running_task ≡ p.running_task) × ((run_to_dos ds p).current ≡ p.current)
unfolding run_to_dos run_to_do
running-run_to_dos [] p = (refl, refl)
running-run_to_dos (requeue tk ∷ ds) p = running-run_to_dos ds (run_to_do (requeue tk) p)
running-run_to_dos (give_back tk ∷ ds) p = running-run_to_dos ds (run_to_do (give_back tk) p)
running-run_to_dos (added f ∷ ds) p = running-run_to_dos ds (run_to_do (added f) p)

-- A processor whose `runningTask_` is null, where every further call of a task is undefined.
pub record Forgets (cur : ℕ) (p : Processer) : Type 0 where
  pub empty : p.running_task ≡ none
  pub executes : p.current ≡ some cur
  pub yields : (seen : Option Status) → yield seen p.running_task p ≡ none
  pub suspends : (seen : Option Status) → suspend_task seen p.running_task p ≡ none
  pub ends : (seen : Option Status) → finish_task seen cur p ≡ none

forgotten : (cur : ℕ) (p : Processer) → p.running_task ≡ none → p.current ≡ some cur → Forgets cur p
unfolding yield suspend_task finish_task
forgotten cur p e c = record {
  empty = e;
  executes = c;
  yields = λ seen. ap (λ r. yield seen r p) e;
  suspends = λ seen. ap (λ r. suspend_task seen r p) e;
  ends = λ seen. ap (λ r. yield seen r (set_status cur done p)) e;
}

-- The call is undefined, or comes back to `cur`, where the next one is.
pub data Stranded (cur : ℕ) : Option Processer → Type 0 where
  undefined_now : Stranded cur none
  undefined_next : (q : Processer) → Forgets cur q → Stranded cur (some q)

none_runnable-Stranded :
    (cur : ℕ) (s : Status) (p : Processer)
    → s ≡ runnable
    → p.current ≡ some cur
    → p.running_task ≡ none
    → Stranded cur (none_runnable cur s p)
unfolding none_runnable after_last_sche
none_runnable-Stranded cur runnable p e c r = elim (Option-cases (pop_back p.last_sche_to_dos)) [
  | inl z ↦ rw (z, none_runnable) undefined_now
  | inr (ds, z) ↦
      let q = record p { last_sche_to_dos = ds } in
      let parts = running-run_to_dos ds q in
      rw (z, none_runnable)
        (undefined_next (after_last_sche q)
          (forgotten cur (after_last_sche q) (parts.0 ∙ r) (parts.1 ∙ c)))
]
none_runnable-Stranded cur block p e c r = cc
none_runnable-Stranded cur done p e c r = cc

put_away-same :
    (cur : ℕ) (s : Status) (p : Processer)
    → ((put_away cur s p).runnable_queue ≡ p.runnable_queue)
      × ((put_away cur s p).stop ≡ p.stop)
      × ((put_away cur s p).statuses ≡ p.statuses)
      × ((put_away cur s p).current ≡ p.current)
      × ((put_away cur s p).running_task ≡ p.running_task)
unfolding put_away
put_away-same cur runnable p = (refl, refl, refl, refl, refl)
put_away-same cur done p = (refl, refl, refl, refl, refl)
put_away-same cur block p = (refl, refl, refl, refl, refl)

yield_task-Stranded :
    (seen : Option Status) (p : Processer) (cur : ℕ)
    → p.current ≡ some cur
    → p.statuses cur ≡ runnable
    → p.runnable_queue ≡ []
    → p.stop ≡ false
    → Stranded cur (yield_task seen cur p)
unfolding yield_task switch_next
yield_task-Stranded none p cur c s e on = undefined_now
yield_task-Stranded (some st) p cur c s e on =
    let q = put_away cur st (record p { running_task = none }) in
    let (queue, stop, statuses, current, running) =
      put_away-same cur st (record p { running_task = none }) in
    let alone =
      none_runnable-Stranded cur (q.statuses cur) q (ap (λ (f : ℕ → Status). f cur) statuses ∙ s)
        (current ∙ c) running in
    subst
      (λ b. Stranded cur (if b then some (swap_to none q) else switch_next cur q.runnable_queue q))
      (sym (stop ∙ on)) (subst (λ ts. Stranded cur (switch_next cur ts q)) (sym (queue ∙ e)) alone)

-- Let a runnable task `cur` execute with no other task in the queue, of a processor that is not stopped.
-- Whatever `Yield` reads through the null pointer, and whatever is deferred: the call is undefined, or it comes
-- back to `cur` with `runningTask_` null, and then whatever the task does next, another `Yield`,
-- `SuspendTask` or the end of its function, is undefined.
pub yield-alone :
    (seen : Option Status) (p : Processer) (cur : ℕ)
    → p.running_task ≡ some cur
    → p.current ≡ some cur
    → p.statuses cur ≡ runnable
    → p.runnable_queue ≡ []
    → p.stop ≡ false
    → Stranded cur (yield seen p.running_task p)
unfolding yield
yield-alone seen p cur run c s e on =
    subst (λ r. Stranded cur (yield seen r p)) (sym run) (yield_task-Stranded seen p cur c s e on)

-- The function `f` was called, by the context that executes now, and not by `cur`, which is blocked.
pub data Defers (f cur : ℕ) (p : Processer) : Option Processer → Type 0 where
  defers :
      (q : Processer)
      → q.called ≡ p.called ++ (f, q.current) ∷ []
      → q.current ≢ some cur
      → q.statuses cur ≡ block
      → Defers f cur p (some q)

Defers-same :
    (f cur : ℕ) (p p' : Processer) {o : Option Processer}
    → p.called ≡ p'.called
    → Defers f cur p o
    → Defers f cur p' o
Defers-same f cur p p' e (defers q h ne s) =
    defers q (h ∙ ap (λ c. c ++ (f, q.current) ∷ []) e) ne s

-- What follows a call of the function: what `put_away` may have put there.
pub data Behind (cur : ℕ) : List ToDo → Type 0 where
  nothing : Behind cur []
  requeues : Behind cur (requeue cur ∷ [])
  gives_back : Behind cur (give_back cur ∷ [])

swap_to-Defers :
    (f cur : ℕ) (who : Option ℕ) (ds : List ToDo) (p : Processer)
    → who ≢ some cur
    → Behind cur ds
    → p.last_sche_to_dos ≡ added f ∷ ds
    → p.statuses cur ≡ block
    → Defers f cur p (some (swap_to who p))
unfolding swap_to after_last_sche run_to_dos run_to_do
swap_to-Defers f cur who _ p other nothing d s = rw d (defers _ refl other s)
swap_to-Defers f cur who _ p other requeues d s = rw d (defers _ refl other s)
swap_to-Defers f cur who _ p other gives_back d s = rw d (defers _ refl other s)

switch-Defers :
    (f cur : ℕ) (ts : List ℕ) (ds : List ToDo) (p : Processer)
    → count cur ts ≡ 0
    → Behind cur ds
    → p.last_sche_to_dos ≡ added f ∷ ds
    → p.statuses cur ≡ block
    → Defers f cur p (switch_next cur ts p)
unfolding switch_next none_runnable
switch-Defers f cur [] ds p absent b d s =
    subst (λ x. Defers f cur p (none_runnable cur x p)) (sym s)
      (swap_to-Defers f cur none ds p (λ e. cc) b d s)
switch-Defers f cur (tk ∷ ts) ds p absent b d s =
    let q = record p { running_task = some tk; runnable_queue = ts } in
    Defers-same f cur q p refl
      (swap_to-Defers f cur (some tk) ds q (λ e. ground (arith, absent, e)) b d s)

put_away-Behind :
    (f cur : ℕ) (s : Status) (p : Processer)
    → p.last_sche_to_dos ≡ added f ∷ []
    → (ds : List ToDo) × Behind cur ds × ((put_away cur s p).last_sche_to_dos ≡ added f ∷ ds)
unfolding put_away
put_away-Behind f cur runnable p d = (requeue cur ∷ [], requeues, ap (λ x. x ++ requeue cur ∷ []) d)
put_away-Behind f cur done p d =
    (give_back cur ∷ [], gives_back, ap (λ x. x ++ give_back cur ∷ []) d)
put_away-Behind f cur block p d = ([], nothing, d)

called-put_away : (cur : ℕ) (s : Status) (p : Processer) → (put_away cur s p).called ≡ p.called
unfolding put_away
called-put_away cur runnable p = refl
called-put_away cur done p = refl
called-put_away cur block p = refl

yield_task-Defers :
    (f cur : ℕ) (seen : Status) (p : Processer)
    → p.last_sche_to_dos ≡ added f ∷ []
    → p.statuses cur ≡ block
    → count cur p.runnable_queue ≡ 0
    → Defers f cur p (yield_task (some seen) cur p)
unfolding yield_task
yield_task-Defers f cur seen p d blocked absent =
    let r = record p { running_task = none } in
    let q = put_away cur seen r in
    let (queue, _, statuses, _, _) = put_away-same cur seen r in
    let s : q.statuses cur ≡ block = ap (λ (g : ℕ → Status). g cur) statuses ∙ blocked in
    let (ds, b, deferred) = put_away-Behind f cur seen r d in
    Defers-same f cur q p (called-put_away cur seen r) (
      if_cases (Defers f cur q) q.stop (λ _. swap_to-Defers f cur none ds q (λ e. cc) b deferred s)
        (λ _.
          switch-Defers f cur q.runnable_queue ds q (ap (count cur) queue ∙ absent) b deferred s))

-- What a task defers and then suspends itself for: let `cur` be the running task, with nothing deferred and
-- not in the queue. Where the read of `Yield` through the null pointer traps, the call is undefined; whatever
-- status that read gives, `AddToDo` of `f` and `SuspendTask` lead to a context that is not `cur`, which
-- has called `f`, once and nothing else, while `cur` was blocked and no longer executed.
pub suspend_task-Defers :
    (f cur : ℕ) (p : Processer)
    → p.running_task ≡ some cur
    → p.last_sche_to_dos ≡ []
    → count cur p.runnable_queue ≡ 0
    → (suspend_task none p.running_task (add_to_do (added f) p) ≡ none)
      × ((seen : Status)
          → Defers f cur p (suspend_task (some seen) p.running_task (add_to_do (added f) p)))
unfolding suspend_task yield yield_task
suspend_task-Defers f cur p run none_deferred absent =
    let q = set_status cur block (add_to_do (added f) p) in
    let d : q.last_sche_to_dos ≡ added f ∷ [] = ap (λ ds. ds ++ added f ∷ []) none_deferred in
    (
      ap (λ r. suspend_task none r (add_to_do (added f) p)) run,
      λ seen.
          subst (λ r. Defers f cur p (suspend_task (some seen) r (add_to_do (added f) p))) (sym run)
            (Defers-same f cur q p refl
              (yield_task-Defers f cur seen q d (update-same p.statuses cur block) absent)),
    )
