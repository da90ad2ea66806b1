-- ===== src/Scheduler/IoWait/Delivered.antt =====
-- What `IOWaitThread` does with the completions: every task that is reported is queued once.
use uring_fiber.Prelude.{
  ℕ, ◌+◌, ◌%◌, ◌^◌, ◌<◌, ◌≡◌, ◌≢◌, refl, ap, sym, subst, ◌∙◌, true, false, Option, some, List, [],
  ◌∷◌, ◌++◌, length, length-set, get_elem?, set, count, count-append, arith, inl, inr, Bool-cases,
}
use uring_fiber.Engine.{Engine, wait_result, Waited, resumes, failed, blocked, dangling}
use uring_fiber.Balance.{Worker, add_tasks}
use uring_fiber.Balance.Kept.{queued, queued-set, get_elem?-of_lt}
use uring_fiber.Balance.Adding.{turn_lt, get_elem?-set_self, get_elem?-set_other}
use uring_fiber.Scheduler.IoWait.{
  WaitState, add_at, add_list, as_pointer, WaitEnd, waits, asserted, astray, Round, unless_asserted,
  while_going, after_wait, wait_round, io_wait_thread,
}

-- The tasks that the calls of `WaitResult` name, as long as the thread goes on.
unfoldable pub woken_after : Engine × Waited → (Engine → List ℕ) → List ℕ
woken_after (e, resumes u) later = as_pointer u ∷ later e
woken_after (e, failed) later = later e
woken_after (e, blocked) later = []
woken_after (e, dangling) later = []

unfoldable pub woken : List Round → Engine → List ℕ
unfolding woken_after
woken [] e = []
woken (r ∷ rs) e = elim r.stop [
  | true ↦ []
  | false ↦ woken_after (wait_result r.answers e) (woken rs)
]

-- What a call of `AddTask` with a list leaves: the processor whose turn it is has the tasks in its queue and
-- does not wait, the others are as they were, and the turn has passed on.
pub record Listed (ts : List ℕ) (s t : WaitState) : Type 0 where
  pub queue :
      (w : Worker) × (get_elem? s.processers (s.list_idx % length s.processers) ≡ some w)
      × (get_elem? t.processers (s.list_idx % length s.processers)
          ≡ some (record { runnable_queue = w.runnable_queue ++ ts; waiting = false }))
  pub others :
      (j : ℕ)
      → s.list_idx % length s.processers ≢ j
      → get_elem? t.processers j ≡ get_elem? s.processers j
  pub total : (k : ℕ) → queued k t.processers ≡ queued k s.processers + count k ts
  pub many : length t.processers ≡ length s.processers
  pub turn : t.list_idx ≡ (s.list_idx + 1) % 2 ^ 64
  pub same_engine : t.engine ≡ s.engine

pub add_list-Listed :
    (ts : List ℕ) (s : WaitState)
    → 0 < length s.processers
    → (t : WaitState) × (add_list ts s ≡ some t) × Listed ts s t
unfolding add_list add_at add_tasks
add_list-Listed ts s some_there =
    let i = s.list_idx % length s.processers in
    let (w, at) =
      get_elem?-of_lt s.processers i (turn_lt s.list_idx (length s.processers) some_there) in
    let w' : Worker = record { runnable_queue = w.runnable_queue ++ ts; waiting = false } in
    (
      record s { processers = set s.processers i w'; list_idx = (s.list_idx + 1) % 2 ^ 64 },
      ap (λ o. add_at ts o s) at,
      record {
        queue = (w, at, get_elem?-set_self s.processers i w' w at);
        others = λ j ne. get_elem?-set_other s.processers i j w' ne;
        total = λ k.
            omega (arith, queued-set k i s.processers w w' at, count-append k w.runnable_queue ts);
        many = length-set s.processers i w';
        turn = refl;
        same_engine = refl;
      },
    )

-- What `IOWaitThread` has done after some rounds: each task that was named is queued once more, and no other.
pub record Delivered (ts : List ℕ) (s : WaitState) (r : WaitState × WaitEnd) : Type 0 where
  pub total : (k : ℕ) → queued k r.0.processers ≡ queued k s.processers + count k ts
  pub many : length r.0.processers ≡ length s.processers
  pub not_asserted : r.1 ≢ asserted

nothing_more :
    (s : WaitState) (e : Engine) (end : WaitEnd)
    → end ≢ asserted
    → Delivered [] s (record s { engine = e }, end)
nothing_more s e end ne = record { total = λ k. omega arith; many = refl; not_asserted = ne }

after_wait-Delivered :
    (rs : List Round) (e : Engine) (w : Waited) (s : WaitState)
    → 0 < length s.processers
    → ((t : WaitState)
        → t.engine ≡ e
        → length t.processers ≡ length s.processers
        → Delivered (woken rs e) t (io_wait_thread rs t))
    → let now = after_wait e w s in
      Delivered (woken_after (e, w) (woken rs)) s (while_going now (io_wait_thread rs now.0))
unfolding after_wait woken_after
after_wait-Delivered rs e (resumes u) s some_there later =
    let s' = record s { engine = e } in
    let (t, added, listed) = add_list-Listed (as_pointer u ∷ []) s' some_there in
    let rest = later t listed.same_engine listed.many in
    subst
      (λ (o : Option WaitState).
        let now = unless_asserted s' o in
        Delivered (as_pointer u ∷ woken rs e) s (while_going now (io_wait_thread rs now.0)))
      (sym added)
      record {
        total = λ k. omega (arith, rest.total k, listed.total k);
        many = rest.many ∙ listed.many;
        not_asserted = rest.not_asserted;
      }
after_wait-Delivered rs e failed s some_there later =
    let rest = later (record s { engine = e }) refl refl in
    record { total = rest.total; many = rest.many; not_asserted = rest.not_asserted }
after_wait-Delivered rs e blocked s some_there later = nothing_more s e waits (λ z. cc z)
after_wait-Delivered rs e dangling s some_there later = nothing_more s e astray (λ z. cc z)

-- `IOWaitThread` with at least one processor, over any rounds from any state: each task is queued, over all
-- processors, as often as it was, and once more for each time that `WaitResult` named it before the thread
-- ended or waits for ever; the assertion of `AddTask` never fails.
pub io_wait_thread-Delivered :
    (rs : List Round) (s : WaitState)
    → 0 < length s.processers
    → Delivered (woken rs s.engine) s (io_wait_thread rs s)
unfolding io_wait_thread woken wait_round
io_wait_thread-Delivered [] s some_there = record {
  total = λ k. omega arith;
  many = refl;
  not_asserted = λ z. cc z;
}
io_wait_thread-Delivered (r ∷ rs) s some_there = elim (Bool-cases r.stop) [
  | inl e ↦ rw e (record { total = λ k. omega arith; many = refl; not_asserted = λ z. cc z })
  | inr e ↦ rw e (
      after_wait-Delivered rs (wait_result r.answers s.engine).0 (wait_result r.answers s.engine).1
        s some_there
        (λ t eng many.
          subst (λ f. Delivered (woken rs f) t (io_wait_thread rs t)) eng
            (io_wait_thread-Delivered rs t (subst (λ n. 0 < n) (sym many) some_there))))
]
