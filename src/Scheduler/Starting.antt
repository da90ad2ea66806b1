-- ===== src/Scheduler/Starting.antt =====
-- scheduler/scheduler.cpp: `Start`, up to the tasks that were added before it.
use uring_fiber.Prelude.{
  ℕ, zero, suc, ◌≡◌, refl, ap, true, false, not, ◌||◌, List, [], ◌∷◌, ◌++◌, is_empty, ◌==◌,
  if◌then◌else◌, if_cases,
}
use uring_fiber.Processer.Waiting.{ProcState, new_state, Move, run}
use uring_fiber.Processer.Waiting.Ended.{is_ended, run-EndsStopped}

-- Where `Start` stands: the assertion at its head has failed; in `Start` of the last processor, which has
-- not come back; or past the loop, at the tasks of `tempTasks_`.
pub data StartAt : Type 0 where
  refused inside past_loop : StartAt

-- The loop, for `n` more processors: each is made, and its `Start` called. A processor's `Start` is given by
-- all that happens while it runs.
unfoldable pub start_loop : ℕ → List (List Move) → List ProcState → List ProcState × StartAt
start_loop zero mss ps = (ps, past_loop)
start_loop (suc n) [] ps = (ps ++ new_state ∷ [], inside)
start_loop (suc n) (ms ∷ mss) ps =
    let w = run ms new_state in
    let rest = start_loop n mss (ps ++ w ∷ []) in
    if is_ended w.thread then rest else (ps ++ w ∷ [], inside)

-- `Start`, with the processors that are there.
unfoldable pub start_scheduler : ℕ → List (List Move) → List ProcState → List ProcState × StartAt
unfolding start_loop
start_scheduler n mss ps =
    if n == 0 || not (is_empty ps) then (ps, refused) else start_loop n mss ps

-- Every processor of the list was told to stop.
abbrev pub AllStopped : List ProcState → Type 0
AllStopped [] = Unit {0}
AllStopped (w ∷ ws) = (w.stop ≡ true) × AllStopped ws

-- The processors in front of the last one.
abbrev pub but_last : List ProcState → List ProcState
but_last [] = []
but_last (w ∷ []) = []
but_last (w ∷ v ∷ ws) = w ∷ but_last (v ∷ ws)

but_last-snoc : (ps : List ProcState) (w : ProcState) → but_last (ps ++ w ∷ []) ≡ ps
but_last-snoc [] w = refl
but_last-snoc (p ∷ []) w = refl
but_last-snoc (p ∷ q ∷ ps) w = ap (λ l. p ∷ l) (but_last-snoc (q ∷ ps) w)

AllStopped-snoc :
    (ps : List ProcState) (w : ProcState)
    → AllStopped ps
    → w.stop ≡ true
    → AllStopped (ps ++ w ∷ [])
AllStopped-snoc [] w a e = (e, tt)
AllStopped-snoc (p ∷ ps) w a e = (a.0, AllStopped-snoc ps w a.1 e)

-- What the loop leaves behind: all processors are stopped once it is over, and all but the last one while
-- it is not.
abbrev pub Outlived : List ProcState × StartAt → Type 0
Outlived (ps, past_loop) = AllStopped ps
Outlived (ps, inside) = AllStopped (but_last ps)
Outlived (ps, refused) = ps ≡ []

in_last : (ps : List ProcState) (w : ProcState) → AllStopped ps → Outlived (ps ++ w ∷ [], inside)
in_last ps w a = rw (but_last-snoc ps w) a

start_loop-Outlived :
    (n : ℕ) (mss : List (List Move)) (ps : List ProcState)
    → AllStopped ps
    → Outlived (start_loop n mss ps)
unfolding start_loop
start_loop-Outlived zero mss ps a = a
start_loop-Outlived (suc n) [] ps a = in_last ps new_state a
start_loop-Outlived (suc n) (ms ∷ mss) ps a =
    let w = run ms new_state in
    if_cases Outlived (is_ended w.thread)
      (λ over.
        start_loop-Outlived n mss (ps ++ w ∷ [])
          (AllStopped-snoc ps w a (run-EndsStopped ms new_state (λ h. cc) over)))
      (λ _. in_last ps w a)

-- `Scheduler::Start` of any number of processors, when none is there, whatever happens while it runs: it makes
-- another processor only once all before it have been told to stop, and comes to the tasks that were added
-- before it, and to balancing, only once all processors have been.
pub start_scheduler-Outlived :
    (n : ℕ) (mss : List (List Move)) → Outlived (start_scheduler n mss [])
unfolding start_scheduler
start_scheduler-Outlived n mss =
    if_cases Outlived (n == 0 || false) (λ _. refl) (λ _. start_loop-Outlived n mss [] tt)
