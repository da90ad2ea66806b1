-- ===== src/Processer/Conserved.antt =====
-- Where tasks are after `Yield`, whatever its read through a null pointer gives.
use uring_fiber.Prelude.{
  ℕ, ◌+◌, ◌≡◌, refl, ap, Option, none, some, List, [], ◌∷◌, ◌++◌, count, count-append, ◌==◌,
  if◌then◌else◌, arith,
}
use uring_fiber.Pool.{Status, runnable, block, done}
use uring_fiber.Processer.{
  ToDo, requeue, give_back, added, Processer, run_to_do, run_to_dos, after_last_sche, pop_back,
}

-- How often a task is to be queued, and to be given back, by what is deferred.
abbrev pub requeued : ℕ → List ToDo → ℕ
requeued t [] = 0
requeued t (requeue tk ∷ ds) = (if tk == t then 1 else 0) + requeued t ds
requeued t (_ ∷ ds) = requeued t ds

abbrev pub given : ℕ → List ToDo → ℕ
given t [] = 0
given t (give_back tk ∷ ds) = (if tk == t then 1 else 0) + given t ds
given t (_ ∷ ds) = given t ds

abbrev pub here : ℕ → Option ℕ → ℕ
here t none = 0
here t (some tk) = if tk == t then 1 else 0

-- How often the processor has task `t`: in its queue, on the way to it, or executing.
abbrev pub held : ℕ → Processer → ℕ
held t p = count t p.runnable_queue + requeued t p.last_sche_to_dos + here t p.current

-- How often `t` has been given back to the pool, or is on the way there.
abbrev pub gone : ℕ → Processer → ℕ
gone t p = count t p.released + given t p.last_sche_to_dos

queue-run_to_dos :
    (t : ℕ) (ds : List ToDo) (p : Processer)
    → count t (run_to_dos ds p).runnable_queue ≡ count t p.runnable_queue + requeued t ds
unfolding run_to_dos run_to_do
queue-run_to_dos t [] p = omega arith
queue-run_to_dos t (requeue tk ∷ ds) p = omega (
  arith,
  queue-run_to_dos t ds (run_to_do (requeue tk) p),
  count-append t p.runnable_queue (tk ∷ []),
)
queue-run_to_dos t (give_back tk ∷ ds) p = queue-run_to_dos t ds (run_to_do (give_back tk) p)
queue-run_to_dos t (added f ∷ ds) p = queue-run_to_dos t ds (run_to_do (added f) p)

released-run_to_dos :
    (t : ℕ) (ds : List ToDo) (p : Processer)
    → count t (run_to_dos ds p).released ≡ count t p.released + given t ds
unfolding run_to_dos run_to_do
released-run_to_dos t [] p = omega arith
released-run_to_dos t (requeue tk ∷ ds) p = released-run_to_dos t ds (run_to_do (requeue tk) p)
released-run_to_dos t (give_back tk ∷ ds) p = omega (
  arith,
  released-run_to_dos t ds (run_to_do (give_back tk) p),
  count-append t p.released (tk ∷ []),
)
released-run_to_dos t (added f ∷ ds) p = released-run_to_dos t ds (run_to_do (added f) p)

current-run_to_dos : (ds : List ToDo) (p : Processer) → (run_to_dos ds p).current ≡ p.current
unfolding run_to_dos run_to_do
current-run_to_dos [] p = refl
current-run_to_dos (requeue tk ∷ ds) p = current-run_to_dos ds (run_to_do (requeue tk) p)
current-run_to_dos (give_back tk ∷ ds) p = current-run_to_dos ds (run_to_do (give_back tk) p)
current-run_to_dos (added f ∷ ds) p = current-run_to_dos ds (run_to_do (added f) p)

-- Calling what is deferred changes where a task is held, not how often.
pub held-after_last_sche : (t : ℕ) (p : Processer) → held t (after_last_sche p) ≡ held t p
unfolding after_last_sche
held-after_last_sche t p = omega (
  arith,
  queue-run_to_dos t p.last_sche_to_dos p,
  ap (here t) (current-run_to_dos p.last_sche_to_dos p),
)

pub gone-after_last_sche : (t : ℕ) (p : Processer) → gone t (after_last_sche p) ≡ gone t p
unfolding after_last_sche
gone-after_last_sche t p = omega (arith, released-run_to_dos t p.last_sche_to_dos p)

pub pop_back-append : (ds : List ToDo) (d : ToDo) → pop_back (ds ++ d ∷ []) ≡ some ds
unfolding pop_back
pop_back-append [] d = refl
pop_back-append (e ∷ []) d = refl
pop_back-append (e ∷ f ∷ ds) d = rw (pop_back-append (f ∷ ds) d, pop_back) refl

-- What leaves the processor when a task with this status yields, and what goes to the pool.
abbrev pub leaves : ℕ → Status → ℕ → ℕ
leaves t runnable cur = 0
leaves t block cur = here t (some cur)
leaves t done cur = here t (some cur)

abbrev pub goes_back : ℕ → Status → ℕ → ℕ
goes_back t runnable cur = 0
goes_back t block cur = 0
goes_back t done cur = here t (some cur)

-- Only functions of `AddToDo` are deferred, as when a task executes.
unfoldable pub OnlyAdded : List ToDo → Type 0
OnlyAdded ds = (t : ℕ) → (requeued t ds ≡ 0) × (given t ds ≡ 0)

-- What becomes of `Yield` of `cur`, by what its switch sees. It is undefined where the read traps, and where
-- `pop_back` has nothing to take back. A task that is runnable may go on, and all is held as before. Else
-- `cur` has left, into the queue, to the pool or to neither, by the status that the switch saw.
pub data Yielded (p : Processer) (cur : ℕ) : Option Status → Option Processer → Type 0 where
  trapped : Yielded p cur none none
  nothing_back :
      p.last_sche_to_dos ≡ []
      → p.runnable_queue ≡ []
      → p.statuses cur ≡ runnable
      → Yielded p cur (some block) none
  went_on :
      (s : Status) (q : Processer)
      → p.runnable_queue ≡ []
      → p.statuses cur ≡ runnable
      → ((t : ℕ) → held t q ≡ held t p)
      → ((t : ℕ) → gone t q ≡ gone t p)
      → Yielded p cur (some s) (some q)
  left :
      (s : Status) (q : Processer)
      → ((t : ℕ) → held t q + leaves t s cur ≡ held t p)
      → ((t : ℕ) → gone t q ≡ gone t p + goes_back t s cur)
      → Yielded p cur (some s) (some q)
