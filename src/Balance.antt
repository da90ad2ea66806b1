-- ===== src/Balance.antt =====
-- scheduler/scheduler.cpp and processer/processer.cpp: how tasks come to the processors and move between
-- them: `Scheduler::AddTask` and `LoadBalance`, over `TaskSize`, `Steal` and the two `AddTask`s of
-- `Processer`. One call runs at a time. Sizes stay within `int`.
pub mod Kept
pub mod Adding
mod Tests
use uring_fiber.Prelude.{
  ℕ, zero, suc, ◌+◌, ◌%◌, ◌^◌, Bool, true, false, Option, none, some, List, [], ◌∷◌, ◌++◌, ◌==◌,
  if◌then◌else◌, length, get_elem?, set, take, drop, ℤ, pos_part, is_empty,
}
use uring_fiber.Pool.{TaskPool, get_out}

-- What `LoadBalance` does with `float`: conversions, arithmetic, comparisons and its two constants.
pub record Floats {ℓ} (W : Type ℓ) : Type ℓ where
  pub of_int : ℕ → W
  pub to_int : W → ℤ
  pub div : W → W → W
  pub mul : W → W → W
  pub sub : W → W → W
  pub lt : W → W → Bool
  pub le : W → W → Bool
  pub high : W  -- `1.1f`
  pub low : W  -- `0.3f`

-- A `Processer` as the scheduler sees it: `runnableQueue_`, oldest first, and `status_`.
pub record Worker : Type 0 where
  pub runnable_queue : List ℕ
  pub waiting : Bool

-- `TaskSize`
abbrev pub task_size : Worker → ℕ
task_size w = length w.runnable_queue

-- `Steal`: what is stolen, and what is left.
unfoldable pub steal : ℕ → Worker → List ℕ × Worker
steal num w = (take num w.runnable_queue, record w { runnable_queue = drop num w.runnable_queue })

-- `AddTask` of a list; a processor that waits is woken.
unfoldable pub add_tasks : List ℕ → Worker → Worker
add_tasks ts w = record { runnable_queue = w.runnable_queue ++ ts; waiting = false }

-- `AddTask` of a function, where `tk` is what its uninitialised pointer holds: the first `Get` leaves it.
unfoldable pub add_func : (tk address func : ℕ) → TaskPool → Worker → Option (TaskPool × Worker)
unfolding add_tasks
add_func tk address func pool w = elim (get_out tk address func pool) [
  | none ↦ none
  | some (out, pool') ↦ some (pool', add_tasks (out ∷ []) w)
]

-- The fields of `Scheduler` that `AddTask` uses, and its static `idx`.
pub record Dispatch : Type 0 where
  pub processers : List Worker
  pub temp_tasks : List ℕ
  pub idx : ℕ
  pub pool : TaskPool

-- `processers_[i]->AddTask(func)`; `none` is an index out of range, or what is undefined in `Get`.
unfoldable pub add_to : (i tk address func : ℕ) → Dispatch → Option Dispatch
unfolding add_func
add_to i tk address func s = elim (get_elem? s.processers i) [
  | none ↦ none
  | some w ↦ elim (add_func tk address func s.pool w) [
    | none ↦ none
    | some (pool', w') ↦ some (record s { pool = pool'; processers = set s.processers i w' })
  ]
]

-- `AddTask` from outside of the processors: the next one in turn.
unfoldable pub add_next : (tk address func : ℕ) → Dispatch → Option Dispatch
unfolding add_to
add_next tk address func s =
    add_to (s.idx % length s.processers) tk address func (record s { idx = (s.idx + 1) % 2 ^ 64 })

-- `AddTask`, called on the processor `cur`, or on none.
unfoldable pub add_task : Option ℕ → (tk address func : ℕ) → Dispatch → Option Dispatch
unfolding add_to add_next
add_task cur tk address func s =
    if is_empty s.processers
    then some (record s { temp_tasks = s.temp_tasks ++ func ∷ [] })
    else elim cur [ none ↦ add_next tk address func s | some i ↦ add_to i tk address func s ]

-- The processors are handled by their places in `processers_`.
abbrev pub size_at : List Worker → ℕ → ℕ
size_at ws i = elim (get_elem? ws i) [ none ↦ 0 | some w ↦ task_size w ]

abbrev pub total_tasks : List Worker → ℕ
total_tasks [] = 0
total_tasks (w ∷ ws) = task_size w + total_tasks ws

-- Steal from `src` and add to `dst` what there is.
unfoldable pub move_tasks : (num src dst : ℕ) → List Worker → List Worker
unfolding steal add_tasks
move_tasks num src dst ws = elim (get_elem? ws src) [
  | none ↦ ws
  | some w ↦
      let (stolen, left) = steal num w in
      let ws' = set ws src left in
      if is_empty stolen
      then ws'
      else elim (get_elem? ws' dst) [ none ↦ ws' | some d ↦ set ws' dst (add_tasks stolen d) ]
]

-- `std::max(1, z)`
abbrev pub at_least_one : ℤ → ℕ
at_least_one z = if pos_part z == 0 then 1 else pos_part z

module _ {ℓ} {W : Type ℓ} ⦃f : Floats W⦄ where
  abbrev pub average : List Worker → W
  average ws = f.div (f.of_int (total_tasks ws)) (f.of_int (length ws))

  -- `stealNum`
  abbrev pub steal_num : W → ℕ → ℕ
  steal_num avg size = at_least_one (f.to_int (f.div (f.sub (f.of_int size) avg) (f.of_int 4)))

  abbrev pub is_over : W → ℕ → Bool
  is_over avg size = f.lt (f.mul avg f.high) (f.of_int size)

  abbrev pub is_under : W → ℕ → Bool
  is_under avg size = f.lt (f.of_int size) (f.mul avg f.low)

  -- The two lists of processors, from place `i` on.
  unfoldable pub overloaded : W → ℕ → List Worker → List ℕ
  overloaded avg i [] = []
  overloaded avg i (w ∷ ws) =
      let rest = overloaded avg (suc i) ws in if is_over avg (task_size w) then i ∷ rest else rest

  unfoldable pub underloaded : W → ℕ → List Worker → List ℕ
  underloaded avg i [] = []
  underloaded avg i (w ∷ ws) =
      let rest = underloaded avg (suc i) ws in
      if is_over avg (task_size w)
      then rest
      else (if is_under avg (task_size w) then i ∷ rest else rest)

  -- The loop over the overloaded processors, for one underloaded one.
  unfoldable pub balance_from : W → ℕ → List ℕ → List Worker → List Worker
  unfolding move_tasks
  balance_from avg dst [] ws = ws
  balance_from avg dst (src ∷ srcs) ws =
      elim (f.le (f.of_int (size_at ws src)) (f.mul avg f.high)) [
        | true ↦ balance_from avg dst srcs ws
        | false ↦ elim (f.le (f.mul avg f.low) (f.of_int (size_at ws dst))) [
          | true ↦ ws
          | false ↦
              balance_from avg dst srcs (move_tasks (steal_num avg (size_at ws src)) src dst ws)
        ]
      ]

  unfoldable pub balance_all : W → List ℕ → List ℕ → List Worker → List Worker
  unfolding balance_from
  balance_all avg [] srcs ws = ws
  balance_all avg (dst ∷ dsts) srcs ws = balance_all avg dsts srcs (balance_from avg dst srcs ws)

module _ {ℓ} (W : Type ℓ) ⦃f : Floats W⦄ where
  -- `LoadBalance`
  unfoldable pub load_balance : List Worker → List Worker
  unfolding overloaded underloaded balance_all
  load_balance ws =
      let avg : W = average ws in
      if is_empty ws then ws else balance_all avg (underloaded avg 0 ws) (overloaded avg 0 ws) ws
