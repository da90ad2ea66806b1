-- ===== src/CoMutex.antt =====
-- sync/co_mutex.hpp: the coroutine mutex, one access of its atomic word at a time.
pub mod System
pub mod Faults
pub mod Contended
pub mod Uncontended
mod Tests
use uring_fiber.Prelude.{
  ℕ, ◌+◌, ◌-◌, ◌%◌, ◌^◌, ◌<◌, Bool, true, false, ◌&&◌, Option, none, some, List, [], ◌∷◌, ◌++◌,
  ◌==◌, if◌then◌else◌, ltb,
}

-- `struct state`: `unsigned locked:1; unsigned waiters:31`.
pub record Word : Type 0 where
  pub locked : ℕ
  pub waiters : ℕ

-- The fields of a `CoMutex`. `waiter_queue` is the `LFQueue<Task>`, oldest first, and a task is named
-- by its number.
pub record Mutex : Type 0 where
  pub word : Word
  pub waiter_queue : List ℕ

abbrev pub fresh_mutex : Mutex
fresh_mutex = record { word = record { locked = 0; waiters = 0 }; waiter_queue = [] }

-- Does a compare-exchange that expects `a` find it?
abbrev pub same_word : Word → Word → Bool
same_word a b = a.locked == b.locked && a.waiters == b.waiters

-- `newS` of `lock`, computed from `oldS`; the bit-fields wrap.
unfoldable pub lock_target : Word → Word
lock_target old =
    if old.locked == 0
    then record old { locked = 1 }
    else record old { waiters = (old.waiters + 1) % 2 ^ 31 }

-- `state{oldS.locked, oldS.waiters-1U}` of `unlock`.
unfoldable pub handed_over : Word → Word
handed_over old = record old { waiters = (old.waiters + 2 ^ 31 - 1) % 2 ^ 31 }

-- Where a task stands in the mutex, with the locals that are live there.
pub data Pc : Type 0 where
  idle : Pc  -- outside
  lock_load : Pc  -- head of the loop in `lock`
  lock_cas : (old : Word) → Pc  -- before its compare-exchange
  lock_park : Pc  -- before `AddToDo` and `SuspendTask`
  suspended : Pc  -- inside `SuspendTask`
  holding : Pc  -- `lock`, or `try_lock` with the result true, has returned
  unlock_load : Pc  -- start of `unlock`
  unlock_cas : (old : Word) → Pc  -- its `while(!compare_exchange_strong(...))`
  unlock_hand : (old : Word) → Pc  -- after `oldS.locked=0`
  unlock_pop : Pc  -- head of the loop that pops a waiter
  try_load : Pc  -- start of `try_lock`
  try_cas : (old : Word) → Pc  -- before its compare-exchange
  try_failed : Pc  -- `try_lock` has returned false
  try_undefined : Pc  -- the end of `try_lock` with no `return`: undefined behaviour

-- What one access leaves behind: the mutex, where the task stands, and the tasks given to `AddTask`.
pub record Effect : Type 0 where
  pub mutex : Mutex
  pub next : Pc
  pub woken : List ℕ

abbrev goes : Mutex → Pc → Effect
goes m p = record { mutex = m; next = p; woken = [] }

-- The compare-exchange of `lock` succeeded: `newS` is in place.
unfoldable pub after_lock : ℕ → Mutex → Word → Effect
after_lock self m new =
    if new.locked == 1
    then goes (record m { word = new }) holding
    else goes (record m { word = new }) lock_park

-- One pop of the waiter queue; a null result goes round the loop.
unfoldable pub pop_waiter : Mutex → List ℕ → Effect
pop_waiter m [] = goes m unlock_pop
pop_waiter m (t ∷ ts) = record {
  mutex = record m { waiter_queue = ts };
  next = idle;
  woken = t ∷ [];
}

-- The next access of task `self`. `idle`, `holding`, `suspended` and the ends of `try_lock` wait for
-- the task's own code or for a wake-up: the relation `System.Step` moves them.
unfoldable pub advance : ℕ → Mutex → Pc → Effect
unfolding lock_target handed_over after_lock pop_waiter
advance self m idle = goes m idle
advance self m lock_load = goes m (lock_cas m.word)
advance self m (lock_cas old) =
    if same_word m.word old then after_lock self m (lock_target old) else goes m lock_load
advance self m lock_park = goes (record m { waiter_queue = m.waiter_queue ++ self ∷ [] }) suspended
advance self m suspended = goes m suspended
advance self m holding = goes m holding
advance self m unlock_load = goes m (unlock_cas m.word)
advance self m (unlock_cas old) =
    if same_word m.word old
    then goes (record m { word = record { locked = 0; waiters = old.waiters } })
        (unlock_hand (record old { locked = 0 }))
    else goes m (unlock_cas m.word)
advance self m (unlock_hand old) =
    if ltb 0 old.waiters && same_word m.word old
    then goes (record m { word = handed_over old }) unlock_pop
    else goes m idle
advance self m unlock_pop = pop_waiter m m.waiter_queue
advance self m try_load =
    if m.word.locked == 0 then goes m (try_cas m.word) else goes m try_undefined
advance self m (try_cas old) =
    if same_word m.word old
    then goes (record m { word = record { locked = 1; waiters = old.waiters } }) holding
    else goes m try_failed
advance self m try_failed = goes m try_failed
advance self m try_undefined = goes m try_undefined
