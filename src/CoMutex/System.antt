-- ===== src/CoMutex/System.antt =====
-- Tasks over one `CoMutex`, interleaved in any order.
use uring_fiber.Prelude.{ℕ, Bool, true, false, List, [], ◌∷◌, update}
use uring_fiber.CoMutex.{
  Mutex, fresh_mutex, Pc, idle, lock_load, suspended, holding, unlock_load, try_load, try_failed,
  Effect, advance,
}

pub record System : Type 0 where
  pub mutex : Mutex
  pub pc : ℕ → Pc

abbrev pub init : System
init = record { mutex = fresh_mutex; pc = λ _. idle }

-- `AddTask` of a task that waits in `SuspendTask`: it goes on at the head of the loop of `lock`.
abbrev pub resumed : Pc → Pc
resumed suspended = lock_load
resumed p = p

abbrev pub wake : List ℕ → (ℕ → Pc) → ℕ → Pc
wake [] pc = pc
wake (t ∷ ts) pc = wake ts (update pc t (resumed (pc t)))

-- What a task does on its own: call one of the three operations, or see `try_lock` fail.
pub data Call : Pc → Pc → Type 0 where
  calls_lock : Call idle lock_load
  calls_try_lock : Call idle try_load
  calls_unlock : Call holding unlock_load
  sees_failure : Call try_failed idle

-- The system after one access of task `i`.
abbrev pub accessed : System → ℕ → System
accessed s i = record { mutex = e.mutex; pc = wake e.woken (update s.pc i e.next) }
  where
    e : Effect
    e = advance i s.mutex (s.pc i)

abbrev pub moved : System → ℕ → Pc → System
moved s i p = record s { pc = update s.pc i p }

pub data Step (s : System) : System → Type 0 where
  call : (i : ℕ) {p : Pc} → Call (s.pc i) p → Step s (moved s i p)
  access : (i : ℕ) → Step s (accessed s i)

pub data Reach (s : System) : System → Type 0 where
  here : Reach s s
  later : {t u : System} → Reach s t → Step t u → Reach s u

-- Between the return of `lock` (or of `try_lock` with true) and the call of `unlock`.
abbrev pub holds : Pc → Bool
holds holding = true
holds _ = false
