-- ===== src/Scheduler/IoWait.antt =====
-- scheduler/scheduler.cpp: `IOWaitThread`, which makes the tasks of finished requests runnable, the `AddTask`
-- of a list that it calls, and `WakeUpIOWait`.
pub mod Delivered
pub mod Ending
use uring_fiber.Prelude.{
  update, ℕ, ◌+◌, ◌-◌, ◌%◌, ◌^◌, Bool, true, false, Option, none, some, List, [], ◌∷◌, length,
  get_elem?, set, ℤ, pos, negsuc,
}
use uring_fiber.Engine.{
  Timespec, Prep, Cqe, Engine, Result, exec, wait_result, Waited, resumes, failed, blocked,
  dangling,
}
use uring_fiber.Balance.{Worker, add_tasks}

-- The fields of `Scheduler` that are used here, and `idx`, the static variable of this `AddTask`.
pub record WaitState : Type 0 where
  pub engine : Engine
  pub processers : List Worker
  pub list_idx : ℕ

-- `processers_[idx++%processers_.size()]->AddTask(...)`, given that processor.
unfoldable pub add_at : List ℕ → Option Worker → WaitState → Option WaitState
add_at ts none s = none
add_at ts (some w) s = some (record s {
  processers = set s.processers (s.list_idx % length s.processers) (add_tasks ts w);
  list_idx = (s.list_idx + 1) % 2 ^ 64;
})

-- `AddTask` of a list: `none` is the failing assertion.
unfoldable pub add_list : List ℕ → WaitState → Option WaitState
unfolding add_at
add_list ts s = add_at ts (get_elem? s.processers (s.list_idx % length s.processers)) s

-- `reinterpret_cast<Task*>(tk)`
unfoldable pub as_pointer : ℤ → ℕ
as_pointer (pos n) = n % 2 ^ 64
as_pointer (negsuc n) = (2 ^ 64 - 1 - n) % 2 ^ 64

-- How a run of the thread stands: it goes on, it waits in `WaitResult`, it has ended, an assertion has
-- failed, or it has read a completion that points to nothing.
pub data WaitEnd : Type 0 where
  going waits over asserted astray : WaitEnd

-- A round: what `stop_` reads, and the completions that its call of `WaitResult` is answered with.
pub record Round : Type 0 where
  pub stop : Bool
  pub answers : List (Option Cqe)

abbrev pub unless_asserted : WaitState → Option WaitState → WaitState × WaitEnd
unless_asserted s none = (s, asserted)
unless_asserted s (some t) = (t, going)

-- The body of the loop, after `WaitResult`; without a result the loop goes on.
unfoldable pub after_wait : Engine → Waited → WaitState → WaitState × WaitEnd
unfolding add_list as_pointer
after_wait e (resumes u) s =
    let s' = record s { engine = e } in unless_asserted s' (add_list (as_pointer u ∷ []) s')
after_wait e failed s = (record s { engine = e }, going)
after_wait e blocked s = (record s { engine = e }, waits)
after_wait e dangling s = (record s { engine = e }, astray)

-- One round of `IOWaitThread`.
unfoldable pub wait_round : Round → WaitState → WaitState × WaitEnd
unfolding after_wait
wait_round r s = elim r.stop [
  | true ↦ (s, over)
  | false ↦ let (e, w) = wait_result r.answers s.engine in after_wait e w s
]

abbrev pub while_going : WaitState × WaitEnd → WaitState × WaitEnd → WaitState × WaitEnd
while_going (t, going) rest = rest
while_going (t, end) rest = (t, end)

-- `IOWaitThread`, over the rounds to come.
unfoldable pub io_wait_thread : List Round → WaitState → WaitState × WaitEnd
unfolding wait_round
io_wait_thread [] s = (s, going)
io_wait_thread (r ∷ rs) s = let now = wait_round r s in while_going now (io_wait_thread rs now.0)

-- `WakeUpIOWait`: `res` names its local variable, which keeps what it held; `first` answers `GetSqe`.
unfoldable pub wake_up_io_wait :
    (res : ℕ) (held : Result) (first : Option ℕ) → WaitState → WaitState
wake_up_io_wait res held first s =
    let zero_time : Timespec = record { tv_sec = 0; tv_nsec = 0 } in
    let e = record (s.engine) { results = update s.engine.results res held } in
    record s { engine = (exec (Prep.timer zero_time) res zero_time first none e).0 }
