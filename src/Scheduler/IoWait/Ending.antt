-- ===== src/Scheduler/IoWait/Ending.antt =====
-- How `Stop` ends `IOWaitThread`: by a request that `WakeUpIOWait` makes for nobody.
use uring_fiber.Prelude.{
  ℕ, ◌<◌, ◌≡◌, refl, ap, ◌∙◌, true, false, Option, none, some, List, [], ◌∷◌, length, ℤ, update,
  update-same,
}
use uring_fiber.Engine.{Timespec, Prep, Cqe, Engine, Result, wait_result, resumes}
use uring_fiber.Engine.Completion.{request_done, exec-completes}
use uring_fiber.Scheduler.IoWait.{
  WaitState, as_pointer, WaitEnd, going, over, Round, after_wait, wait_round, io_wait_thread,
  wake_up_io_wait, unless_asserted, while_going,
}
use uring_fiber.Scheduler.IoWait.Delivered.{Listed, add_list-Listed}

-- A round whose `WaitResult` names a task: the thread goes on, and the task is queued.
pub wait_round-resumes :
    (cs : List (Option Cqe)) (u : ℤ) (s : WaitState)
    → 0 < length s.processers
    → (wait_result cs s.engine).1 ≡ resumes u
    → (t : WaitState) × (wait_round (record { stop = false; answers = cs }) s ≡ (t, going))
      × Listed (as_pointer u ∷ []) (record s { engine = (wait_result cs s.engine).0 }) t
unfolding wait_round after_wait
wait_round-resumes cs u s some_there woken =
    let e = (wait_result cs s.engine).0 in
    let s' : WaitState = record s { engine = e } in
    let (t, added, listed) = add_list-Listed (as_pointer u ∷ []) s' some_there in
    (t, ap (λ w. after_wait e w s) woken ∙ ap (unless_asserted s') added, listed)

-- Let `WakeUpIOWait` be called with at least one processor there, and get its entry, at an address of the
-- heap that is free. When the kernel reports its timer, with whatever result, to `IOWaitThread` waiting in
-- `WaitResult`, and `stop_` is set by then, the thread goes round once more and ends. It has queued, on the
-- processor whose turn it is, the pointer that the local `res` of `WakeUpIOWait` happened to hold.
pub wake_up_io_wait-ends :
    (res : ℕ) (held : Result) (slot : ℕ) (r : ℤ) (cs later : List (Option Cqe)) (rs : List Round)
    (s : WaitState)
    → 0 < length s.processers
    → s.engine.datas s.engine.next_data ≡ none
    → let answered : Round = record { stop = false; answers = request_done s.engine r ∷ cs } in
      let stopped : Round = record { stop = true; answers = later } in
      let woken = wake_up_io_wait res held (some slot) s in
      (t : WaitState) × (io_wait_thread (answered ∷ stopped ∷ rs) woken ≡ (t, over))
      × Listed (as_pointer held.user_data ∷ []) (record s { engine = t.engine }) t
unfolding io_wait_thread wake_up_io_wait
wake_up_io_wait-ends res held slot r cs later rs s some_there unused =
    let e : Engine = record (s.engine) { results = update s.engine.results res held } in
    let zero_time : Timespec = record { tv_sec = 0; tv_nsec = 0 } in
    let (named, _, _, _) =
      exec-completes (Prep.timer zero_time) res zero_time slot none e r cs refl unused in
    let woken = wake_up_io_wait res held (some slot) s in
    let (t, round, listed) =
      wait_round-resumes (request_done s.engine r ∷ cs) held.user_data woken some_there (
        named ∙ ap (λ (x : Result). resumes x.user_data) (update-same s.engine.results res held)) in
    (
      t,
      ap
            (λ (now : WaitState × WaitEnd).
              while_going now (io_wait_thread (record { stop = true; answers = later } ∷ rs) now.0))
            round
          ∙ (unfold wait_round in refl),
      record {
        queue = listed.queue;
        others = listed.others;
        total = listed.total;
        many = listed.many;
        turn = listed.turn;
        same_engine = refl;
      },
    )
