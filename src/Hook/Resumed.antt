-- ===== src/Hook/Resumed.antt =====
-- A hooked call with the thread that waits for its completion: the task that called is queued again.
use uring_fiber.Prelude.{
  ℕ, ◌^◌, ◌<◌, ◌≡◌, refl, ap, ◌∙◌, subst, true, false, Option, none, some, List, [], ◌∷◌, length, ℤ,
  pos, pos_part, update-same, arith,
}
use uring_fiber.Engine.{Timespec, Prep, Cqe, Engine, Result, exec, resumes}
use uring_fiber.Engine.Completion.{request_done, exec-completes}
use uring_fiber.Hook.Fds.{Fds}
use uring_fiber.Hook.Io.{uring, recv, io_result, timespec_of}
use uring_fiber.Hook.Whole.{Setting, returned, prepared, go_on, as_returned, Served, recv-route}
use uring_fiber.Scheduler.IoWait.{WaitState, as_pointer, going, wait_round}
use uring_fiber.Scheduler.IoWait.Delivered.{Listed}
use uring_fiber.Scheduler.IoWait.Ending.{wait_round-resumes}

-- The scheduler once the request of the call has got its entry.
abbrev pub requested : Setting → Prep → ℕ → WaitState → WaitState
requested s p slot ws = record ws {
  engine = (exec p s.res (record { tv_sec = 0; tv_nsec = 0 }) (some slot) s.second (prepared s)).0;
}

-- A hooked `recv` in the task at `tk`, on a blocking socket without a timeout, whose request got its entry.
-- When `IOWaitThread` reads its completion with `r`, and at least one processor is there, the thread goes
-- on; `tk` is queued at the end of the queue of the processor whose turn it is, that processor does not
-- wait, and the others are as they were. Wherever `tk` is then run, the call returns what the system call
-- would have.
pub recv-requeues :
    (s : Setting) (tk : ℕ) (fd : ℤ) (buf len flags slot : ℕ) (f : Fds) (r : ℤ)
    (cs : List (Option Cqe)) (ws : WaitState)
    → Served fd flags 0 f
    → s.task ≡ pos tk
    → tk < 2 ^ 64
    → s.engine.datas s.engine.next_data ≡ none
    → 0 < length ws.processers
    → let p = Prep.recv (pos_part fd) buf len flags in
      (recv true fd buf len flags f ≡ uring p (some (record { tv_sec = 0; tv_nsec = 0 })))
      × ((t : WaitState) × (wait_round
              (record { stop = false; answers = request_done s.engine r ∷ cs })
              (requested s p slot ws)
            ≡ (t, going))
          × Listed (tk ∷ []) (record ws { engine = t.engine }) t
          × (go_on s.res t.engine (resumes (pos tk))
              ≡ returned t.engine (pos tk) (as_returned r).0 (as_returned r).1))
unfolding as_pointer go_on timespec_of io_result
recv-requeues s tk fd buf len flags slot f r cs ws served here small unused some_there =
    let p = Prep.recv (pos_part fd) buf len flags in
    let t0 : Timespec = record { tv_sec = 0; tv_nsec = 0 } in
    let (named, result, _, _) =
      exec-completes p s.res t0 slot s.second (prepared s) r cs refl unused in
    let mine : ((prepared s).results s.res).user_data ≡ pos tk =
      ap (λ (x : Result). x.user_data) (update-same s.engine.results s.res _) ∙ here in
    let (t, round, listed) =
      wait_round-resumes (request_done s.engine r ∷ cs) (pos tk) (requested s p slot ws) some_there
        (named ∙ ap resumes mine) in
    let same_task : as_pointer (pos tk) ≡ tk = omega (arith, small) in
    let done : (t.engine.results s.res).ret ≡ r =
      ap (λ (e : Engine). (e.results s.res).ret) listed.same_engine ∙ result in
    (
      recv-route fd buf len flags 0 f served,
      (
        t,
        round,
        subst (λ k. Listed (k ∷ []) (record ws { engine = t.engine }) t) same_task
            record {
              queue = listed.queue;
              others = listed.others;
              total = listed.total;
              many = listed.many;
              turn = listed.turn;
              same_engine = refl;
            },
        ap (λ (x : ℤ). returned t.engine (pos tk) (io_result x).0 (io_result x).1) done,
      ),
    )
