-- ===== src/Scheduler/Handover.antt =====
-- One call of `IOSubmit` or of `Stop` while `IOSubmitThread` sleeps: what is pushed is executed, and the
-- thread ends.
use uring_fiber.Prelude.{ℕ, zero, suc, update-same, true, false, List, [], ◌∷◌, ◌++◌, ◌≡◌, ap, ◌∙◌}
use uring_fiber.Scheduler.{
  asleep, CallerPc, outside, submit_push, submit_test, stop_store, wake_lock, wake_test, wake_clear,
  wake_notify, wake_unlock, Scheduler, start, acquire, pop_queue, thread_step, notified,
  caller_step, enter, nobody, woken, ended, Move, thread_moves, submits, stops, move, run,
  caller_to,
}
use uring_fiber.Scheduler.Stopping.{accesses, run-access, run-stops}

-- The thread sleeps on an empty queue, the mutex being free.
abbrev pub waiting : (ℕ → CallerPc) → List ℕ → List ℕ → Scheduler
waiting cs ps es = record start {
  io_wait = true;
  thread = asleep;
  callers = cs;
  pushed = ps;
  executed = es;
}

-- `n` accesses of the thread.
abbrev pub thread_runs : ℕ → List Move
thread_runs zero = []
thread_runs (suc n) = thread_moves ∷ thread_runs n

run-submits :
    (i f : ℕ) (ms : List Move) (s : Scheduler)
    → s.callers i ≡ outside
    → run (submits i f ∷ ms) s ≡ run ms (caller_to i (submit_push f) s)
unfolding run move enter
run-submits i f ms s at = ap (λ p. run ms (enter i p (submit_push f) s)) at

-- `WakeUpIOSubmit` from its start, while the thread sleeps.
wake_call :
    (i : ℕ) (ms : List Move) (s : Scheduler)
    → s.callers i ≡ wake_lock
    → (cs : ℕ → CallerPc) × (run
          (accesses i 5 ms)
          (record s { io_wait = true; owner = nobody; thread = asleep })
        ≡ run ms (record s { io_wait = false; owner = nobody; thread = woken; callers = cs }))
unfolding caller_step acquire notified
wake_call i ms s at =
    let s0 : Scheduler = record s { io_wait = true; owner = nobody; thread = asleep } in
    let s1 = caller_step i wake_lock s0 in
    let s2 = caller_step i wake_test s1 in
    let s3 = caller_step i wake_clear s2 in
    let s4 = caller_step i wake_notify s3 in
    let s5 = caller_step i wake_unlock s4 in
    (
      s5.callers,
      run-access i wake_lock (accesses i 4 ms) s0 at
          ∙ run-access i wake_test (accesses i 3 ms) s1 (update-same s0.callers i _)
          ∙ run-access i wake_clear (accesses i 2 ms) s2 (update-same s1.callers i _)
          ∙ run-access i wake_notify (accesses i 1 ms) s3 (update-same s2.callers i _)
          ∙ run-access i wake_unlock ms s4 (update-same s3.callers i _),
    )

-- While `IOSubmitThread` sleeps on an empty queue with a free mutex, a call of `IOSubmit` with `f`, run to
-- its end by a caller that is outside, wakes it, and within six accesses of its own it has popped and
-- executed `f`, the queue being empty again and `ioWait_` cleared.
pub submit-wakes :
    (cs : ℕ → CallerPc) (ps es : List ℕ) (i f : ℕ)
    → cs i ≡ outside
    → (ds : ℕ → CallerPc) × (run (submits i f ∷ accesses i 7 (thread_runs 6)) (waiting cs ps es)
        ≡ record start { callers = ds; pushed = ps ++ f ∷ []; executed = es ++ f ∷ [] })
unfolding caller_step run move thread_step acquire pop_queue
submit-wakes cs ps es i f out =
    let s0 = caller_to i (submit_push f) (waiting cs ps es) in
    let s1 = caller_step i (submit_push f) s0 in
    let s2 = caller_step i submit_test s1 in
    let (ds, woke) = wake_call i (thread_runs 6) s2 (update-same s1.callers i _) in
    (
      ds,
      run-submits i f (accesses i 7 (thread_runs 6)) (waiting cs ps es) out
          ∙ run-access i (submit_push f) (accesses i 6 (thread_runs 6)) s0 (update-same cs i _)
          ∙ run-access i submit_test (accesses i 5 (thread_runs 6)) s1 (update-same s0.callers i _)
          ∙ woke,
    )

-- While `IOSubmitThread` sleeps on an empty queue with a free mutex, a call of `Stop`, run to its end by a
-- caller that is outside, wakes it, and four accesses later the thread has ended.
pub stop-wakes :
    (cs : ℕ → CallerPc) (ps es : List ℕ) (i : ℕ)
    → cs i ≡ outside
    → (ds : ℕ → CallerPc) × (run (stops i ∷ accesses i 6 (thread_runs 4)) (waiting cs ps es)
        ≡ record start { stop = true; thread = ended; callers = ds; pushed = ps; executed = es })
unfolding caller_step run move thread_step acquire
stop-wakes cs ps es i out =
    let s0 = caller_to i stop_store (waiting cs ps es) in
    let s1 = caller_step i stop_store s0 in
    let (ds, woke) = wake_call i (thread_runs 4) s1 (update-same s0.callers i _) in
    (
      ds,
      run-stops i (accesses i 6 (thread_runs 4)) (waiting cs ps es) out
          ∙ run-access i stop_store (accesses i 5 (thread_runs 4)) s0 (update-same cs i _)
          ∙ woke,
    )
