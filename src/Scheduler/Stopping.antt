-- ===== src/Scheduler/Stopping.antt =====
-- `Stop` and `IOSubmitThread`: the wake-up that a thread which has just tested `stop_` misses.
use uring_fiber.Prelude.{
  ℕ, zero, suc, subst, update-same, Bool, true, false, List, [], ◌∷◌, ◌≡◌, refl, ap, sym, ◌∙◌,
  if_cases, update, ◌==◌, arith, Bool-cases, inl, inr,
}
use uring_fiber.Scheduler.{
  ThreadPc, first_pop, wait_test, asleep, woken, CallerPc, outside, stop_store, wake_lock,
  wake_test, wake_unlock, Owner, nobody, the_thread, caller, Scheduler, start, acquire, pop_queue,
  thread_step, notified, caller_step, enter, Move, thread_moves, wakes_up, caller_moves, submits,
  loses, lose, stops, move, run, thread_to, caller_to,
}
use uring_fiber.Scheduler.Watched.{is_sleepy}

-- No call of `IOSubmit` or `Stop` begins.
abbrev pub is_internal : List Move → Bool
is_internal [] = true
is_internal (submits i f ∷ ms) = false
is_internal (stops i ∷ ms) = false
is_internal (_ ∷ ms) = is_internal ms

-- `n` accesses of caller `i`, before the moves `ms`.
abbrev pub accesses : ℕ → ℕ → List Move → List Move
accesses i zero ms = ms
accesses i (suc n) ms = caller_moves i ∷ accesses i n ms

pub run-access :
    (i : ℕ) (p : CallerPc) (ms : List Move) (s : Scheduler)
    → s.callers i ≡ p
    → run (caller_moves i ∷ ms) s ≡ run ms (caller_step i p s)
unfolding run move
run-access i p ms s at = ap (λ p. run ms (caller_step i p s)) at

pub run-stops :
    (i : ℕ) (ms : List Move) (s : Scheduler)
    → s.callers i ≡ outside
    → run (stops i ∷ ms) s ≡ run ms (caller_to i stop_store s)
unfolding run move enter
run-stops i ms s at = ap (λ p. run ms (enter i p stop_store s)) at

-- The thread waits for a wake-up that nobody is going to send, though it is to stop.
pub record Abandoned (s : Scheduler) : Type 0 where
  pub stopped : s.stop ≡ true
  pub waits : s.io_wait ≡ true
  pub sleepy : is_sleepy s.thread ≡ true
  pub alone : (i : ℕ) → s.callers i ≡ outside

acquire-Abandoned :
    (owner : Owner) (s : Scheduler)
    → Abandoned s
    → Abandoned (acquire the_thread owner (thread_to wait_test) s)
unfolding acquire
acquire-Abandoned nobody s a = record {
  stopped = a.stopped;
  waits = a.waits;
  sleepy = refl;
  alone = a.alone;
}
acquire-Abandoned the_thread s a = a
acquire-Abandoned (caller i) s a = a

thread_step-Abandoned :
    (p : ThreadPc) (s : Scheduler) → is_sleepy p ≡ true → Abandoned s → Abandoned (thread_step p s)
unfolding thread_step
thread_step-Abandoned wait_test s e a =
    if_cases Abandoned s.io_wait
      (λ _. record { stopped = a.stopped; waits = a.waits; sleepy = refl; alone = a.alone })
      (λ off. cc a.waits)
thread_step-Abandoned asleep s e a = a
thread_step-Abandoned woken s e a = acquire-Abandoned s.owner s a
thread_step-Abandoned _ s e a = cc

notified-is_sleepy : (p : ThreadPc) → is_sleepy (notified p) ≡ is_sleepy p
unfolding notified
notified-is_sleepy asleep = refl
notified-is_sleepy p = ground arith

caller_step-outside : (i : ℕ) (p : CallerPc) (s : Scheduler) → p ≡ outside → caller_step i p s ≡ s
unfolding caller_step
caller_step-outside i outside s e = refl
caller_step-outside i p s e = cc

pub run-Abandoned :
    (ms : List Move) (s : Scheduler) → is_internal ms ≡ true → Abandoned s → Abandoned (run ms s)
unfolding run move lose
run-Abandoned [] s e a = a
run-Abandoned (thread_moves ∷ ms) s e a =
    run-Abandoned ms (thread_step s.thread s) e (thread_step-Abandoned s.thread s a.sleepy a)
run-Abandoned (wakes_up ∷ ms) s e a = run-Abandoned ms (thread_to (notified s.thread) s) e record {
  stopped = a.stopped;
  waits = a.waits;
  sleepy = notified-is_sleepy s.thread ∙ a.sleepy;
  alone = a.alone;
}
run-Abandoned (caller_moves i ∷ ms) s e a =
    rw (caller_step-outside i (s.callers i) s (a.alone i)) (run-Abandoned ms s e a)
run-Abandoned (loses n ∷ ms) s e a =
    run-Abandoned ms (lose n s) e
      record { stopped = a.stopped; waits = a.waits; sleepy = a.sleepy; alone = a.alone }
run-Abandoned (submits i f ∷ ms) s e a = cc
run-Abandoned (stops i ∷ ms) s e a = cc

-- The thread has seen that it is not to stop and is about to pop; the queue is empty, the mutex is free
-- and no call is running.
abbrev pub just_tested : (ℕ → CallerPc) → List ℕ → List ℕ → Scheduler
just_tested cs ps es = record start { thread = first_pop; callers = cs; pushed = ps; executed = es }

-- A call of `Stop` from start to end, with `n` accesses, before the moves `ms`.
abbrev pub stop_call : ℕ → ℕ → List Move → List Move
stop_call i n ms = stops i ∷ accesses i n ms

stopped_now :
    (cs : ℕ → CallerPc) (ps es : List ℕ) (i : ℕ) (ms : List Move)
    → cs i ≡ outside
    → (ds : ℕ → CallerPc) × (run (stop_call i 4 ms) (just_tested cs ps es)
        ≡ run ms (record (just_tested cs ps es) { stop = true; callers = update ds i outside }))
      × ((j : ℕ) → (i == j) ≡ false → ds j ≡ cs j)
unfolding caller_step acquire
stopped_now cs ps es i ms out =
    let s0 = just_tested cs ps es in
    let s1 = caller_to i stop_store s0 in
    let s2 = caller_step i stop_store s1 in
    let s3 = caller_step i wake_lock s2 in
    let s4 = caller_step i wake_test s3 in
    (
      s4.callers,
      run-stops i (accesses i 4 ms) s0 out
          ∙ run-access i stop_store (accesses i 3 ms) s1 (update-same cs i _)
          ∙ run-access i wake_lock (accesses i 2 ms) s2 (update-same s1.callers i _)
          ∙ run-access i wake_test (accesses i 1 ms) s3 (update-same s2.callers i _)
          ∙ run-access i wake_unlock ms s4 (update-same s3.callers i _),
      λ j ne. rw ne refl,
    )

-- Let `IOSubmitThread` have tested `stop_` before a call of `Stop`, with an empty queue, `ioWait_` not set,
-- a free mutex and no other call running. Then a run leads to a state in which `Stop` has set `stop_` and
-- done its wake-up, and after all further moves that begin no new call the thread is still waiting.
pub stop-missed :
    (cs : ℕ → CallerPc) (ps es : List ℕ) (i : ℕ)
    → ((j : ℕ) → cs j ≡ outside)
    → (ms : List Move) × ((run ms (just_tested cs ps es)).stop ≡ true)
      × ((later : List Move)
          → is_internal later ≡ true
          → is_sleepy (run later (run ms (just_tested cs ps es))).thread ≡ true)
unfolding run move thread_step pop_queue acquire
stop-missed cs ps es i out =
    let pauses = thread_moves ∷ thread_moves ∷ thread_moves ∷ thread_moves ∷ thread_moves ∷ [] in
    let (ds, path, same) = stopped_now cs ps es i pauses (out i) in
    let there : Abandoned (run (stop_call i 4 pauses) (just_tested cs ps es)) =
      subst Abandoned (sym path) record {
        stopped = refl;
        waits = refl;
        sleepy = refl;
        alone =
            λ j. elim (Bool-cases (i == j)) [ inl e ↦ rw e refl | inr e ↦ rw e (same j e ∙ out j) ];
      } in
    (stop_call i 4 pauses, there.stopped, λ later e. (run-Abandoned later _ e there).sleepy)
