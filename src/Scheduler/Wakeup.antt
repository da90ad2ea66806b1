-- ===== src/Scheduler/Wakeup.antt =====
-- `IOSubmit` and `IOSubmitThread`: a function that is pushed does not meet a sleeping thread for good.
use uring_fiber.Prelude.{
  ℕ, true, List, [], ◌∷◌, ◌≡◌, refl, ap, ◌≢◌, ◌⊎◌, inl, inr, Bool-cases, arith, drop_nth,
}
use uring_fiber.Prelude.Callers.{update-somebody, here_now}
use uring_fiber.Scheduler.{
  ThreadPc, asleep, CallerPc, outside, submit_push, submit_test, stop_store, wake_lock, wake_test,
  wake_clear, wake_notify, wake_unlock, Owner, nobody, the_thread, caller, Scheduler, start,
  acquire, notified, caller_step, enter, Move, thread_moves, wakes_up, caller_moves, submits, loses,
  stops, move, run, caller_to, lose,
}
use uring_fiber.Scheduler.Watched.{
  is_sleepy, is_waking, is_notifying, Somebody, Watched, awake, thread_step-Watched,
  caller_to-Watched,
}

notified-sleepy : (p : ThreadPc) → is_sleepy (notified p) ≡ true → is_sleepy p ≡ true
unfolding notified
notified-sleepy asleep e = refl
notified-sleepy p e = ground arith

notified-asleep : (p : ThreadPc) → notified p ≢ asleep
unfolding notified
notified-asleep asleep = λ e. cc
notified-asleep p = ground arith

acquire_caller-Watched :
    (i : ℕ) (owner : Owner) (s : Scheduler)
    → s.callers i ≡ wake_lock
    → Watched s
    → Watched (acquire (caller i) owner (caller_to i wake_test) s)
unfolding acquire
acquire_caller-Watched i nobody s at v =
    let w = caller_to-Watched i wake_test s (λ _ _. refl) (λ e. cc (ap is_notifying at)) v in
    record { pending = w.pending; coming = w.coming }
acquire_caller-Watched i the_thread s at v = v
acquire_caller-Watched i (caller j) s at v = v

caller_step-Watched :
    (i : ℕ) (p : CallerPc) (s : Scheduler)
    → s.callers i ≡ p
    → Watched s
    → Watched (caller_step i p s)
unfolding caller_step
caller_step-Watched i outside s at v = v
caller_step-Watched i (submit_push f) s at v = record {
  pending = λ _ _. inr (here_now is_waking s.callers i submit_test refl);
  coming = λ e w.
      update-somebody is_notifying s.callers i submit_test (λ n. cc (ap is_notifying at))
        (v.coming e w);
}
caller_step-Watched i submit_test s at v =
    caller_to-Watched i _ s (λ w _. rw w refl) (λ e. cc (ap is_notifying at)) v
caller_step-Watched i stop_store s at v =
    let w = caller_to-Watched i wake_lock s (λ _ _. refl) (λ e. cc (ap is_notifying at)) v in
    record { pending = w.pending; coming = w.coming }
caller_step-Watched i wake_lock s at v = acquire_caller-Watched i s.owner s at v
caller_step-Watched i wake_test s at v =
    caller_to-Watched i _ s (λ w _. rw w refl) (λ e. cc (ap is_notifying at)) v
caller_step-Watched i wake_clear s at v = record {
  pending = λ _ w. cc;
  coming = λ _ _. here_now is_notifying s.callers i wake_notify refl;
}
caller_step-Watched i wake_notify s at v = record {
  pending = λ e w. elim (v.pending (notified-sleepy s.thread e) w) [
    | inl none_left ↦ inl none_left
    | inr somebody ↦
        inr (update-somebody is_waking s.callers i wake_unlock (λ n. cc (ap is_waking at)) somebody)
  ];
  coming = λ e _. absurd (notified-asleep s.thread e);
}
caller_step-Watched i wake_unlock s at v =
    let w =
      caller_to-Watched i outside s (λ _ e. cc (ap is_waking at)) (λ e. cc (ap is_notifying at))
        v in
    record { pending = w.pending; coming = w.coming }

enter-Watched :
    (i : ℕ) (p q : CallerPc) (s : Scheduler) → s.callers i ≡ p → Watched s → Watched (enter i p q s)
unfolding enter
enter-Watched i outside q s at v =
    caller_to-Watched i q s (λ _ e. cc (ap is_waking at)) (λ e. cc (ap is_notifying at)) v
enter-Watched i _ q s at v = v

pub move-Watched : (m : Move) (s : Scheduler) → Watched s → Watched (move m s)
unfolding move lose
move-Watched thread_moves s v = thread_step-Watched s.thread s refl v
move-Watched wakes_up s v = record {
  pending = λ e w. v.pending (notified-sleepy s.thread e) w;
  coming = λ e _. absurd (notified-asleep s.thread e);
}
move-Watched (caller_moves i) s v = caller_step-Watched i (s.callers i) s refl v
move-Watched (submits i f) s v = enter-Watched i (s.callers i) (submit_push f) s refl v
move-Watched (loses n) s v = record {
  pending = λ e w. elim (v.pending e w) [
    | inl none_left ↦ inl (ap (drop_nth n) none_left)
    | inr somebody ↦ inr somebody
  ];
  coming = v.coming;
}
move-Watched (stops i) s v = enter-Watched i (s.callers i) stop_store s refl v

run-Watched : (ms : List Move) (s : Scheduler) → Watched s → Watched (run ms s)
unfolding run
run-Watched [] s v = v
run-Watched (m ∷ ms) s v = run-Watched ms (move m s) (move-Watched m s v)

-- After any moves from the start: while `IOSubmitThread` is blocked on its condition variable, the queue
-- is empty, or some caller is on its way to clear `ioWait_`, or some caller is about to notify. So no
-- function stays in the queue of a sleeping thread with nobody about to wake it.
pub asleep-Watched :
    (ms : List Move)
    → (run ms start).thread ≡ asleep
    → ((run ms start).io_queue ≡ [])
      ⊎ Somebody is_waking (run ms start)
      ⊎ Somebody is_notifying (run ms start)
asleep-Watched ms e =
    let v = run-Watched ms start (awake start refl) in
    elim (Bool-cases (run ms start).io_wait) [
      | inl w ↦ elim (v.pending (ap is_sleepy e) w) [ inl q ↦ inl q | inr i ↦ inr (inl i) ]
      | inr w ↦ inr (inr (v.coming e w))
    ]
