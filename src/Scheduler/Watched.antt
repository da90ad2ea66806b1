-- ===== src/Scheduler/Watched.antt =====
-- What keeps `IOSubmitThread` from sleeping on a queue with a function in it, and the thread's accesses.
use uring_fiber.Prelude.{
  ℕ, Bool, true, false, List, [], ◌∷◌, ◌≡◌, refl, ap, ◌⊎◌, inl, inr, if_cases,
}
use uring_fiber.Prelude.Callers.{update-somebody}
use uring_fiber.Scheduler.{
  ThreadPc, loop_head, first_pop, wait_lock, set_wait, second_pop, clear_wait, leave_run, wait_test,
  asleep, woken, leave_loop, execute, ended, CallerPc, submit_test, wake_lock, wake_test,
  wake_clear, wake_notify, Owner, nobody, the_thread, caller, Scheduler, acquire, pop_queue,
  thread_step, thread_to, caller_to,
}

-- Is the thread between its second pop, which found nothing, and the test that lets it go on?
abbrev pub is_sleepy : ThreadPc → Bool
is_sleepy wait_test = true
is_sleepy asleep = true
is_sleepy woken = true
is_sleepy _ = false

-- Is a caller on its way to clear `ioWait_`, unless it finds it cleared?
abbrev pub is_waking : CallerPc → Bool
is_waking submit_test = true
is_waking wake_lock = true
is_waking wake_test = true
is_waking wake_clear = true
is_waking _ = false

abbrev pub is_notifying : CallerPc → Bool
is_notifying wake_notify = true
is_notifying _ = false

-- Some caller stands where the test holds.
abbrev pub Somebody : (CallerPc → Bool) → Scheduler → Type 0
Somebody test s = (i : ℕ) × (test (s.callers i) ≡ true)

-- Whoever may sleep on a queue with a function in it will be woken.
pub record Watched (s : Scheduler) : Type 0 where
  pub pending :
      is_sleepy s.thread ≡ true → s.io_wait ≡ true → (s.io_queue ≡ []) ⊎ Somebody is_waking s
  pub coming : s.thread ≡ asleep → s.io_wait ≡ false → Somebody is_notifying s

pub awake : (s : Scheduler) → is_sleepy s.thread ≡ false → Watched s
awake s h = record { pending = λ e w. cc; coming = λ e w. cc (ap is_sleepy e) }

pop_queue-Watched :
    (q : List ℕ) (p : ThreadPc) (g : ℕ → ThreadPc) (s : Scheduler)
    → ((f : ℕ) → is_sleepy (g f) ≡ false)
    → s.io_queue ≡ q
    → (q ≡ [] → Watched (thread_to p s))
    → Watched (pop_queue q p g s)
unfolding pop_queue
pop_queue-Watched [] p g s found e none_found = none_found refl
pop_queue-Watched (f ∷ fs) p g s found e none_found = awake _ (found f)

acquire-Watched :
    (who owner : Owner) (p : ThreadPc) (s : Scheduler)
    → Watched s
    → Watched (thread_to p s)
    → Watched (acquire who owner (thread_to p) s)
unfolding acquire
acquire-Watched who nobody p s v w = record { pending = w.pending; coming = w.coming }
acquire-Watched who the_thread p s v w = v
acquire-Watched who (caller i) p s v w = v

pub thread_step-Watched :
    (p : ThreadPc) (s : Scheduler) → s.thread ≡ p → Watched s → Watched (thread_step p s)
unfolding thread_step
thread_step-Watched loop_head s at v =
    if_cases Watched s.stop (λ _. awake _ refl) (λ _. awake _ refl)
thread_step-Watched first_pop s at v =
    pop_queue-Watched s.io_queue wait_lock execute s (λ f. refl) refl (λ _. awake _ refl)
thread_step-Watched wait_lock s at v =
    acquire-Watched the_thread s.owner set_wait s v (awake _ refl)
thread_step-Watched set_wait s at v = awake _ refl
thread_step-Watched second_pop s at v =
    pop_queue-Watched s.io_queue wait_test clear_wait s (λ f. refl) refl
      (λ none_left. record { pending = λ _ _. inl none_left; coming = λ e _. cc })
thread_step-Watched (clear_wait f) s at v = awake _ refl
thread_step-Watched (leave_run f) s at v = awake _ refl
thread_step-Watched wait_test s at v =
    if_cases Watched s.io_wait
      (λ waits. record { pending = λ _ w. v.pending (ap is_sleepy at) w; coming = λ _ w. cc })
      (λ _. awake _ refl)
thread_step-Watched asleep s at v = v
thread_step-Watched woken s at v =
    acquire-Watched the_thread s.owner wait_test s v
      record { pending = λ _ w. v.pending (ap is_sleepy at) w; coming = λ e _. cc }
thread_step-Watched leave_loop s at v = awake _ refl
thread_step-Watched (execute f) s at v = awake _ refl
thread_step-Watched ended s at v = v

-- A caller moves, and neither the queue nor `ioWait_` nor the thread: what it did for the others is what
-- its new place still does.
pub caller_to-Watched :
    (i : ℕ) (q : CallerPc) (s : Scheduler)
    → (s.io_wait ≡ true → is_waking (s.callers i) ≡ true → is_waking q ≡ true)
    → (is_notifying (s.callers i) ≡ true → is_notifying q ≡ true)
    → Watched s
    → Watched (caller_to i q s)
caller_to-Watched i q s wakes notifies v = record {
  pending = λ e w. elim (v.pending e w) [
    | inl none_left ↦ inl none_left
    | inr somebody ↦ inr (update-somebody is_waking s.callers i q (wakes w) somebody)
  ];
  coming = λ e w. update-somebody is_notifying s.callers i q notifies (v.coming e w);
}
