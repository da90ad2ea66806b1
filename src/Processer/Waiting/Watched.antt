-- ===== src/Processer/Waiting/Watched.antt =====
-- What keeps the thread of a `Processer` from sleeping on a queue with a task in it, and its own accesses.
use uring_fiber.Prelude.{
  ℕ, Bool, true, false, List, [], ◌∷◌, ◌≡◌, refl, ap, ◌⊎◌, inl, inr, if_cases,
}
use uring_fiber.Prelude.Callers.{update-somebody}
use uring_fiber.Processer.Waiting.{
  StartPc, begin, loop_head, first_pop, wait_lock, set_waiting, second_pop, set_running, wait_test,
  asleep, woken, last_pop, leave_none, leave_with, swap, in_tasks, ended, AdderPc, add_push,
  add_test, wake_lock, wake_test, wake_set, wake_notify, Owner, nobody, the_thread, caller,
  ProcState, start_to, adder_to, lock_status, pop_runnable, start_step, wait_step,
}

-- Is the thread between its second pop, which found nothing, and the test that lets it go on?
abbrev pub is_sleepy : StartPc → Bool
is_sleepy wait_test = true
is_sleepy asleep = true
is_sleepy woken = true
is_sleepy _ = false

-- Is a caller on its way to set `status_` to `running`, unless it finds it so?
abbrev pub is_waking : AdderPc → Bool
is_waking (add_push tks) = true
is_waking add_test = true
is_waking wake_lock = true
is_waking wake_test = true
is_waking wake_set = true
is_waking _ = false

abbrev pub is_notifying : AdderPc → Bool
is_notifying wake_notify = true
is_notifying _ = false

-- Some caller stands where the test holds.
abbrev pub Somebody : (AdderPc → Bool) → ProcState → Type 0
Somebody test w = (i : ℕ) × (test (w.callers i) ≡ true)

-- Whoever may sleep on a queue with a task in it will be woken.
pub record Watched (w : ProcState) : Type 0 where
  pub pending :
      is_sleepy w.thread ≡ true → w.waiting ≡ true → (w.runnable_queue ≡ []) ⊎ Somebody is_waking w
  pub coming : w.thread ≡ asleep → w.waiting ≡ false → Somebody is_notifying w

pub awake : (w : ProcState) → is_sleepy w.thread ≡ false → Watched w
awake w h = record { pending = λ e t. cc; coming = λ e t. cc (ap is_sleepy e) }

pop_runnable-Watched :
    (q : List ℕ) (p : StartPc) (g : ℕ → StartPc) (w : ProcState)
    → ((tk : ℕ) → is_sleepy (g tk) ≡ false)
    → w.runnable_queue ≡ q
    → (q ≡ [] → Watched (start_to p w))
    → Watched (pop_runnable q p g w)
unfolding pop_runnable
pop_runnable-Watched [] p g w found e none_found = none_found refl
pop_runnable-Watched (tk ∷ tks) p g w found e none_found = awake _ (found tk)

lock_status-Watched :
    (who owner : Owner) (p : StartPc) (w : ProcState)
    → Watched w
    → Watched (start_to p w)
    → Watched (lock_status who owner (start_to p) w)
unfolding lock_status
lock_status-Watched who nobody p w v there = record {
  pending = there.pending;
  coming = there.coming;
}
lock_status-Watched who the_thread p w v there = v
lock_status-Watched who (caller i) p w v there = v

pub start_step-Watched :
    (p : StartPc) (w : ProcState) → w.thread ≡ p → Watched w → Watched (start_step p w)
unfolding start_step wait_step
start_step-Watched begin w at v = awake _ refl
start_step-Watched loop_head w at v =
    if_cases Watched w.stop (λ _. awake _ refl) (λ _. awake _ refl)
start_step-Watched first_pop w at v =
    pop_runnable-Watched w.runnable_queue wait_lock swap w (λ _. refl) refl (λ _. awake _ refl)
start_step-Watched wait_lock w at v =
    lock_status-Watched the_thread w.owner set_waiting w v (awake _ refl)
start_step-Watched set_waiting w at v = awake _ refl
start_step-Watched second_pop w at v =
    pop_runnable-Watched w.runnable_queue wait_test set_running w (λ _. refl) refl
      (λ none_left. record { pending = λ _ _. inl none_left; coming = λ e _. cc })
start_step-Watched (set_running tk) w at v = awake _ refl
start_step-Watched wait_test w at v =
    if_cases Watched w.waiting
      (λ waits. record { pending = λ _ t. v.pending (ap is_sleepy at) t; coming = λ _ t. cc })
      (λ _. awake _ refl)
start_step-Watched asleep w at v = v
start_step-Watched woken w at v =
    lock_status-Watched the_thread w.owner wait_test w v
      record { pending = λ _ t. v.pending (ap is_sleepy at) t; coming = λ e _. cc }
start_step-Watched last_pop w at v =
    pop_runnable-Watched w.runnable_queue leave_none leave_with w (λ _. refl) refl
      (λ _. awake _ refl)
start_step-Watched leave_none w at v = awake _ refl
start_step-Watched (leave_with tk) w at v = awake _ refl
start_step-Watched (swap tk) w at v = awake _ refl
start_step-Watched in_tasks w at v = awake _ refl
start_step-Watched ended w at v = v

-- A caller moves, and neither the queue nor `status_` nor the thread: what it did for the others is what
-- its new place still does.
pub adder_to-Watched :
    (i : ℕ) (q : AdderPc) (w : ProcState)
    → (w.waiting ≡ true → is_waking (w.callers i) ≡ true → is_waking q ≡ true)
    → (is_notifying (w.callers i) ≡ true → is_notifying q ≡ true)
    → Watched w
    → Watched (adder_to i q w)
adder_to-Watched i q w wakes notifies v = record {
  pending = λ e t. elim (v.pending e t) [
    | inl none_left ↦ inl none_left
    | inr somebody ↦ inr (update-somebody is_waking w.callers i q (wakes t) somebody)
  ];
  coming = λ e t. update-somebody is_notifying w.callers i q notifies (v.coming e t);
}
