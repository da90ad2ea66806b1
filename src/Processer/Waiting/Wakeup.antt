-- ===== src/Processer/Waiting/Wakeup.antt =====
-- `AddTask`, `Steal`, `Stop` and the coroutines of a `Processer`, as the thread that sleeps in `Wait` meets
-- them.
use uring_fiber.Prelude.{
  drop_nth, ℕ, true, List, [], ◌∷◌, ◌≡◌, refl, ap, ◌≢◌, ◌⊎◌, inl, inr, Bool-cases, arith,
}
use uring_fiber.Prelude.Callers.{update-somebody, here_now}
use uring_fiber.Processer.Waiting.{
  StartPc, asleep, in_tasks, AdderPc, outside, add_push, add_test, stop_store, wake_lock, wake_test,
  wake_set, wake_notify, wake_unlock, Owner, nobody, the_thread, caller, ProcState, new_state,
  adder_to, lock_status, cv_notified, add_step, adder_step, wake_step, enter, steal_one, yield_next,
  put_back, Move, thread_moves, wakes_up, yields, puts_back, steals, loses, lose, caller_moves,
  adds, stops, move, run,
}
use uring_fiber.Processer.Waiting.Watched.{
  is_sleepy, is_waking, is_notifying, Somebody, Watched, awake, start_step-Watched,
  adder_to-Watched,
}

cv_notified-sleepy : (p : StartPc) → is_sleepy (cv_notified p) ≡ true → is_sleepy p ≡ true
unfolding cv_notified
cv_notified-sleepy asleep e = refl
cv_notified-sleepy p e = ground arith

cv_notified-asleep : (p : StartPc) → cv_notified p ≢ asleep
unfolding cv_notified
cv_notified-asleep asleep = λ e. cc
cv_notified-asleep p = ground arith

lock_status_adder-Watched :
    (i : ℕ) (owner : Owner) (w : ProcState)
    → w.callers i ≡ wake_lock
    → Watched w
    → Watched (lock_status (caller i) owner (adder_to i wake_test) w)
unfolding lock_status
lock_status_adder-Watched i nobody w at v =
    let t = adder_to-Watched i wake_test w (λ _ _. refl) (λ e. cc (ap is_notifying at)) v in
    record { pending = t.pending; coming = t.coming }
lock_status_adder-Watched i the_thread w at v = v
lock_status_adder-Watched i (caller j) w at v = v

add_step-Watched :
    (i : ℕ) (tks : List ℕ) (w : ProcState)
    → w.callers i ≡ add_push tks
    → Watched w
    → Watched (add_step i tks w)
unfolding add_step
add_step-Watched i [] w at v =
    adder_to-Watched i add_test w (λ _ _. refl) (λ e. cc (ap is_notifying at)) v
add_step-Watched i (tk ∷ tks) w at v = record {
  pending = λ _ _. inr (here_now is_waking w.callers i (add_push tks) refl);
  coming = λ e t.
      update-somebody is_notifying w.callers i (add_push tks) (λ n. cc (ap is_notifying at))
        (v.coming e t);
}

adder_step-Watched :
    (i : ℕ) (p : AdderPc) (w : ProcState) → w.callers i ≡ p → Watched w → Watched (adder_step i p w)
unfolding adder_step wake_step
adder_step-Watched i outside w at v = v
adder_step-Watched i (add_push tks) w at v = add_step-Watched i tks w at v
adder_step-Watched i add_test w at v =
    adder_to-Watched i _ w (λ t _. rw t refl) (λ e. cc (ap is_notifying at)) v
adder_step-Watched i stop_store w at v =
    let t = adder_to-Watched i wake_lock w (λ _ _. refl) (λ e. cc (ap is_notifying at)) v in
    record { pending = t.pending; coming = t.coming }
adder_step-Watched i wake_lock w at v = lock_status_adder-Watched i w.owner w at v
adder_step-Watched i wake_test w at v =
    adder_to-Watched i _ w (λ t _. rw t refl) (λ e. cc (ap is_notifying at)) v
adder_step-Watched i wake_set w at v = record {
  pending = λ _ t. cc;
  coming = λ _ _. here_now is_notifying w.callers i wake_notify refl;
}
adder_step-Watched i wake_notify w at v = record {
  pending = λ e t. elim (v.pending (cv_notified-sleepy w.thread e) t) [
    | inl none_left ↦ inl none_left
    | inr somebody ↦
        inr (update-somebody is_waking w.callers i wake_unlock (λ n. cc (ap is_waking at)) somebody)
  ];
  coming = λ e _. absurd (cv_notified-asleep w.thread e);
}
adder_step-Watched i wake_unlock w at v =
    let t =
      adder_to-Watched i outside w (λ _ e. cc (ap is_waking at)) (λ e. cc (ap is_notifying at)) v in
    record { pending = t.pending; coming = t.coming }

enter-Watched :
    (i : ℕ) (p q : AdderPc) (w : ProcState) → w.callers i ≡ p → Watched w → Watched (enter i p q w)
unfolding enter
enter-Watched i outside q w at v =
    adder_to-Watched i q w (λ _ e. cc (ap is_waking at)) (λ e. cc (ap is_notifying at)) v
enter-Watched i _ q w at v = v

steal_one-Watched :
    (q : List ℕ) (w : ProcState) → w.runnable_queue ≡ q → Watched w → Watched (steal_one q w)
unfolding steal_one
steal_one-Watched [] w at v = v
steal_one-Watched (tk ∷ tks) w at v = record {
  pending = λ e t. elim (v.pending e t) [ inl none_left ↦ cc | inr somebody ↦ inr somebody ];
  coming = v.coming;
}

yield_next-Watched :
    (p : StartPc) (q : List ℕ) (w : ProcState)
    → w.thread ≡ p
    → Watched w
    → Watched (yield_next p q w)
unfolding yield_next
yield_next-Watched in_tasks [] w at v = v
yield_next-Watched in_tasks (tk ∷ tks) w at v = awake _ (ap is_sleepy at)
yield_next-Watched _ q w at v = v

put_back-Watched :
    (p : StartPc) (tk : ℕ) (w : ProcState) → w.thread ≡ p → Watched w → Watched (put_back p tk w)
unfolding put_back
put_back-Watched in_tasks tk w at v = awake _ (ap is_sleepy at)
put_back-Watched _ tk w at v = v

move-Watched : (m : Move) (w : ProcState) → Watched w → Watched (move m w)
unfolding move lose
move-Watched thread_moves w v = start_step-Watched w.thread w refl v
move-Watched wakes_up w v = record {
  pending = λ e t. v.pending (cv_notified-sleepy w.thread e) t;
  coming = λ e _. absurd (cv_notified-asleep w.thread e);
}
move-Watched yields w v = yield_next-Watched w.thread w.runnable_queue w refl v
move-Watched (puts_back tk) w v = put_back-Watched w.thread tk w refl v
move-Watched steals w v = steal_one-Watched w.runnable_queue w refl v
move-Watched (loses n) w v = record {
  pending = λ e t. elim (v.pending e t) [
    | inl none_left ↦ inl (ap (drop_nth n) none_left)
    | inr somebody ↦ inr somebody
  ];
  coming = v.coming;
}
move-Watched (caller_moves i) w v = adder_step-Watched i (w.callers i) w refl v
move-Watched (adds i tks) w v = enter-Watched i (w.callers i) (add_push tks) w refl v
move-Watched (stops i) w v = enter-Watched i (w.callers i) stop_store w refl v

run-Watched : (ms : List Move) (w : ProcState) → Watched w → Watched (run ms w)
unfolding run
run-Watched [] w v = v
run-Watched (m ∷ ms) w v = run-Watched ms (move m w) (move-Watched m w v)

-- After any moves from a new processor, whatever its coroutines, stealing and calls of `AddTask` and `Stop`
-- do meanwhile: while the thread is blocked in `Wait`, its queue is empty, or some caller is on its way to
-- set `status_` to `running`, or some caller is about to notify.
pub wait-Watched :
    (ms : List Move)
    → (run ms new_state).thread ≡ asleep
    → ((run ms new_state).runnable_queue ≡ [])
      ⊎ Somebody is_waking (run ms new_state)
      ⊎ Somebody is_notifying (run ms new_state)
wait-Watched ms e =
    let v = run-Watched ms new_state (awake new_state refl) in
    elim (Bool-cases (run ms new_state).waiting) [
      | inl t ↦ elim (v.pending (ap is_sleepy e) t) [ inl q ↦ inl q | inr i ↦ inr (inl i) ]
      | inr t ↦ inr (inr (v.coming e t))
    ]
