-- ===== src/Processer/Waiting/Ended.antt =====
-- `Start` of a `Processer` comes back only once it is told to stop.
use uring_fiber.Prelude.{
  ℕ, Bool, true, false, List, [], ◌∷◌, ◌≡◌, refl, ap, sym, ◌∙◌, if_cases, arith,
}
use uring_fiber.Processer.Waiting.{
  StartPc, begin, loop_head, first_pop, wait_lock, set_waiting, second_pop, set_running, wait_test,
  asleep, woken, last_pop, leave_none, leave_with, swap, in_tasks, ended, AdderPc, outside,
  add_push, add_test, stop_store, wake_lock, wake_test, wake_set, wake_notify, wake_unlock, Owner,
  nobody, the_thread, caller, ProcState, start_to, adder_to, lock_status, pop_runnable, wait_step,
  start_step, cv_notified, add_step, wake_step, adder_step, enter, steal_one, yield_next, put_back,
  Move, thread_moves, wakes_up, yields, puts_back, steals, loses, lose, caller_moves, adds, stops,
  move, run,
}

abbrev pub is_ended : StartPc → Bool
is_ended ended = true
is_ended _ = false

-- A thread that has ended was told to stop.
abbrev pub EndsStopped : ProcState → Type 0
EndsStopped w = is_ended w.thread ≡ true → w.stop ≡ true

-- What is not the thread's own step leaves the thread where it was or wakes it, and never takes `stop_` back.
record Onward (w v : ProcState) : Type 0 where
  ended_before : is_ended v.thread ≡ is_ended w.thread
  still_stopped : w.stop ≡ true → v.stop ≡ true

Onward-EndsStopped : (w v : ProcState) → Onward w v → EndsStopped w → EndsStopped v
Onward-EndsStopped w v o k e = o.still_stopped (k (sym o.ended_before ∙ e))

stays : (w v : ProcState) → v.thread ≡ w.thread → v.stop ≡ w.stop → Onward w v
stays w v t s = record { ended_before = ap is_ended t; still_stopped = λ e. s ∙ e }

lock_status-EndsStopped :
    (owner : Owner) (p : StartPc) (w : ProcState)
    → is_ended p ≡ false
    → EndsStopped w
    → EndsStopped (lock_status the_thread owner (start_to p) w)
unfolding lock_status
lock_status-EndsStopped nobody p w e k = λ h. cc e
lock_status-EndsStopped the_thread p w e k = k
lock_status-EndsStopped (caller i) p w e k = k

pop_runnable-EndsStopped :
    (q : List ℕ) (p : StartPc) (g : ℕ → StartPc) (w : ProcState)
    → is_ended p ≡ false
    → ((tk : ℕ) → is_ended (g tk) ≡ false)
    → EndsStopped (pop_runnable q p g w)
unfolding pop_runnable
pop_runnable-EndsStopped [] p g w e f = λ h. cc e
pop_runnable-EndsStopped (tk ∷ tks) p g w e f = λ h. cc (f tk)

start_step-EndsStopped :
    (p : StartPc) (w : ProcState) → w.thread ≡ p → EndsStopped w → EndsStopped (start_step p w)
unfolding start_step wait_step
start_step-EndsStopped loop_head w at k = if_cases EndsStopped w.stop (λ on _. on) (λ _ h. cc)
start_step-EndsStopped first_pop w at k =
    pop_runnable-EndsStopped w.runnable_queue wait_lock swap w refl (λ _. refl)
start_step-EndsStopped wait_lock w at k = lock_status-EndsStopped w.owner set_waiting w refl k
start_step-EndsStopped second_pop w at k =
    pop_runnable-EndsStopped w.runnable_queue wait_test set_running w refl (λ _. refl)
start_step-EndsStopped wait_test w at k = if_cases EndsStopped w.waiting (λ _ h. cc) (λ _ h. cc)
start_step-EndsStopped woken w at k = lock_status-EndsStopped w.owner wait_test w refl k
start_step-EndsStopped last_pop w at k =
    pop_runnable-EndsStopped w.runnable_queue leave_none leave_with w refl (λ _. refl)
start_step-EndsStopped asleep w at k = k
start_step-EndsStopped ended w at k = k
start_step-EndsStopped begin w at k = λ h. cc
start_step-EndsStopped set_waiting w at k = λ h. cc
start_step-EndsStopped (set_running tk) w at k = λ h. cc
start_step-EndsStopped leave_none w at k = λ h. cc
start_step-EndsStopped (leave_with tk) w at k = λ h. cc
start_step-EndsStopped (swap tk) w at k = λ h. cc
start_step-EndsStopped in_tasks w at k = λ h. cc

is_ended-cv_notified : (p : StartPc) → is_ended (cv_notified p) ≡ is_ended p
unfolding cv_notified
is_ended-cv_notified asleep = refl
is_ended-cv_notified p = ground arith

lock_adder-Onward :
    (i : ℕ) (owner : Owner) (w : ProcState)
    → Onward w (lock_status (caller i) owner (adder_to i wake_test) w)
unfolding lock_status
lock_adder-Onward i nobody w = stays w _ refl refl
lock_adder-Onward i the_thread w = stays w _ refl refl
lock_adder-Onward i (caller j) w = stays w _ refl refl

add_step-Onward : (i : ℕ) (tks : List ℕ) (w : ProcState) → Onward w (add_step i tks w)
unfolding add_step
add_step-Onward i [] w = stays w _ refl refl
add_step-Onward i (tk ∷ tks) w = stays w _ refl refl

adder_step-Onward : (i : ℕ) (p : AdderPc) (w : ProcState) → Onward w (adder_step i p w)
unfolding adder_step wake_step
adder_step-Onward i (add_push tks) w = add_step-Onward i tks w
adder_step-Onward i stop_store w = record { ended_before = refl; still_stopped = λ _. refl }
adder_step-Onward i wake_lock w = lock_adder-Onward i w.owner w
adder_step-Onward i wake_notify w = record {
  ended_before = is_ended-cv_notified w.thread;
  still_stopped = λ e. e;
}
adder_step-Onward i outside w = stays w w refl refl
adder_step-Onward i add_test w = stays w _ refl refl
adder_step-Onward i wake_test w = stays w _ refl refl
adder_step-Onward i wake_set w = stays w _ refl refl
adder_step-Onward i wake_unlock w = stays w _ refl refl

enter-Onward : (i : ℕ) (p q : AdderPc) (w : ProcState) → Onward w (enter i p q w)
unfolding enter
enter-Onward i outside q w = stays w _ refl refl
enter-Onward i _ q w = stays w w refl refl

steal_one-Onward : (q : List ℕ) (w : ProcState) → Onward w (steal_one q w)
unfolding steal_one
steal_one-Onward [] w = stays w w refl refl
steal_one-Onward (tk ∷ tks) w = stays w _ refl refl

yield_next-Onward : (p : StartPc) (q : List ℕ) (w : ProcState) → Onward w (yield_next p q w)
unfolding yield_next
yield_next-Onward in_tasks (tk ∷ tks) w = stays w _ refl refl
yield_next-Onward _ _ w = stays w w refl refl

put_back-Onward : (p : StartPc) (tk : ℕ) (w : ProcState) → Onward w (put_back p tk w)
unfolding put_back
put_back-Onward in_tasks tk w = stays w _ refl refl
put_back-Onward _ tk w = stays w w refl refl

move-EndsStopped : (m : Move) (w : ProcState) → EndsStopped w → EndsStopped (move m w)
unfolding move lose
move-EndsStopped thread_moves w k = start_step-EndsStopped w.thread w refl k
move-EndsStopped wakes_up w k =
    Onward-EndsStopped w (start_to (cv_notified w.thread) w)
      (record { ended_before = is_ended-cv_notified w.thread; still_stopped = λ e. e }) k
move-EndsStopped yields w k =
    Onward-EndsStopped w _ (yield_next-Onward w.thread w.runnable_queue w) k
move-EndsStopped (puts_back tk) w k = Onward-EndsStopped w _ (put_back-Onward w.thread tk w) k
move-EndsStopped steals w k = Onward-EndsStopped w _ (steal_one-Onward w.runnable_queue w) k
move-EndsStopped (loses n) w k = Onward-EndsStopped w _ (stays w (lose n w) refl refl) k
move-EndsStopped (caller_moves i) w k =
    Onward-EndsStopped w _ (adder_step-Onward i (w.callers i) w) k
move-EndsStopped (adds i tks) w k =
    Onward-EndsStopped w _ (enter-Onward i (w.callers i) (add_push tks) w) k
move-EndsStopped (stops i) w k =
    Onward-EndsStopped w _ (enter-Onward i (w.callers i) stop_store w) k

pub run-EndsStopped : (ms : List Move) (w : ProcState) → EndsStopped w → EndsStopped (run ms w)
unfolding run
run-EndsStopped [] w k = k
run-EndsStopped (m ∷ ms) w k = run-EndsStopped ms (move m w) (move-EndsStopped m w k)
