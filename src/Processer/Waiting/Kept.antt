-- ===== src/Processer/Waiting/Kept.antt =====
-- What becomes of the tasks that are pushed to a `Processer`.
use uring_fiber.Prelude.{
  ℕ, ◌+◌, List, [], ◌∷◌, ◌≡◌, refl, ap, sym, ◌∙◌, if_cases, arith, count, count-append, only_nth,
  count-drop_nth,
}
use uring_fiber.Processer.Waiting.{
  StartPc, begin, loop_head, first_pop, wait_lock, set_waiting, second_pop, set_running, wait_test,
  asleep, woken, last_pop, leave_none, leave_with, swap, in_tasks, ended, AdderPc, outside,
  add_push, add_test, stop_store, wake_lock, wake_test, wake_set, wake_notify, wake_unlock, Owner,
  nobody, the_thread, caller, ProcState, start_to, adder_to, push_queue, lock_status, pop_runnable,
  start_step, wait_step, cv_notified, add_step, adder_step, wake_step, enter, steal_one, yield_next,
  put_back, Move, thread_moves, wakes_up, yields, puts_back, steals, loses, lose, caller_moves,
  adds, stops, move, run,
}

-- The task that the thread has popped and not yet switched to.
abbrev pub held : StartPc → List ℕ
held (set_running tk) = tk ∷ []
held (leave_with tk) = tk ∷ []
held (swap tk) = tk ∷ []
held _ = []

-- Every task was pushed as often as it is in the queue or in the thread's hands, was switched to, stolen or
-- lost by the queue.
abbrev pub Kept : ProcState → Type 0
Kept w =
    (t : ℕ)
    → count t w.pushed
      ≡ count t w.runnable_queue
        + count t (held w.thread)
        + count t w.started
        + count t w.stolen
        + count t w.lost

-- The thread goes on with the same tasks in its hands.
same_held : (p : StartPc) (w : ProcState) → held p ≡ held w.thread → Kept w → Kept (start_to p w)
same_held p w e k t = rw e (k t)

pop_runnable-Kept :
    (q : List ℕ) (p : StartPc) (g : ℕ → StartPc) (w : ProcState)
    → held w.thread ≡ []
    → held p ≡ []
    → ((tk : ℕ) → held (g tk) ≡ tk ∷ [])
    → w.runnable_queue ≡ q
    → Kept w
    → Kept (pop_runnable q p g w)
unfolding pop_runnable
pop_runnable-Kept [] p g w none_held none_next next e k =
    same_held p w (none_next ∙ sym none_held) k
pop_runnable-Kept (tk ∷ tks) p g w none_held none_next next e k = λ t.
    let before = k t in
    let in_queue = ap (count t) e in
    let in_hand = ap (count t) none_held in
    let then_held = ap (count t) (next tk) in omega (arith, before, in_queue, in_hand, then_held)

lock_status-Kept :
    (who owner : Owner) (f : ProcState → ProcState) (w : ProcState)
    → Kept w
    → ((v : Owner) → Kept (f (record w { owner = v })))
    → Kept (lock_status who owner f w)
unfolding lock_status
lock_status-Kept who nobody f w k there = there who
lock_status-Kept who the_thread f w k there = k
lock_status-Kept who (caller i) f w k there = k

start_step-Kept : (p : StartPc) (w : ProcState) → w.thread ≡ p → Kept w → Kept (start_step p w)
unfolding start_step wait_step
start_step-Kept begin w at k = same_held loop_head w (sym (ap held at)) k
start_step-Kept loop_head w at k =
    if_cases Kept w.stop (λ _. same_held ended w (sym (ap held at)) k)
      (λ _. same_held first_pop w (sym (ap held at)) k)
start_step-Kept first_pop w at k =
    pop_runnable-Kept w.runnable_queue wait_lock swap w (ap held at) refl (λ _. refl) refl k
start_step-Kept wait_lock w at k =
    lock_status-Kept the_thread w.owner (start_to set_waiting) w k
      (λ _. same_held set_waiting w (sym (ap held at)) k)
start_step-Kept set_waiting w at k = same_held second_pop w (sym (ap held at)) k
start_step-Kept second_pop w at k =
    pop_runnable-Kept w.runnable_queue wait_test set_running w (ap held at) refl (λ _. refl) refl k
start_step-Kept (set_running tk) w at k = same_held (leave_with tk) w (sym (ap held at)) k
start_step-Kept wait_test w at k =
    if_cases Kept w.waiting (λ _. same_held asleep w (sym (ap held at)) k)
      (λ _. same_held last_pop w (sym (ap held at)) k)
start_step-Kept asleep w at k = k
start_step-Kept woken w at k =
    lock_status-Kept the_thread w.owner (start_to wait_test) w k
      (λ _. same_held wait_test w (sym (ap held at)) k)
start_step-Kept last_pop w at k =
    pop_runnable-Kept w.runnable_queue leave_none leave_with w (ap held at) refl (λ _. refl) refl k
start_step-Kept leave_none w at k = same_held loop_head w (sym (ap held at)) k
start_step-Kept (leave_with tk) w at k = same_held (swap tk) w (sym (ap held at)) k
start_step-Kept (swap tk) w at k = λ t.
    let before = k t in
    let in_hand = ap (count t) (ap held at) in
    let one_more = count-append t w.started (tk ∷ []) in omega (arith, before, in_hand, one_more)
start_step-Kept in_tasks w at k = same_held loop_head w (sym (ap held at)) k
start_step-Kept ended w at k = k

held-cv_notified : (p : StartPc) → held (cv_notified p) ≡ held p
unfolding cv_notified
held-cv_notified asleep = refl
held-cv_notified p = ground arith

push_queue-Kept : (tk : ℕ) (w : ProcState) → Kept w → Kept (push_queue tk w)
push_queue-Kept tk w k t =
    let before = k t in
    let queued = count-append t w.runnable_queue (tk ∷ []) in
    let one_more = count-append t w.pushed (tk ∷ []) in omega (arith, before, queued, one_more)

add_step-Kept : (i : ℕ) (tks : List ℕ) (w : ProcState) → Kept w → Kept (add_step i tks w)
unfolding add_step
add_step-Kept i [] w k = k
add_step-Kept i (tk ∷ tks) w k = push_queue-Kept tk w k

adder_step-Kept : (i : ℕ) (p : AdderPc) (w : ProcState) → Kept w → Kept (adder_step i p w)
unfolding adder_step wake_step
adder_step-Kept i (add_push tks) w k = add_step-Kept i tks w k
adder_step-Kept i wake_lock w k =
    lock_status-Kept (caller i) w.owner (adder_to i wake_test) w k (λ _. k)
adder_step-Kept i wake_notify w k = same_held (cv_notified w.thread) w (held-cv_notified w.thread) k
adder_step-Kept i outside w k = k
adder_step-Kept i add_test w k = k
adder_step-Kept i stop_store w k = k
adder_step-Kept i wake_test w k = k
adder_step-Kept i wake_set w k = k
adder_step-Kept i wake_unlock w k = k

enter-Kept : (i : ℕ) (p q : AdderPc) (w : ProcState) → Kept w → Kept (enter i p q w)
unfolding enter
enter-Kept i outside q w k = k
enter-Kept i _ q w k = k

steal_one-Kept : (q : List ℕ) (w : ProcState) → w.runnable_queue ≡ q → Kept w → Kept (steal_one q w)
unfolding steal_one
steal_one-Kept [] w e k = k
steal_one-Kept (tk ∷ tks) w e k = λ t.
    let before = k t in
    let in_queue = ap (count t) e in
    let one_more = count-append t w.stolen (tk ∷ []) in omega (arith, before, in_queue, one_more)

yield_next-Kept :
    (p : StartPc) (q : List ℕ) (w : ProcState)
    → w.runnable_queue ≡ q
    → Kept w
    → Kept (yield_next p q w)
unfolding yield_next
yield_next-Kept in_tasks [] w e k = k
yield_next-Kept in_tasks (tk ∷ tks) w e k = λ t.
    let before = k t in
    let in_queue = ap (count t) e in
    let one_more = count-append t w.started (tk ∷ []) in omega (arith, before, in_queue, one_more)
yield_next-Kept _ q w e k = k

put_back-Kept : (p : StartPc) (tk : ℕ) (w : ProcState) → Kept w → Kept (put_back p tk w)
unfolding put_back
put_back-Kept in_tasks tk w k = push_queue-Kept tk w k
put_back-Kept _ tk w k = k

pub move-Kept : (m : Move) (w : ProcState) → Kept w → Kept (move m w)
unfolding move lose
move-Kept thread_moves w k = start_step-Kept w.thread w refl k
move-Kept wakes_up w k = same_held (cv_notified w.thread) w (held-cv_notified w.thread) k
move-Kept yields w k = yield_next-Kept w.thread w.runnable_queue w refl k
move-Kept (puts_back tk) w k = put_back-Kept w.thread tk w k
move-Kept steals w k = steal_one-Kept w.runnable_queue w refl k
move-Kept (loses n) w k = λ t.
    let before = k t in
    let split = count-drop_nth t n w.runnable_queue in
    let more = count-append t w.lost (only_nth n w.runnable_queue) in
    omega (arith, before, split, more)
move-Kept (caller_moves i) w k = adder_step-Kept i (w.callers i) w k
move-Kept (adds i tks) w k = enter-Kept i (w.callers i) (add_push tks) w k
move-Kept (stops i) w k = enter-Kept i (w.callers i) stop_store w k

-- After any moves from a state in which it holds (a new processor is one): every task was pushed as often
-- as it is in the queue or popped by the thread, was switched to, stolen, or lost by the queue itself, as an
-- overtaken push is. So sleeping, waking up and stealing at any time switch to
-- a task and steal it no more often than it was pushed, and lose no task that the queue does not lose.
pub run-Kept : (ms : List Move) (w : ProcState) → Kept w → Kept (run ms w)
unfolding run
run-Kept [] w k = k
run-Kept (m ∷ ms) w k = run-Kept ms (move m w) (move-Kept m w k)
