-- ===== src/Scheduler/Order.antt =====
-- The functions given to `IOSubmit`: executed in the order of their pushes, as far as the queue does
-- not lose them.
use uring_fiber.Prelude.{
  ℕ, zero, suc, ◌+◌, subst, count, count-append, drop_nth, only_nth, count-drop_nth, List, [], ◌∷◌,
  ◌++◌, ◌≡◌, refl, ap, arith, sym, ◌∙◌, append_assoc, append-nil, if_cases,
}
use uring_fiber.Scheduler.{
  ThreadPc, loop_head, first_pop, wait_lock, set_wait, second_pop, clear_wait, leave_run, wait_test,
  asleep, woken, leave_loop, execute, ended, CallerPc, outside, submit_push, submit_test,
  stop_store, wake_lock, wake_test, wake_clear, wake_notify, wake_unlock, Owner, nobody, the_thread,
  caller, Scheduler, start, acquire, pop_queue, thread_step, notified, caller_step, enter, Move,
  thread_moves, wakes_up, caller_moves, submits, loses, stops, move, run, thread_to, caller_to,
  lose,
}

-- The function that the thread has popped and not executed yet.
unfoldable pub in_hand : ThreadPc → List ℕ
in_hand (clear_wait f) = f ∷ []
in_hand (leave_run f) = f ∷ []
in_hand (execute f) = f ∷ []
in_hand _ = []

-- The first list is the second, but for elements that are left out.
pub data Within : List ℕ → List ℕ → Type 0 where
  ends : Within [] []
  kept : {xs ys : List ℕ} (x : ℕ) → Within xs ys → Within (x ∷ xs) (x ∷ ys)
  skipped : {xs ys : List ℕ} (y : ℕ) → Within xs ys → Within xs (y ∷ ys)

Within-snoc : (f : ℕ) {xs ys : List ℕ} → Within xs ys → Within (xs ++ f ∷ []) (ys ++ f ∷ [])
Within-snoc f ends = kept f ends
Within-snoc f (kept x w) = kept x (Within-snoc f w)
Within-snoc f (skipped y w) = skipped y (Within-snoc f w)

Within-remove :
    (front : List ℕ) (x : ℕ) (bs ys : List ℕ)
    → Within (front ++ x ∷ bs) ys
    → Within (front ++ bs) ys
Within-remove [] x bs [] w = elim w [ ]
Within-remove (a ∷ front) x bs [] w = elim w [ ]
Within-remove [] x bs (y ∷ ys) (kept _ w) = skipped y w
Within-remove [] x bs (y ∷ ys) (skipped _ w) = skipped y (Within-remove [] x bs ys w)
Within-remove (a ∷ front) x bs (y ∷ ys) (kept _ w) = kept y (Within-remove front x bs ys w)
Within-remove (a ∷ front) x bs (y ∷ ys) (skipped _ w) =
    skipped y (Within-remove (a ∷ front) x bs ys w)

Within-drop_nth :
    (n : ℕ) (front xs ys : List ℕ) → Within (front ++ xs) ys → Within (front ++ drop_nth n xs) ys
Within-drop_nth n front [] ys w = w
Within-drop_nth zero front (x ∷ xs) ys w = Within-remove front x xs ys w
Within-drop_nth (suc n) front (x ∷ xs) ys w =
    subst (λ l. Within l ys) (append_assoc front (x ∷ []) (drop_nth n xs))
      (Within-drop_nth n (front ++ x ∷ []) xs ys
        (subst (λ l. Within l ys) (sym (append_assoc front (x ∷ []) xs)) w))

-- What was pushed is the line, in its order, and what was lost.
pub record InLine (line pushed lost : List ℕ) : Type 0 where
  pub order : Within line pushed
  pub counted : (f : ℕ) → count f pushed ≡ count f line + count f lost

along : {xs ys : List ℕ} (ps ls : List ℕ) → xs ≡ ys → InLine ys ps ls → InLine xs ps ls
along ps ls e l = subst (λ x. InLine x ps ls) (sym e) l

-- What was executed, what is in hand and what is in the queue are what was pushed, in this order, but for
-- what the queue has lost.
pub InOrder : Scheduler → Type 0
InOrder s = InLine (s.executed ++ in_hand s.thread ++ s.io_queue) s.pushed s.lost

-- The thread goes on with nothing in its hand.
thread_to-InOrder :
    (p q : ThreadPc) (s : Scheduler)
    → s.thread ≡ p
    → in_hand p ≡ in_hand q
    → InOrder s
    → InOrder (thread_to q s)
unfolding InOrder
thread_to-InOrder p q s at same o =
    along s.pushed s.lost (ap (λ h. s.executed ++ h ++ s.io_queue) (sym same ∙ sym (ap in_hand at)))
      o

pop_queue-InOrder :
    (q : List ℕ) (p n : ThreadPc) (g : ℕ → ThreadPc) (s : Scheduler)
    → s.thread ≡ p
    → in_hand p ≡ []
    → in_hand n ≡ []
    → ((f : ℕ) → in_hand (g f) ≡ f ∷ [])
    → s.io_queue ≡ q
    → InOrder s
    → InOrder (pop_queue q n g s)
unfolding InOrder pop_queue
pop_queue-InOrder [] p n g s at before none_hand some_hand e o =
    thread_to-InOrder p n s at (before ∙ sym none_hand) o
pop_queue-InOrder (f ∷ fs) p n g s at before none_hand some_hand e o =
    along s.pushed s.lost
      (ap (λ h. s.executed ++ h ++ fs) (some_hand f)
        ∙ append_assoc s.executed (f ∷ []) fs
        ∙ ap (λ q. s.executed ++ q) (sym e)
        ∙ ap (λ h. h ++ s.io_queue) (sym (append-nil s.executed))
        ∙ ap (λ h. s.executed ++ h ++ s.io_queue) (sym before ∙ sym (ap in_hand at)))
      o

acquire_thread-InOrder :
    (owner : Owner) (p q : ThreadPc) (s : Scheduler)
    → s.thread ≡ p
    → in_hand p ≡ in_hand q
    → InOrder s
    → InOrder (acquire the_thread owner (thread_to q) s)
unfolding InOrder acquire
acquire_thread-InOrder nobody p q s at same o = thread_to-InOrder p q s at same o
acquire_thread-InOrder the_thread p q s at same o = o
acquire_thread-InOrder (caller i) p q s at same o = o

thread_step-InOrder :
    (p : ThreadPc) (s : Scheduler) → s.thread ≡ p → InOrder s → InOrder (thread_step p s)
unfolding InOrder thread_step in_hand
thread_step-InOrder loop_head s at o =
    if_cases InOrder s.stop (λ _. thread_to-InOrder loop_head ended s at refl o)
      (λ _. thread_to-InOrder loop_head first_pop s at refl o)
thread_step-InOrder first_pop s at o =
    pop_queue-InOrder s.io_queue first_pop wait_lock execute s at refl refl (λ f. refl) refl o
thread_step-InOrder wait_lock s at o = acquire_thread-InOrder s.owner wait_lock set_wait s at refl o
thread_step-InOrder set_wait s at o = thread_to-InOrder set_wait second_pop s at refl o
thread_step-InOrder second_pop s at o =
    pop_queue-InOrder s.io_queue second_pop wait_test clear_wait s at refl refl (λ f. refl) refl o
thread_step-InOrder (clear_wait f) s at o =
    thread_to-InOrder (clear_wait f) (leave_run f) s at refl o
thread_step-InOrder (leave_run f) s at o = thread_to-InOrder (leave_run f) (execute f) s at refl o
thread_step-InOrder wait_test s at o =
    if_cases InOrder s.io_wait (λ _. thread_to-InOrder wait_test asleep s at refl o)
      (λ _. thread_to-InOrder wait_test leave_loop s at refl o)
thread_step-InOrder asleep s at o = o
thread_step-InOrder woken s at o = acquire_thread-InOrder s.owner woken wait_test s at refl o
thread_step-InOrder leave_loop s at o = thread_to-InOrder leave_loop loop_head s at refl o
thread_step-InOrder (execute f) s at o =
    along s.pushed s.lost
      (ap (λ h. h ++ s.io_queue) (append-nil (s.executed ++ f ∷ []))
        ∙ ap (λ h. s.executed ++ h ++ s.io_queue) (sym (ap in_hand at)))
      o
thread_step-InOrder ended s at o = o

notified-in_hand : (p : ThreadPc) → in_hand (notified p) ≡ in_hand p
unfolding in_hand notified
notified-in_hand asleep = refl
notified-in_hand p = ground arith

notified-InOrder : (s : Scheduler) → InOrder s → InOrder (thread_to (notified s.thread) s)
unfolding InOrder
notified-InOrder s o =
    along s.pushed s.lost (ap (λ h. s.executed ++ h ++ s.io_queue) (notified-in_hand s.thread)) o

acquire_caller-InOrder :
    (i : ℕ) (owner : Owner) (p : CallerPc) (s : Scheduler)
    → InOrder s
    → InOrder (acquire (caller i) owner (caller_to i p) s)
unfolding InOrder acquire
acquire_caller-InOrder i nobody p s o = o
acquire_caller-InOrder i the_thread p s o = o
acquire_caller-InOrder i (caller j) p s o = o

caller_step-InOrder :
    (i : ℕ) (p : CallerPc) (s : Scheduler) → InOrder s → InOrder (caller_step i p s)
unfolding InOrder caller_step
caller_step-InOrder i outside s o = o
caller_step-InOrder i (submit_push f) s o =
    let line = s.executed ++ in_hand s.thread ++ s.io_queue in
    along (s.pushed ++ f ∷ []) s.lost
      (sym (append_assoc (s.executed ++ in_hand s.thread) s.io_queue (f ∷ [])))
      record {
        order = Within-snoc f o.order;
        counted = λ g.
            omega
              (arith, o.counted g, count-append g s.pushed (f ∷ []), count-append g line (f ∷ []));
      }
caller_step-InOrder i submit_test s o = o
caller_step-InOrder i stop_store s o = o
caller_step-InOrder i wake_lock s o = acquire_caller-InOrder i s.owner wake_test s o
caller_step-InOrder i wake_test s o = o
caller_step-InOrder i wake_clear s o = o
caller_step-InOrder i wake_notify s o = notified-InOrder s o
caller_step-InOrder i wake_unlock s o = o

enter-InOrder : (i : ℕ) (p q : CallerPc) (s : Scheduler) → InOrder s → InOrder (enter i p q s)
unfolding InOrder enter
enter-InOrder i outside q s o = o
enter-InOrder i _ q s o = o

lose-InOrder : (n : ℕ) (s : Scheduler) → InOrder s → InOrder (lose n s)
unfolding InOrder lose
lose-InOrder n s o =
    let front = s.executed ++ in_hand s.thread in
    record {
      order = Within-drop_nth n front s.io_queue s.pushed o.order;
      counted = λ g. omega (
        arith,
        o.counted g,
        count-append g front s.io_queue,
        count-append g front (drop_nth n s.io_queue),
        count-append g s.lost (only_nth n s.io_queue),
        count-drop_nth g n s.io_queue,
      );
    }

move-InOrder : (m : Move) (s : Scheduler) → InOrder s → InOrder (move m s)
unfolding move
move-InOrder thread_moves s o = thread_step-InOrder s.thread s refl o
move-InOrder wakes_up s o = notified-InOrder s o
move-InOrder (caller_moves i) s o = caller_step-InOrder i (s.callers i) s o
move-InOrder (submits i f) s o = enter-InOrder i (s.callers i) (submit_push f) s o
move-InOrder (loses n) s o = lose-InOrder n s o
move-InOrder (stops i) s o = enter-InOrder i (s.callers i) stop_store s o

-- Let the functions executed, then the one that `IOSubmitThread` has popped, then those in the queue be the
-- functions pushed, in that order, but for those that the queue has lost, and let every function have been
-- pushed as often as it is among them or lost. Then every run ends in such a state, pushes that the
-- queue loses included: functions are executed in
-- the order of their pushes, at most once for each push, and none is missing but those that the queue itself
-- has lost.
pub run-InOrder : (ms : List Move) (s : Scheduler) → InOrder s → InOrder (run ms s)
unfolding run
run-InOrder [] s o = o
run-InOrder (m ∷ ms) s o = run-InOrder ms (move m s) (move-InOrder m s o)

pub start-InOrder : InOrder start
unfolding InOrder in_hand
start-InOrder = record { order = ends; counted = λ f. refl }
