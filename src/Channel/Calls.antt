-- ===== src/Channel/Calls.antt =====
-- The three operations of `Channel<T>`, with the mutex that they take.
use uring_fiber.Prelude.{ℕ, Bool, true, false, List, [], ◌∷◌, ◌++◌, if◌then◌else◌, ltb}
use uring_fiber.CoMutex.{Word, Mutex, lock_target, handed_over}
use uring_fiber.Channel.Body.{
  Chan, Outcome, returned, threw, parked, hangs, close_body, send_body, recv_body,
}

-- `mtx_.lock()`: by `CoMutex.Faults.lock-never-suspends` it returns after one exchange of the word.
unfoldable pub lock_now : Mutex → Mutex
unfolding lock_target
lock_now m = record m { word = lock_target m.word }

-- What `mtx_.unlock()` leaves, with the task that it hands to `AddTask`; `spins` if its pop loop finds
-- no waiter.
pub data Unlocked : Type 0 where
  unlocked : Mutex → List ℕ → Unlocked
  spins : Mutex → Unlocked

unfoldable pub pop_loop : Mutex → List ℕ → Unlocked
pop_loop m [] = spins m
pop_loop m (t ∷ ts) = unlocked (record m { waiter_queue = ts }) (t ∷ [])

unfoldable pub unlock_now : Mutex → Unlocked
unfolding handed_over pop_loop
unlock_now m =
    let w : Word = record { locked = 0; waiters = m.word.waiters } in
    if ltb 0 w.waiters
    then pop_loop (record m { word = handed_over w }) m.waiter_queue
    else unlocked (record m { word = w }) []

-- What follows `SuspendTask` in both: with `isError` set a `std::runtime_error` is made and dropped,
-- not thrown.
abbrev pub after_suspend : Bool → Outcome
after_suspend true = returned
after_suspend false = returned

module _ {ℓ} {T : Type ℓ} where
  -- The end of a call: the destructor of `std::unique_lock`, on a return and on a throw.
  abbrev finish_with : Chan T → Outcome → Unlocked → Chan T × Outcome
  finish_with c o (unlocked m ts) = (record c { mtx = m; ready = c.ready ++ ts }, o)
  finish_with c o (spins m) = (record c { mtx = m }, hangs)

  unfoldable pub finish : Chan T × Outcome → Chan T × Outcome
  unfolding unlock_now
  finish (c, returned) = finish_with c returned (unlock_now c.mtx)
  finish (c, threw) = finish_with c threw (unlock_now c.mtx)
  finish (c, parked) = (c, parked)
  finish (c, hangs) = (c, hangs)

  abbrev pub locked_chan : Chan T → Chan T
  locked_chan c = record c { mtx = lock_now c.mtx }

  -- `Close`
  unfoldable pub close : Chan T → Chan T × Outcome
  unfolding lock_now finish
  close c = finish (close_body (locked_chan c))

  -- `operator<<` called by task `self`, up to its return or its `SuspendTask`.
  unfoldable pub send : ℕ → T → Chan T → Chan T × Outcome
  unfolding lock_now finish
  send self v c = finish (send_body self v (locked_chan c))

  -- `operator>>` called by task `self`, up to its return or its `SuspendTask`.
  unfoldable pub recv : ℕ → Chan T → Chan T × Outcome
  unfolding lock_now finish
  recv self c = finish (recv_body self (locked_chan c))

  -- A parked task goes on when it is scheduled again.
  unfoldable pub resume : ℕ → Chan T → Chan T × Outcome
  unfolding finish
  resume self c = finish (c, after_suspend (c.is_error self))
