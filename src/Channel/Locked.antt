-- ===== src/Channel/Locked.antt =====
-- The calls of a channel with the mutex that they take: on a free mutex, and while a task is parked.
use uring_fiber.Prelude.{
  ℕ, ◌+◌, ◌^◌, ◌<◌, ◌≡◌, ◌≢◌, refl, ap, ◌∙◌, ◌⊎◌, inl, inr, if_cases, true, List, [], ◌∷◌,
  append-nil, lt→ltb, arith,
}
use uring_fiber.CoMutex.{Mutex, fresh_mutex, handed_over}
use uring_fiber.Channel.Body.{
  SendItem, Chan, Outcome, returned, threw, parked, hangs, tasks, fail_all, close_body, send_body,
  send_open, send_store, recv_body, recv_from, recv_park, recv_unbuffered, refill,
}
use uring_fiber.Channel.Calls.{lock_now, unlock_now, spins, finish, locked_chan, close, send, recv}

-- A call that does not come back to its caller.
abbrev pub IsStuck : Outcome → Type 0
IsStuck o = (o ≡ parked) ⊎ (o ≡ hangs)

-- A mutex that is locked, with no task in its queue (there is never one, by
-- `CoMutex.Faults.lock-never-suspends`), and whose count of waiters does not wrap at the next `lock`.
pub record IsTaken (m : Mutex) : Type 0 where
  pub locked : m.word.locked ≡ 1
  pub no_queue : m.waiter_queue ≡ []
  pub few : m.word.waiters + 1 < 2 ^ 31

unlock_now-spins :
    (m : Mutex)
    → 0 < m.word.waiters
    → m.waiter_queue ≡ []
    → unlock_now m
      ≡ spins (record m { word = handed_over (record { locked = 0; waiters = m.word.waiters }) })
unfolding unlock_now
unlock_now-spins m h q = rw (q, lt→ltb 0 m.word.waiters h)

lock_now-counts :
    (m : Mutex) → IsTaken m → (0 < (lock_now m).word.waiters) × ((lock_now m).waiter_queue ≡ [])
unfolding lock_now
lock_now-counts m t = ground arith

lock_now-IsTaken : IsTaken (lock_now fresh_mutex)
unfolding lock_now
lock_now-IsTaken = record { locked = refl; no_queue = refl; few = omega arith }

module _ {ℓ} {T : Type ℓ} where
  -- The work under the lock leaves the mutex alone.
  KeepsMutex : Chan T → Chan T × Outcome → Type 0
  KeepsMutex c r = (r.0.mtx ≡ c.mtx) × (r.1 ≢ hangs)

  fail_all-mtx : (ts : List ℕ) (c : Chan T) → (fail_all ts c).mtx ≡ c.mtx
  unfolding fail_all
  fail_all-mtx [] c = refl
  fail_all-mtx (t ∷ ts) c = fail_all-mtx ts _

  close_body-KeepsMutex : (c : Chan T) → KeepsMutex c (close_body c)
  unfolding close_body KeepsMutex
  close_body-KeepsMutex c =
      if_cases (KeepsMutex c) c.closed (λ e. (refl, λ h. cc))
        λ e.
          let c0 : Chan T = record c { closed = true } in
          let c1 = fail_all (tasks c.send_queue) c0 in
          (
            fail_all-mtx c1.recv_queue (record c1 { send_queue = [] })
                ∙ fail_all-mtx (tasks c.send_queue) c0,
            λ h. cc,
          )

  send_open-KeepsMutex :
      (self : ℕ) (v : T) (rq : List ℕ) (c : Chan T) → KeepsMutex c (send_open self v rq c)
  unfolding send_open send_store KeepsMutex
  send_open-KeepsMutex self v [] c = ground arith
  send_open-KeepsMutex self v (t ∷ ts) c = (refl, λ h. cc)

  send_body-KeepsMutex : (self : ℕ) (v : T) (c : Chan T) → KeepsMutex c (send_body self v c)
  unfolding send_body KeepsMutex
  send_body-KeepsMutex self v c =
      if_cases (KeepsMutex c) c.closed (λ e. (refl, λ h. cc))
        λ e. send_open-KeepsMutex self v c.recv_queue c

  refill-mtx : (sq : List (SendItem T)) (c : Chan T) → (refill sq c).mtx ≡ c.mtx
  unfolding refill
  refill-mtx [] c = refl
  refill-mtx (s ∷ ss) c = refl

  recv_unbuffered-KeepsMutex :
      (self : ℕ) (sq : List (SendItem T)) (c : Chan T) → KeepsMutex c (recv_unbuffered self sq c)
  unfolding recv_unbuffered recv_park KeepsMutex
  recv_unbuffered-KeepsMutex self [] c = (refl, λ h. cc)
  recv_unbuffered-KeepsMutex self (s ∷ ss) c = ground arith

  recv_from-KeepsMutex : (self : ℕ) (vs : List T) (c : Chan T) → KeepsMutex c (recv_from self vs c)
  unfolding recv_from KeepsMutex
  recv_from-KeepsMutex self [] c =
      if_cases (KeepsMutex c) c.closed (λ e. (refl, λ h. cc))
        λ e. recv_unbuffered-KeepsMutex self c.send_queue c
  recv_from-KeepsMutex self (v ∷ vs) c = (refill-mtx c.send_queue _, λ h. cc)

  recv_body-KeepsMutex : (self : ℕ) (c : Chan T) → KeepsMutex c (recv_body self c)
  unfolding recv_body
  recv_body-KeepsMutex self c = recv_from-KeepsMutex self c.buffer c

  finish-IsStuck :
      (m : Mutex) (c : Chan T) (o : Outcome)
      → unlock_now c.mtx ≡ spins m
      → IsStuck (finish (c, o)).1
  unfolding finish
  finish-IsStuck m c returned e = rw e (inr refl)
  finish-IsStuck m c threw e = rw e (inr refl)
  finish-IsStuck m c parked e = inl refl
  finish-IsStuck m c hangs e = inr refl

  call-IsStuck :
      (c : Chan T) (r : Chan T × Outcome)
      → IsTaken c.mtx
      → KeepsMutex (locked_chan c) r
      → IsStuck (finish r).1
  unfolding KeepsMutex
  call-IsStuck c (d, o) t k =
      let (some_wait, none_queued) = lock_now-counts c.mtx t in
      finish-IsStuck _ d o
        (ap unlock_now k.0 ∙ unlock_now-spins (lock_now c.mtx) some_wait none_queued)

  -- While the mutex of a channel is taken, as it is from the moment that a call parks its task, no call
  -- on the channel comes back: it parks its task too, or hangs in `unlock`.
  pub taken-IsStuck :
      (c : Chan T)
      → IsTaken c.mtx
      → IsStuck (close c).1
        × ((self : ℕ) (v : T) → IsStuck (send self v c).1)
        × ((self : ℕ) → IsStuck (recv self c).1)
  unfolding close send recv
  taken-IsStuck c t = (
    call-IsStuck c _ t (close_body-KeepsMutex (locked_chan c)),
    λ self v. call-IsStuck c _ t (send_body-KeepsMutex self v (locked_chan c)),
    λ self. call-IsStuck c _ t (recv_body-KeepsMutex self (locked_chan c)),
  )

  -- A channel whose mutex is free, as it is when no call is under way.
  finish-free :
      (c : Chan T) (r : Chan T × Outcome)
      → c.mtx ≡ fresh_mutex
      → KeepsMutex (locked_chan c) r
      → r.1 ≢ parked
      → ((finish r).1 ≡ r.1) × ((finish r).0 ≡ record (r.0) { mtx = fresh_mutex })
  unfolding KeepsMutex finish lock_now
  finish-free c (d, returned) free k ne = rw (k.0 ∙ ap lock_now free) (simp append-nil (refl, refl))
  finish-free c (d, threw) free k ne = rw (k.0 ∙ ap lock_now free) (simp append-nil (refl, refl))
  finish-free c (d, parked) free k ne = absurd (ne refl)
  finish-free c (d, hangs) free k ne = absurd (k.1 refl)

  -- The call `whole`, with `body` under its lock, ends as `body` does: it parks and leaves the mutex taken,
  -- or it does not and leaves the mutex free.
  abbrev pub Completes : Chan T × Outcome → Chan T × Outcome → Type ℓ
  Completes whole body =
      (whole.1 ≡ body.1)
      × (whole.1 ≢ hangs)
      × (((body.1 ≡ parked) × IsTaken whole.0.mtx)
          ⊎ ((body.1 ≢ parked) × (whole.0 ≡ record (body.0) { mtx = fresh_mutex })))

  finish-Completes :
      (c : Chan T) (r : Chan T × Outcome)
      → c.mtx ≡ fresh_mutex
      → KeepsMutex (locked_chan c) r
      → Completes (finish r) r
  unfolding finish KeepsMutex lock_now
  finish-Completes c (d, returned) free k =
      let (o, e) = finish-free c (d, returned) free k (λ h. cc) in (o, λ h. cc, inr (λ h. cc, e))
  finish-Completes c (d, threw) free k =
      let (o, e) = finish-free c (d, threw) free k (λ h. cc) in (o, λ h. cc, inr (λ h. cc, e))
  finish-Completes c (d, parked) free k =
      (refl, λ h. cc, inl (refl, rw (k.0 ∙ ap lock_now free) lock_now-IsTaken))
  finish-Completes c (d, hangs) free k = absurd (k.1 refl)

  -- On a channel whose mutex is free no call hangs: `Close`, `operator<<` and `operator>>` do the work
  -- under the lock and free the mutex again, unless they park the task; then the mutex stays taken.
  pub free-Completes :
      (c : Chan T)
      → c.mtx ≡ fresh_mutex
      → Completes (close c) (close_body (locked_chan c))
        × ((self : ℕ) (v : T) → Completes (send self v c) (send_body self v (locked_chan c)))
        × ((self : ℕ) → Completes (recv self c) (recv_body self (locked_chan c)))
  unfolding close send recv
  free-Completes c free = (
    finish-Completes c _ free (close_body-KeepsMutex (locked_chan c)),
    λ self v. finish-Completes c _ free (send_body-KeepsMutex self v (locked_chan c)),
    λ self. finish-Completes c _ free (recv_body-KeepsMutex self (locked_chan c)),
  )
