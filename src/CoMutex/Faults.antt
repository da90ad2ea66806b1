-- ===== src/CoMutex/Faults.antt =====
-- What becomes of a contended `CoMutex`: `lock` never waits, and `unlock` may never return.
use uring_fiber.Prelude.{ℕ, ◌<◌, ◌≡◌, refl, Bool, true, false, [], update, arith}
use uring_fiber.CoMutex.{Mutex, Pc, idle, lock_park, suspended, advance}
use uring_fiber.CoMutex.System.{
  System, init, Call, calls_lock, calls_try_lock, calls_unlock, sees_failure, Step, call, access,
  accessed, Reach, here, later,
}

-- Does the task wait for a wake-up, or is it about to?
abbrev pub waits : Pc → Bool
waits lock_park = true
waits suspended = true
waits _ = false

-- The lock bit is a bit, and nobody waits in the queue or outside of it.
pub record NobodyWaits (s : System) : Type 0 where
  pub bit : s.mutex.word.locked < 2
  pub queue : s.mutex.waiter_queue ≡ []
  pub free : (i : ℕ) → waits (s.pc i) ≡ false

pub advance-steady :
    (i : ℕ) (m : Mutex) (p : Pc)
    → m.word.locked < 2
    → m.waiter_queue ≡ []
    → waits p ≡ false
    → let e = advance i m p in
      (e.mutex.word.locked < 2)
      × (e.mutex.waiter_queue ≡ [])
      × (waits e.next ≡ false)
      × (e.woken ≡ [])
unfolding advance
advance-steady i m idle b q w = ground arith
advance-steady i m _ b q w = ground arith

NobodyWaits-init : NobodyWaits init
NobodyWaits-init = record { bit = omega arith; queue = refl; free = λ i. refl }

Call-free : {p q : Pc} → Call p q → waits q ≡ false
Call-free calls_lock = refl
Call-free calls_try_lock = refl
Call-free calls_unlock = refl
Call-free sees_failure = refl

update-free :
    (pc : ℕ → Pc) (i : ℕ) (p : Pc)
    → ((j : ℕ) → waits (pc j) ≡ false)
    → waits p ≡ false
    → (j : ℕ) → waits (update pc i p j) ≡ false
update-free pc i p free w j = ground (arith, free j)

accessed-NobodyWaits : (s : System) (i : ℕ) → NobodyWaits s → NobodyWaits (accessed s i)
accessed-NobodyWaits s i v =
    let (b, q, w, none_woken) = advance-steady i s.mutex (s.pc i) v.bit v.queue (v.free i) in
    record { bit = b; queue = q; free = λ j. rw none_woken (update-free s.pc i _ v.free w j) }

pub Step-NobodyWaits : {s t : System} → Step s t → NobodyWaits s → NobodyWaits t
Step-NobodyWaits {s} (call i c) v = record {
  bit = v.bit;
  queue = v.queue;
  free = update-free s.pc i _ v.free (Call-free c);
}
Step-NobodyWaits {s} (access i) v = accessed-NobodyWaits s i v

-- In every state that a system of tasks can reach, the waiter queue is empty and no task is parked or
-- about to park: `lock` never suspends its caller, whatever the interleaving.
pub lock-never-suspends : {s : System} → Reach init s → NobodyWaits s
lock-never-suspends here = NobodyWaits-init
lock-never-suspends (later r st) = Step-NobodyWaits st (lock-never-suspends r)

Reach-trans : {s t u : System} → Reach s t → Reach t u → Reach s u
Reach-trans r here = r
Reach-trans r (later q st) = later (Reach-trans r q) st
