-- ===== src/CoMutex/Tests.antt =====
-- Concrete schedules of tasks over a `CoMutex`.
use uring_fiber.Prelude.{◌≡◌, refl, arith}
use uring_fiber.CoMutex.{lock_load, holding, unlock_pop, advance}
use uring_fiber.CoMutex.System.{
  System, init, calls_lock, call, access, accessed, moved, Reach, here, later,
}
use uring_fiber.CoMutex.Faults.{NobodyWaits, lock-never-suspends}
use uring_fiber.CoMutex.Contended.{lock-second-holder, contended-unlock-hangs}

-- Task 1 has locked.
abbrev one_holder : System
one_holder = accessed (accessed (moved init 1 lock_load) 1) 1

one_holder-Reach : Reach init one_holder
one_holder-Reach = later (later (later here (call 1 calls_lock)) (access 1)) (access 1)

one_holder-holding : one_holder.pc 1 ≡ holding
unfolding advance
one_holder-holding = refl

lock-never-suspends_example : NobodyWaits one_holder
lock-never-suspends_example = lock-never-suspends one_holder-Reach

lock-second-holder_example :
    (t : System) × Reach one_holder t × (t.pc 1 ≡ holding) × (t.pc 2 ≡ holding)
unfolding advance
lock-second-holder_example = lock-second-holder 1 2 one_holder-Reach refl refl

contended-unlock-hangs_example :
    (t : System) × Reach one_holder t × ((u : System) → Reach t u → u.pc 1 ≡ unlock_pop)
unfolding advance
contended-unlock-hangs_example =
    contended-unlock-hangs 1 2 one_holder-Reach refl refl refl (omega arith)
