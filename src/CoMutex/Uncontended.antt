-- ===== src/CoMutex/Uncontended.antt =====
-- A `CoMutex` that one task uses by itself: `lock`, `unlock` and `try_lock` with no interference.
use uring_fiber.Prelude.{
  update-same, ℕ, ◌<◌, ◌≡◌, ◌≢◌, refl, ap, sym, ◌∙◌, inl, inr, Bool-cases, [], ◌==◌, if◌then◌else◌,
  update, arith,
}
use uring_fiber.CoMutex.{
  Word, Mutex, fresh_mutex, Pc, idle, holding, unlock_hand, try_load, try_cas, try_undefined,
  advance, lock_target,
}
use uring_fiber.CoMutex.System.{System, calls_try_lock, moved, Reach}
use uring_fiber.CoMutex.Contended.{
  Reach-trans, access_at, call_at, lock_alone, unlock_alone, unlocked_word, unlock_hand_none,
}

-- On a free mutex with no waiters counted, an idle task that runs alone gets through `lock`, then holds
-- the mutex, and gets through `unlock`; the mutex and the other tasks are then as they were.
pub lock-unlock_alone :
    (s : System) (i : ℕ)
    → s.pc i ≡ idle
    → s.mutex ≡ fresh_mutex
    → (t : System) × Reach s t
      × (t.pc i ≡ holding)
      × (t.mutex.word.locked ≡ 1)
      × ((u : System) × Reach t u
          × (u.pc i ≡ idle)
          × (u.mutex.word ≡ s.mutex.word)
          × ((j : ℕ) → j ≢ i → u.pc j ≡ s.pc j))
unfolding lock_target
lock-unlock_alone s i out free =
    let word : s.mutex.word ≡ fresh_mutex.word = ap (λ (x : Mutex). x.word) free in
    let (t, q, mine, rest, w) = lock_alone s i (ground (arith, word)) out in
    let taken : t.mutex.word ≡ record { locked = 1; waiters = 0 } = ground (arith, w, word) in
    let (u, p, hand, m, same) = unlock_alone t i mine in
    let given : u.mutex.word ≡ unlocked_word t.mutex.word = ap (λ (x : Mutex). x.word) m in
    let last =
      access_at u i (unlock_hand u.mutex.word) _ _ (hand ∙ ap unlock_hand (sym given))
        (unlock_hand_none i u.mutex (ground (arith, given, taken))) in
    (
      t,
      q,
      mine,
      ap (λ (x : Word). x.locked) taken,
      (
        _,
        Reach-trans p last,
        update-same u.pc i idle,
        ground (arith, given, taken, word),
        λ j ne. ground (arith, same j ne, rest j ne),
      ),
    )

try_cas_wins :
    (i : ℕ) (m : Mutex)
    → advance i m (try_cas m.word) ≡ record {
      mutex = record m { word = record { locked = 1; waiters = m.word.waiters } };
      next = holding;
      woken = [];
    }
unfolding advance
try_cas_wins i m = ground arith

-- Where `try_lock` ends that finds the given word and meets no other task.
abbrev try_ends : Word → Pc
try_ends w = if w.locked == 0 then holding else try_undefined

-- `try_lock` called by an idle task that runs alone: on a free mutex it returns true with the lock bit
-- set, and on a locked one it comes to the end of its body with no `return`; the count of waiters and
-- the waiter queue stay.
pub try_lock_alone :
    (s : System) (i : ℕ)
    → s.pc i ≡ idle
    → s.mutex.word.locked < 2
    → (t : System) × Reach s t
      × (t.pc i ≡ try_ends s.mutex.word)
      × (t.mutex.word ≡ record { locked = 1; waiters = s.mutex.word.waiters })
      × (t.mutex.waiter_queue ≡ s.mutex.waiter_queue)
unfolding advance
try_lock_alone s i out b =
    let s1 = moved s i try_load in
    let first = call_at s i idle try_load out calls_try_lock in
    elim (Bool-cases (s.mutex.word.locked == 0)) [
      | inl e ↦
          let s2 = moved s1 i (try_cas s.mutex.word) in
          (
            record {
              mutex = record s.mutex {
                word = record { locked = 1; waiters = s.mutex.word.waiters };
              };
              pc = update s2.pc i holding;
            },
            Reach-trans first (
                Reach-trans
                  (access_at s1 i try_load (try_cas s.mutex.word) s.mutex (update-same s.pc i _)
                    (rw e))
                  (access_at s2 i (try_cas s.mutex.word) _ _ (update-same s1.pc i _)
                    (try_cas_wins i s.mutex))),
            rw e (update-same s2.pc i holding),
            refl,
            refl,
          )
      | inr e ↦ (
        record { mutex = s.mutex; pc = update s1.pc i try_undefined },
        Reach-trans first
            (access_at s1 i try_load try_undefined s.mutex (update-same s.pc i _) (rw e)),
        rw e (update-same s1.pc i try_undefined),
        ground arith,
        refl,
      )
    ]
