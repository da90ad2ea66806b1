-- ===== src/CoMutex/Contended.antt =====
-- A `CoMutex` that a second task locks while it is held: both hold it, and the first `unlock` hangs.
use uring_fiber.Prelude.{
  update-same, ℕ, ◌+◌, ◌^◌, ◌<◌, ◌≡◌, ◌≢◌, refl, ap, sym, [], ◌==◌, inl, inr, Bool-cases, ==_iff,
  update, arith, subst, ◌∙◌,
}
use uring_fiber.CoMutex.{
  Word, Mutex, Pc, idle, lock_load, lock_cas, holding, unlock_load, unlock_cas, unlock_hand,
  unlock_pop, Effect, advance, lock_target, handed_over,
}
use uring_fiber.CoMutex.System.{
  System, init, Call, calls_lock, calls_try_lock, calls_unlock, sees_failure, Step, call, access,
  moved, Reach, here, later, wake,
}
use uring_fiber.CoMutex.Faults.{NobodyWaits, advance-steady, lock-never-suspends}

pub Reach-trans : {s t u : System} → Reach s t → Reach t u → Reach s u
Reach-trans r here = r
Reach-trans r (later q st) = later (Reach-trans r q) st

-- One access of a task whose place is known, and which wakes nobody.
pub access_at :
    (s : System) (i : ℕ) (p q : Pc) (m : Mutex)
    → s.pc i ≡ p
    → advance i s.mutex p ≡ record { mutex = m; next = q; woken = [] }
    → Reach s (record { mutex = m; pc = update s.pc i q })
access_at s i p q m at e =
    subst
      (λ (f : Effect).
        Reach s (record { mutex = f.mutex; pc = wake f.woken (update s.pc i f.next) }))
      (ap (advance i s.mutex) at ∙ e) (later here (access i))

pub call_at : (s : System) (i : ℕ) (p q : Pc) → s.pc i ≡ p → Call p q → Reach s (moved s i q)
call_at s i p q at c = later here (call i (rw at c))

update_ne : (pc : ℕ → Pc) (i j : ℕ) (p : Pc) → i ≢ j → update pc i p j ≡ pc j
update_ne pc i j p h = ground arith

lock_cas_wins :
    (j : ℕ) (m : Mutex)
    → m.word.locked < 2
    → advance j m (lock_cas m.word)
      ≡ record { mutex = record m { word = lock_target m.word }; next = holding; woken = [] }
unfolding advance
lock_cas_wins j m b = ground arith

-- Task `j` locks, alone, whatever the mutex word says: three steps later it holds the mutex.
pub lock_alone :
    (s : System) (j : ℕ)
    → s.mutex.word.locked < 2
    → s.pc j ≡ idle
    → (t : System) × Reach s t
      × (t.pc j ≡ holding)
      × ((i : ℕ) → i ≢ j → t.pc i ≡ s.pc i)
      × (t.mutex.word ≡ lock_target s.mutex.word)
unfolding advance
lock_alone s j b out =
    let s1 = moved s j lock_load in
    let s2 = moved s1 j (lock_cas s.mutex.word) in
    let m : Mutex = record s.mutex { word = lock_target s.mutex.word } in
    let s3 : System = record { mutex = m; pc = update s2.pc j holding } in
    (
      s3,
      Reach-trans (call_at s j idle lock_load out calls_lock) (
          Reach-trans (access_at s1 j lock_load _ s.mutex (update-same s.pc j lock_load) refl) (
            access_at s2 j (lock_cas s.mutex.word) holding m (update-same s1.pc j _)
              (lock_cas_wins j s.mutex b))),
      update-same s2.pc j holding,
      λ i ne. ground arith,
      refl,
    )

Call-ne-unlock_pop : {p q : Pc} → Call p q → p ≢ unlock_pop
Call-ne-unlock_pop calls_lock = λ e. cc
Call-ne-unlock_pop calls_try_lock = λ e. cc
Call-ne-unlock_pop calls_unlock = λ e. cc
Call-ne-unlock_pop sees_failure = λ e. cc

advance-unlock_pop :
    (i : ℕ) (m : Mutex) (p : Pc)
    → m.waiter_queue ≡ []
    → p ≡ unlock_pop
    → (advance i m p).next ≡ unlock_pop
unfolding advance
advance-unlock_pop i m idle q at = cc
advance-unlock_pop i m _ q at = ground arith

unlock_pop-Step :
    {s t : System} (i : ℕ) → NobodyWaits s → s.pc i ≡ unlock_pop → Step s t → t.pc i ≡ unlock_pop
unlock_pop-Step {s} i v at (call j {p} c) = elim (Bool-cases (j == i)) [
  | inl e ↦ absurd (Call-ne-unlock_pop c (ap s.pc ((==_iff j i).0 e) ∙ at))
  | inr e ↦ rw e at
]
unlock_pop-Step {s} i v at (access j) =
    let (b, q, w, none_woken) = advance-steady j s.mutex (s.pc j) v.bit v.queue (v.free j) in
    rw none_woken (elim (Bool-cases (j == i)) [
      | inl e ↦
          rw e (advance-unlock_pop j s.mutex (s.pc j) v.queue (ap s.pc ((==_iff j i).0 e) ∙ at))
      | inr e ↦ rw e at
    ])

-- A task that is at the head of the pop loop of `unlock`, in a state that a system of tasks can reach,
-- is still there in every later state: that call of `unlock` never returns.
pub unlock_pop-forever :
    {s t : System} (i : ℕ) → Reach init s → s.pc i ≡ unlock_pop → Reach s t → t.pc i ≡ unlock_pop
unlock_pop-forever i r at here = at
unlock_pop-forever i r at (later q st) =
    unlock_pop-Step i (lock-never-suspends (Reach-trans r q)) (unlock_pop-forever i r at q) st

-- While task `i` holds the mutex, an idle task `j` can lock it too: from every such state that a
-- system of tasks can reach, one with both tasks holding the mutex is reached.
pub lock-second-holder :
    {s : System} (i j : ℕ)
    → Reach init s
    → s.pc i ≡ holding
    → s.pc j ≡ idle
    → (t : System) × Reach s t × (t.pc i ≡ holding) × (t.pc j ≡ holding)
lock-second-holder {s} i j r at out =
    let (t, q, mine, rest, _) = lock_alone s j (lock-never-suspends r).bit out in
    (t, q, rest i (λ e. cc (ap s.pc e)) ∙ at, mine)

-- The word that `unlock` leaves when it gives the lock to a waiter.
abbrev pub unlocked_word : Word → Word
unlocked_word w = record { locked = 0; waiters = w.waiters }

unlock_cas_wins :
    (i : ℕ) (m : Mutex)
    → advance i m (unlock_cas m.word) ≡ record {
      mutex = record m { word = unlocked_word m.word };
      next = unlock_hand (unlocked_word m.word);
      woken = [];
    }
unfolding advance
unlock_cas_wins i m = ground arith

unlock_hand_wins :
    (i : ℕ) (m : Mutex)
    → 0 < m.word.waiters
    → advance i m (unlock_hand m.word)
      ≡ record { mutex = record m { word = handed_over m.word }; next = unlock_pop; woken = [] }
unfolding advance
unlock_hand_wins i m h = ground arith

pub unlock_hand_none :
    (i : ℕ) (m : Mutex)
    → m.word.waiters ≡ 0
    → advance i m (unlock_hand m.word) ≡ record { mutex = m; next = idle; woken = [] }
unfolding advance
unlock_hand_none i m h = ground arith

-- The unlocking task runs alone up to its test of the waiters.
pub unlock_alone :
    (s : System) (i : ℕ)
    → s.pc i ≡ holding
    → (t : System) × Reach s t
      × (t.pc i ≡ unlock_hand (unlocked_word s.mutex.word))
      × (t.mutex ≡ record s.mutex { word = unlocked_word s.mutex.word })
      × ((j : ℕ) → j ≢ i → t.pc j ≡ s.pc j)
unfolding advance
unlock_alone s i at =
    let s1 = moved s i unlock_load in
    let s2 = moved s1 i (unlock_cas s.mutex.word) in
    let s3 : System = record {
      mutex = record s.mutex { word = unlocked_word s.mutex.word };
      pc = update s2.pc i (unlock_hand (unlocked_word s.mutex.word));
    } in
    (
      s3,
      Reach-trans (call_at s i holding unlock_load at calls_unlock) (
          Reach-trans (access_at s1 i unlock_load _ s.mutex (update-same s.pc i unlock_load) refl) (
            access_at s2 i (unlock_cas s.mutex.word) _ _ (update-same s1.pc i _)
              (unlock_cas_wins i s.mutex))),
      update-same s2.pc i _,
      refl,
      λ j ne. ground arith,
    )

-- Let task `i` hold the mutex, whose locked bit is set, and task `j` be idle, in a state that a system of
-- tasks can reach, with fewer than 2^31 - 1 waiters counted. If `j` calls `lock` and then `i` calls `unlock`, a state is
-- reached from which `unlock` never returns: in each later state `i` is still in its pop loop.
pub contended-unlock-hangs :
    {s : System} (i j : ℕ)
    → Reach init s
    → s.pc i ≡ holding
    → s.pc j ≡ idle
    → s.mutex.word.locked ≡ 1
    → s.mutex.word.waiters + 1 < 2 ^ 31
    → (t : System) × Reach s t × ((u : System) → Reach t u → u.pc i ≡ unlock_pop)
unfolding lock_target
contended-unlock-hangs {s} i j r at out locked few =
    let (t, q, mine, rest, counted) = lock_alone s j (lock-never-suspends r).bit out in
    let (u, p, hand, m, _) = unlock_alone t i (rest i (λ e. cc (ap s.pc e)) ∙ at) in
    let word : u.mutex.word ≡ unlocked_word t.mutex.word = ap (λ (x : Mutex). x.word) m in
    let some_wait : 0 < u.mutex.word.waiters = ground (arith, word, counted) in
    let last =
      access_at u i (unlock_hand u.mutex.word) _ _ (hand ∙ ap unlock_hand (sym word))
        (unlock_hand_wins i u.mutex some_wait) in
    let path = Reach-trans q (Reach-trans p last) in
    (
      _,
      path,
      λ v later_path. unlock_pop-forever i (Reach-trans r path) (update-same u.pc i _) later_path,
    )
