-- ===== src/Balance/Adding.antt =====
-- `Scheduler::AddTask` from outside of the processors: whose turn it is, and what is queued there.
use uring_fiber.Prelude.{
  Option-cases, length-set, ap₂, inl, inr, ℕ, zero, suc, ◌+◌, ◌%◌, ◌^◌, ◌<◌, ◌≡◌, ◌≢◌, refl, ap,
  sym, ◌∙◌, false, Option, none, some, List, [], ◌∷◌, ◌++◌, length, get_elem?, set, arith,
}
use uring_fiber.Pool.{Task}
use uring_fiber.Pool.Idle.{WellFormed, is_alive}
use uring_fiber.Pool.Gets.{get_out-loses, Owned}
use uring_fiber.Balance.{Worker, add_tasks, add_func, Dispatch, add_to, add_next, add_task}
use uring_fiber.Balance.Kept.{get_elem?-of_lt}

pub get_elem?-set_self :
    (ws : List Worker) (i : ℕ) (v w : Worker)
    → get_elem? ws i ≡ some w
    → get_elem? (set ws i v) i ≡ some v
get_elem?-set_self [] i v w e = cc
get_elem?-set_self (x ∷ ws) zero v w e = refl
get_elem?-set_self (x ∷ ws) (suc i) v w e = get_elem?-set_self ws i v w e

pub get_elem?-set_other :
    (ws : List Worker) (i j : ℕ) (v : Worker) → i ≢ j → get_elem? (set ws i v) j ≡ get_elem? ws j
get_elem?-set_other [] i j v ne = refl
get_elem?-set_other (x ∷ ws) zero zero v ne = absurd (ne refl)
get_elem?-set_other (x ∷ ws) zero (suc j) v ne = refl
get_elem?-set_other (x ∷ ws) (suc i) zero v ne = refl
get_elem?-set_other (x ∷ ws) (suc i) (suc j) v ne =
    get_elem?-set_other ws i j v (λ e. ne (ap suc e))

pub turn_lt : (a n : ℕ) → 0 < n → a % n < n
turn_lt a n h = grind arith

-- What a call of `AddTask` from outside leaves: the processor whose turn it is has `tk` in its queue and does
-- not wait, the others are as they were, the turn has passed on, and some task with the function is
-- alive and not idle in the pool.
pub record Added (tk func : ℕ) (s t : Dispatch) : Type 0 where
  pub queued :
      (w : Worker) × (get_elem? s.processers (s.idx % length s.processers) ≡ some w)
      × (get_elem? t.processers (s.idx % length s.processers)
          ≡ some (record { runnable_queue = w.runnable_queue ++ tk ∷ []; waiting = false }))
  pub others :
      (j : ℕ)
      → s.idx % length s.processers ≢ j
      → get_elem? t.processers j ≡ get_elem? s.processers j
  pub turn : t.idx ≡ (s.idx + 1) % 2 ^ 64
  pub made :
      (new : ℕ) × Owned new t.pool
      × ((k : Task) × (t.pool.tasks new ≡ some k) × (k.real_func ≡ func))

-- With processors there, a well formed pool and an address that `new` may return, `AddTask` of `func` from
-- outside of the processors queues, on the processor whose turn it is, the pointer `tk` that its
-- variable happened to hold, whatever that was; the task made for `func` is queued nowhere by it.
pub add_task-Added :
    (tk address func : ℕ) (s : Dispatch)
    → 0 < length s.processers
    → is_alive (s.pool.tasks address) ≡ false
    → WellFormed s.pool
    → (t : Dispatch) × (add_task none tk address func s ≡ some t) × Added tk func s t
unfolding add_task add_next add_to add_func add_tasks
add_task-Added tk address func s some_there fresh well =
    let i = s.idx % length s.processers in
    let (w, at) = get_elem?-of_lt s.processers i (turn_lt s.idx (length s.processers) some_there) in
    let (new, pool, got, owned, is_made) = get_out-loses tk address func s.pool fresh well in
    let w' : Worker = record { runnable_queue = w.runnable_queue ++ tk ∷ []; waiting = false } in
    let t : Dispatch = record s {
      pool = pool;
      processers = set s.processers i w';
      idx = (s.idx + 1) % 2 ^ 64;
    } in
    (
      t,
      ground (arith, some_there, at, got),
      record {
        queued = (w, at, get_elem?-set_self s.processers i w' w at);
        others = λ j ne. get_elem?-set_other s.processers i j w' ne;
        turn = refl;
        made = (new, owned, is_made);
      },
    )

mod_apart : (a m n : ℕ) → 0 < m → m < n → (a + m) % n ≢ a % n
mod_apart a m n p q e = grind arith

add_next-turn :
    (tk address func : ℕ) (s t : Dispatch)
    → add_next tk address func s ≡ some t
    → (t.idx ≡ (s.idx + 1) % 2 ^ 64) × (length t.processers ≡ length s.processers)
unfolding add_next add_to
add_next-turn tk address func s t e =
    elim (Option-cases (get_elem? s.processers (s.idx % length s.processers))) [
      | inl a ↦ ground (arith, a, e)
      | inr (w, a) ↦ elim (Option-cases (add_func tk address func s.pool w)) [
        | inl b ↦ ground (arith, a, b, e)
        | inr ((pool', w'), b) ↦
            ground (arith, a, b, e, length-set s.processers (s.idx % length s.processers) w')
      ]
    ]

-- Calls of `AddTask` from outside, one after the other, each with what its pointer holds, the address of a
-- new task, and the function.
unfoldable pub add_all : List (ℕ × ℕ × ℕ) → Dispatch → Option Dispatch
unfolding add_next
add_all [] s = some s
add_all ((tk, address, func) ∷ cs) s = elim (add_next tk address func s) [
  | none ↦ none
  | some t ↦ add_all cs t
]

add_all-turn :
    (cs : List (ℕ × ℕ × ℕ)) (s t : Dispatch)
    → s.idx + length cs < 2 ^ 64
    → add_all cs s ≡ some t
    → (t.idx ≡ s.idx + length cs) × (length t.processers ≡ length s.processers)
unfolding add_all
add_all-turn [] s t h e = ground (arith, e)
add_all-turn ((tk, address, func) ∷ cs) s t h e = elim (Option-cases (add_next tk address func s)) [
  | inl a ↦ cc
  | inr (u, a) ↦
      let now = add_next-turn tk address func s u a in
      let idx : u.idx ≡ s.idx + 1 = omega (arith, now.0, h) in
      let later = add_all-turn cs u t (omega (arith, h, idx)) (
        sym (ap (λ (o : Option Dispatch). elim o [ none ↦ none | some v ↦ add_all cs v ]) a) ∙ e) in
      omega (arith, now.1, idx, later)
]

-- The processors are served in turn: of fewer calls from outside than there are processors, each goes to
-- another one than the call before all of them, as long as the count of the calls does not wrap.
pub add_all-next :
    (cs : List (ℕ × ℕ × ℕ)) (s t : Dispatch)
    → s.idx + length cs < 2 ^ 64
    → 0 < length cs
    → length cs < length s.processers
    → add_all cs s ≡ some t
    → t.idx % length t.processers ≢ s.idx % length s.processers
add_all-next cs s t h some_calls few e same =
    let r = add_all-turn cs s t h e in
    mod_apart s.idx (length cs) (length s.processers) some_calls few
      (ap₂ ◌%◌ (sym r.0) (sym r.1) ∙ same)
