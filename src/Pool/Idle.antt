-- ===== src/Pool/Idle.antt =====
-- The idle tasks of a pool: alive, distinct and counted; and what becomes of the count.
use uring_fiber.Prelude.{
  ◌≢◌, subst, ltb→lt, lt→ltb, ℕ, ◌+◌, ◌-◌, ◌%◌, ◌^◌, ◌≤◌, ◌<◌, ◌==◌, Bool, true, false, not, ◌&&◌,
  ◌||◌, Option, none, some, List, [], ◌∷◌, ◌++◌, ltb, ◌≡◌, refl, ap, sym, ◌∙◌, length,
  length-append, arith, if_cases, Bool-cases, ==_iff, inl, inr,
}
use uring_fiber.Pool.{Task, TaskPool, delete, put, release}

abbrev pub contains : List ℕ → ℕ → Bool
contains [] t = false
contains (x ∷ xs) t = x == t || contains xs t

abbrev pub is_distinct : List ℕ → Bool
is_distinct [] = true
is_distinct (x ∷ xs) = not (contains xs x) && is_distinct xs

abbrev pub is_alive : Option Task → Bool
is_alive none = false
is_alive (some k) = true

-- Every idle task is alive and queued once, and `count_` is at least their number and at most the limit.
pub record WellFormed (s : TaskPool) : Type 0 where
  pub alive : (t : ℕ) → contains s.task_queue t ≡ true → is_alive (s.tasks t) ≡ true
  pub distinct : is_distinct s.task_queue ≡ true
  pub counted : length s.task_queue ≤ s.count
  pub bounded : s.count ≤ s.max_idle_task

contains-append : (xs : List ℕ) (x t : ℕ) → contains (xs ++ x ∷ []) t ≡ (contains xs t || x == t)
contains-append [] x t = ground arith
contains-append (y ∷ ys) x t = ground (arith, contains-append ys x t)

is_distinct-append :
    (xs : List ℕ) (x : ℕ)
    → is_distinct xs ≡ true
    → contains xs x ≡ false
    → is_distinct (xs ++ x ∷ []) ≡ true
is_distinct-append [] x d n = refl
is_distinct-append (y ∷ ys) x d n = ground (arith, is_distinct-append ys x, contains-append ys x y)

delete-WellFormed :
    (tk : ℕ) (s : TaskPool)
    → contains s.task_queue tk ≡ false
    → WellFormed s
    → WellFormed (delete tk s)
delete-WellFormed tk s apart w = record {
  alive = λ t h. elim (Bool-cases (tk == t)) [
    | inl e ↦ cc (ap (contains s.task_queue) ((==_iff tk t).0 e))
    | inr e ↦ rw e (w.alive t h)
  ];
  distinct = w.distinct;
  counted = w.counted;
  bounded = w.bounded;
}

counted_up : (n : ℕ) → n + 1 < 2 ^ 64 → (n + 1) % 2 ^ 64 ≡ n + 1
counted_up n h = omega (arith, h)

counted_back : (n : ℕ) → n + 1 < 2 ^ 64 → ((n + 1) % 2 ^ 64 + 2 ^ 64 - 1) % 2 ^ 64 ≡ n
counted_back n h = omega (arith, h)

over_limit : (n m : ℕ) → n + 1 < 2 ^ 64 → n < m → ltb m ((n + 1) % 2 ^ 64) ≢ true
over_limit n m small room e = omega (arith, ltb→lt m ((n + 1) % 2 ^ 64) e, small, room)

under_limit : (n m : ℕ) → n + 1 < 2 ^ 64 → m ≤ n → ltb m ((n + 1) % 2 ^ 64) ≢ false
under_limit n m small full e =
    let over : ltb m ((n + 1) % 2 ^ 64) ≡ true =
      lt→ltb m ((n + 1) % 2 ^ 64) (omega (arith, small, full)) in
    cc

put_kept :
    (tk : ℕ) (s : TaskPool)
    → s.count + 1 < 2 ^ 64
    → s.count < s.max_idle_task
    → put tk s ≡ record s { count = s.count + 1; task_queue = s.task_queue ++ tk ∷ [] }
unfolding put
put_kept tk s small room =
    if_cases (λ p. p ≡ record s { count = s.count + 1; task_queue = s.task_queue ++ tk ∷ [] })
      (ltb s.max_idle_task ((s.count + 1) % 2 ^ 64))
      (λ over. absurd (over_limit s.count s.max_idle_task small room over))
      (λ _.
        ap (λ n. record s { count = n; task_queue = s.task_queue ++ tk ∷ [] })
          (counted_up s.count small))

pub put_deleted :
    (tk : ℕ) (s : TaskPool)
    → s.count + 1 < 2 ^ 64
    → s.max_idle_task ≤ s.count
    → put tk s ≡ delete tk s
unfolding put
put_deleted tk s small full =
    if_cases (λ p. p ≡ delete tk s) (ltb s.max_idle_task ((s.count + 1) % 2 ^ 64))
      (λ _. ap (λ n. delete tk (record s { count = n })) (counted_back s.count small))
      (λ under. absurd (under_limit s.count s.max_idle_task small full under))

-- What `Release` does, where the count does not wrap: a task whose stack has grown too far is deleted;
-- else it is queued and counted if fewer than `maxIdleTask_` are counted, and deleted, with the count as
-- it was, if not.
pub release_lem :
    (fits : Bool) (tk : ℕ) (s : TaskPool)
    → s.count + 1 < 2 ^ 64
    → (fits ≡ false → release fits tk s ≡ delete tk s)
      × (fits ≡ true → s.max_idle_task ≤ s.count → release fits tk s ≡ delete tk s)
      × (fits ≡ true
          → s.count < s.max_idle_task
          → release fits tk s
            ≡ record s { count = s.count + 1; task_queue = s.task_queue ++ tk ∷ [] })
unfolding release
release_lem true tk s small = (λ e. cc, λ _. put_deleted tk s small, λ _. put_kept tk s small)
release_lem false tk s small = (λ e. refl, λ e. cc, λ e. cc)

kept-WellFormed :
    (tk : ℕ) (s : TaskPool)
    → is_alive (s.tasks tk) ≡ true
    → contains s.task_queue tk ≡ false
    → s.count < s.max_idle_task
    → WellFormed s
    → WellFormed (record s { count = s.count + 1; task_queue = s.task_queue ++ tk ∷ [] })
kept-WellFormed tk s living apart room w = record {
  alive = λ t h. elim (Bool-cases (tk == t)) [
    | inl e ↦ ap (λ u. is_alive (s.tasks u)) (sym ((==_iff tk t).0 e)) ∙ living
    | inr e ↦ w.alive t (ground (arith, e, h, contains-append s.task_queue tk t))
  ];
  distinct = is_distinct-append s.task_queue tk w.distinct apart;
  counted = omega (arith, w.counted, length-append s.task_queue (tk ∷ []));
  bounded = omega (arith, room);
}

-- `Release` of a task that is alive and not idle keeps the pool well formed, where the count does not
-- wrap.
pub release-WellFormed :
    (fits : Bool) (tk : ℕ) (s : TaskPool)
    → s.count + 1 < 2 ^ 64
    → is_alive (s.tasks tk) ≡ true
    → contains s.task_queue tk ≡ false
    → WellFormed s
    → WellFormed (release fits tk s)
unfolding release
release-WellFormed false tk s small living apart w = delete-WellFormed tk s apart w
release-WellFormed true tk s small living apart w =
    elim (Bool-cases (ltb s.count s.max_idle_task)) [
      | inl e ↦
          subst WellFormed (sym (put_kept tk s small (ltb→lt _ _ e)))
            (kept-WellFormed tk s living apart (ltb→lt _ _ e) w)
      | inr e ↦
          subst WellFormed (sym (put_deleted tk s small (ground (arith, e))))
            (delete-WellFormed tk s apart w)
    ]
