-- ===== src/Pool/Gets.antt =====
-- `Get` of a pool: whose task it gives out, and what becomes of the count of idle tasks.
use uring_fiber.Prelude.{
  subst, ℕ, ◌+◌, ◌^◌, ◌≤◌, ◌<◌, ◌==◌, Bool, true, false, Option, none, some, List, [], ◌∷◌, update,
  update-same, ◌≡◌, refl, ap, sym, ◌∙◌, length, arith, Bool-cases, Option-cases, ==_iff, inl, inr,
}
use uring_fiber.Pool.{
  Stands, at_start, Task, TaskPool, create, release, take, write_task, get, get_out, Op, gets,
  gets_out, releases, call, calls, pool_of, returning,
}
use uring_fiber.Pool.Idle.{contains, is_distinct, is_alive, WellFormed, put_deleted}

pub alive-some : (o : Option Task) → is_alive o ≡ true → (k : Task) × (o ≡ some k)
alive-some none e = cc
alive-some (some k) e = (k, refl)

pub write_task-some :
    (tk : ℕ) (f : Task → Task) (s : TaskPool) (k : Task)
    → s.tasks tk ≡ some k
    → write_task tk f s ≡ some (record s { tasks = update s.tasks tk (some (f k)) })
unfolding write_task
write_task-some tk f s k e = rw (e, write_task) refl

-- A task that is alive, that is not idle, and a pool that is well formed.
pub record Owned (tk : ℕ) (s : TaskPool) : Type 0 where
  pub living : is_alive (s.tasks tk) ≡ true
  pub apart : contains s.task_queue tk ≡ false
  pub rest : WellFormed s

create-Owned :
    (address : ℕ) (s : TaskPool)
    → is_alive (s.tasks address) ≡ false
    → WellFormed s
    → Owned address (create address s)
create-Owned address s fresh w = record {
  living = ap is_alive (update-same s.tasks address _);
  apart = elim (Bool-cases (contains s.task_queue address)) [
    | inl e ↦ cc (w.alive address e)
    | inr e ↦ e
  ];
  rest = record {
    alive =
        λ t h. elim (Bool-cases (address == t)) [ inl e ↦ rw e refl | inr e ↦ rw e (w.alive t h) ];
    distinct = w.distinct;
    counted = w.counted;
    bounded = w.bounded;
  };
}

first-Owned :
    (tk : ℕ) (ts : List ℕ) (s : TaskPool)
    → s.task_queue ≡ tk ∷ ts
    → WellFormed s
    → Owned tk (record s { task_queue = ts })
first-Owned tk ts s e w =
    let first : contains s.task_queue tk ≡ true = rw (e, (==_iff tk tk).1 refl) refl in
    let distinct : is_distinct (tk ∷ ts) ≡ true = ap is_distinct (sym e) ∙ w.distinct in
    record {
      living = w.alive tk first;
      apart = ground (arith, distinct);
      rest = record {
        alive = λ t h. w.alive t (ap (λ q. contains q t) e ∙ ground (arith, h));
        distinct = ground (arith, distinct);
        counted = omega (arith, w.counted, ap length e);
        bounded = w.bounded;
      };
    }

take-Owned :
    (q : List ℕ) (address : ℕ) (s : TaskPool)
    → s.task_queue ≡ q
    → is_alive (s.tasks address) ≡ false
    → WellFormed s
    → Owned (take q address s).0 (take q address s).1
unfolding take
take-Owned [] address s e fresh w = create-Owned address s fresh w
take-Owned (tk ∷ ts) address s e fresh w = first-Owned tk ts s e w

written-Owned :
    (tk : ℕ) (k : Task) (s : TaskPool)
    → Owned tk s
    → Owned tk (record s { tasks = update s.tasks tk (some k) })
written-Owned tk k s o = record {
  living = ap is_alive (update-same s.tasks tk (some k));
  apart = o.apart;
  rest = record {
    alive =
        λ t h. elim (Bool-cases (tk == t)) [ inl e ↦ rw e refl | inr e ↦ rw e (o.rest.alive t h) ];
    distinct = o.rest.distinct;
    counted = o.rest.counted;
    bounded = o.rest.bounded;
  };
}

abbrev pub context_of : Option Task → Stands
context_of none = at_start
context_of (some k) = k.context

-- The context of the task that `Get` takes: of the idle one that is oldest, or of a new one.
abbrev pub taken_context : List ℕ → TaskPool → Stands
taken_context [] s = at_start
taken_context (tk ∷ ts) s = context_of (s.tasks tk)

-- On a well formed pool, where `new` returns an address not in use, the first `Get` leaves the caller's
-- pointer as it was, whatever it was; there is a task with the function asked for that is alive and not
-- idle: nobody was given its address.
pub get_out-loses :
    (out address func : ℕ) (s : TaskPool)
    → is_alive (s.tasks address) ≡ false
    → WellFormed s
    → (tk : ℕ) × (t : TaskPool) × (get_out out address func s ≡ some (out, t))
      × Owned tk t
      × ((k : Task) × (t.tasks tk ≡ some k) × (k.real_func ≡ func))
unfolding get_out
get_out-loses out address func s fresh w =
    let o = take-Owned s.task_queue address s refl fresh w in
    let (tk, s1) = take s.task_queue address s in
    let (k, e) = alive-some (s1.tasks tk) o.living in
    let k' : Task = record k { real_func = func } in
    (
      tk,
      record s1 { tasks = update s1.tasks tk (some k') },
      ap (returning out) (write_task-some tk (λ k. record k { real_func = func }) s1 k e),
      written-Owned tk k' s1 o,
      (k', update-same s1.tasks tk (some k'), refl),
    )

-- As many tasks are counted as may be idle, and at most `n` are.
pub record Full (n : ℕ) (s : TaskPool) : Type 0 where
  pub counted : s.count ≡ s.max_idle_task
  pub limit : s.max_idle_task + 1 < 2 ^ 64
  pub idle : length s.task_queue ≤ n

take-Full :
    {n : ℕ} (q : List ℕ) (address : ℕ) (s : TaskPool)
    → s.task_queue ≡ q
    → Full n s
    → Full n (take q address s).1
unfolding take
take-Full [] address s e f = record { counted = f.counted; limit = f.limit; idle = f.idle }
take-Full (tk ∷ ts) address s e f = record {
  counted = f.counted;
  limit = f.limit;
  idle = omega (arith, f.idle, ap length e);
}

-- The pool after a call, if the call is defined.
abbrev pub FullAfter : ℕ → Option TaskPool → Type 0
FullAfter n none = Unit
FullAfter n (some t) = Full n t

write_task-Full :
    {n : ℕ} (tk : ℕ) (f : Task → Task) (s : TaskPool) → Full n s → FullAfter n (write_task tk f s)
unfolding write_task
write_task-Full tk f s g = elim (Option-cases (s.tasks tk)) [
  | inl e ↦ rw (e, FullAfter) tt
  | inr (k, e) ↦ rw (e, FullAfter) (record { counted = g.counted; limit = g.limit; idle = g.idle })
]

returning-Full :
    (n tk : ℕ) (o : Option TaskPool) → FullAfter n o → FullAfter n (pool_of (returning tk o))
returning-Full n tk none f = f
returning-Full n tk (some s) f = f

release-Full : {n : ℕ} (fits : Bool) (tk : ℕ) (s : TaskPool) → Full n s → Full n (release fits tk s)
unfolding release
release-Full {n} true tk s f =
    subst (Full n)
      (sym (put_deleted tk s (omega (arith, f.counted, f.limit)) (omega (arith, f.counted))))
      record { counted = f.counted; limit = f.limit; idle = f.idle }
release-Full false tk s f = record { counted = f.counted; limit = f.limit; idle = f.idle }

call-Full : {n : ℕ} (op : Op) (s : TaskPool) → Full n s → FullAfter n (call op s)
unfolding call get get_out
call-Full (gets address func) s f =
    returning-Full _ _ _ (write_task-Full _ _ _ (take-Full s.task_queue address s refl f))
call-Full (gets_out out address func) s f =
    returning-Full _ _ _ (write_task-Full _ _ _ (take-Full s.task_queue address s refl f))
call-Full (releases fits tk) s f = release-Full fits tk s f

calls-FullAfter : {n : ℕ} (ops : List Op) (s : TaskPool) → Full n s → FullAfter n (calls ops s)
unfolding calls
calls-FullAfter [] s f = f
calls-FullAfter {n} (op ∷ ops) s f =
    let after = call-Full op s f in
    elim (Option-cases (call op s)) [
      | inl e ↦ rw (e, FullAfter) tt
      | inr (t, e) ↦ rw (e, FullAfter) (calls-FullAfter ops t (subst (FullAfter n) e after))
    ]

-- Once as many tasks are counted as may be idle (fewer than 2^64 - 1), whatever calls follow, the count
-- stays as it is and the number of idle tasks never grows above the bound it had.
pub calls-Full :
    (n : ℕ) (ops : List Op) (s t : TaskPool) → Full n s → calls ops s ≡ some t → Full n t
calls-Full n ops s t f e = subst (FullAfter n) e (calls-FullAfter ops s f)
