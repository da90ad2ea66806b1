-- ===== src/LfQueue/Safe/Views.antt =====
-- The memory and the threads of `LFQueue`, as the references see them.
use uring_fiber.Prelude.{
  ℕ, ◌+◌, ◌%◌, ◌^◌, ◌<◌, ◌≡◌, ◌≢◌, refl, ap, sym, ◌∙◌, fun_ext, Bool, true, false, Option, none,
  some, update, ◌==◌, ==_iff, Bool-cases, inl, inr, arith,
}
use uring_fiber.LfQueue.Packed.{
  get_ptr, get_count, set_ptr, set_count_lem, set_ptr_lem, get_ptr-pack, get_count-pack,
}
use uring_fiber.LfQueue.Node.{Node, Memory}
use uring_fiber.LfQueue.Machine.{
  Kont, push_ends, push_again, pop_null, pop_ends, pop_again, After, won, lost, Pc, push_load,
  push_inc, push_data, next_won, next_lost, lost_new, tail_cas, free_load, free_cas, release_load,
  release_cas, pop_tail, pop_next, pop_head, pop_take, fault, counted_up, resume,
}
use uring_fiber.LfQueue.Safe.{Role, away, View}
use uring_fiber.LfQueue.Safe.Steps.{only_owns, at_held}

abbrev pub is_there : Option Node → Bool
is_there none = false
is_there (some n) = true

abbrev pub next_of : Option Node → ℕ
next_of none = 0
next_of (some n) = n.next

abbrev pub internal_of : Option Node → ℕ
internal_of none = 0
internal_of (some n) = n.count.internal

abbrev pub external_of : Option Node → ℕ
external_of none = 0
external_of (some n) = n.count.external

abbrev pub view : Memory → View
view m = record {
  tail = get_ptr m.tail;
  tail_count = get_count m.tail;
  head = get_ptr m.head;
  head_count = get_count m.head;
  alive = λ p. is_there (m.nodes p);
  next = λ p. next_of (m.nodes p);
  internal = λ p. internal_of (m.nodes p);
  external = λ p. external_of (m.nodes p);
}

-- The word of the node that a thread has for its next round of `push`.
abbrev pub spare : Kont → ℕ
spare (push_again v nn ot) = nn
spare _ = 0

abbrev pub handing_in : ℕ → ℕ → Role
handing_in cnp w = record (at_held (get_ptr cnp) w) { hands_in = true; share = get_count cnp }

abbrev pub role : Pc → Role
role (push_load v nn) = only_owns nn
role (push_inc v nn ot) = only_owns nn
role (push_data v nn ot) = at_held (get_ptr ot) nn
role (next_won nn ot) = at_held (get_ptr ot) nn
role (next_lost v nn ot) = at_held (get_ptr ot) nn
role (lost_new v nn ot) = record (at_held (get_ptr ot) 0) { successor = nn }
role (tail_cas won ot new current) = record (at_held current 0) { successor = new }
role (tail_cas (lost v nn) ot new current) = record (at_held current nn) { successor = new }
role (free_load k cnp) = handing_in cnp (spare k)
role (free_cas k cnp old) = handing_in cnp (spare k)
role (release_load k p) = at_held p (spare k)
role (release_cas k p old) = at_held p (spare k)
role (pop_tail oh) = at_held (get_ptr oh) 0
role (pop_next oh) = record (at_held (get_ptr oh) 0) { behind = true }
role (pop_head oh next) = record (at_held (get_ptr oh) 0) { successor = next; behind = true }
role (pop_take oh) = handing_in oh 0
role _ = away

abbrev pub SpareTold : Kont → Type 0
SpareTold (push_again v nn ot) = nn ≢ 0
SpareTold _ = Unit {0}

abbrev pub AfterTold : After → Type 0
AfterTold won = Unit {0}
AfterTold (lost v nn) = nn ≢ 0

-- What else is true of a thread's locals; it has not met a pointer to no node.
abbrev pub Told : Pc → Type 0
Told (push_load v nn) = nn ≢ 0
Told (push_inc v nn ot) = nn ≢ 0
Told (push_data v nn ot) = (nn ≢ 0) × (get_ptr ot ≢ 0)
Told (next_won nn ot) = (nn ≢ 0) × (get_ptr ot ≢ 0)
Told (next_lost v nn ot) = (nn ≢ 0) × (get_ptr ot ≢ 0)
Told (lost_new v nn ot) = (nn ≢ 0) × (get_ptr ot ≢ 0)
Told (tail_cas after ot new current) =
    (new ≢ 0) × (get_ptr ot ≡ current) × (current ≢ 0) × AfterTold after
Told (free_load k cnp) = (get_ptr cnp ≢ 0) × SpareTold k
Told (free_cas k cnp old) = (get_ptr cnp ≢ 0) × SpareTold k
Told (release_load k p) = (p ≢ 0) × SpareTold k
Told (release_cas k p old) = (p ≢ 0) × SpareTold k
Told (pop_tail oh) = get_ptr oh ≢ 0
Told (pop_next oh) = get_ptr oh ≢ 0
Told (pop_head oh next) = (get_ptr oh ≢ 0) × (next ≢ 0)
Told (pop_take oh) = get_ptr oh ≢ 0
Told fault = ⊥
Told _ = Unit {0}

pub role-resume : (k : Kont) → role (resume k) ≡ only_owns (spare k)
role-resume push_ends = refl
role-resume (push_again v nn ot) = refl
role-resume pop_null = refl
role-resume (pop_ends res) = refl
role-resume (pop_again oh) = refl

pub Told-resume : (k : Kont) → SpareTold k → Told (resume k)
Told-resume push_ends t = t
Told-resume (push_again v nn ot) t = t
Told-resume pop_null t = t
Told-resume (pop_ends res) t = t
Told-resume (pop_again oh) t = t

-- A function of an updated map.
pub map_update :
    {A B : Type 0} (f : A → B) (g : ℕ → A) (a : ℕ) (x : A)
    → (λ (p : ℕ). f (update g a x p)) ≡ update (λ p. f (g p)) a (f x)
map_update f g a x =
    fun_ext λ p. elim (Bool-cases (a == p)) [ inl e ↦ rw e refl | inr e ↦ rw e refl ]

pub update-id : {A : Type 0} (g : ℕ → A) (a : ℕ) (x : A) → g a ≡ x → update g a x ≡ g
update-id g a x e = fun_ext λ p. elim (Bool-cases (a == p)) [
  | inl z ↦ rw z (sym e ∙ ap g ((==_iff a p).0 z))
  | inr z ↦ rw z refl
]

-- The words.
pub get_ptr-counted_up : (w : ℕ) → get_ptr (counted_up w) ≡ get_ptr w
unfolding counted_up
get_ptr-counted_up w =
    ap get_ptr (set_count_lem w (get_count w + 1))
    ∙ get_ptr-pack (get_ptr w) ((get_count w + 1) % 2 ^ 16) (unfold get_ptr in omega arith)

pub get_count-counted_up : (w : ℕ) → get_count (counted_up w) ≡ (get_count w + 1) % 2 ^ 16
unfolding counted_up
get_count-counted_up w =
    ap get_count (set_count_lem w (get_count w + 1))
    ∙ get_count-pack (get_ptr w) ((get_count w + 1) % 2 ^ 16) (unfold get_ptr in omega arith)
        (omega arith)

pub get_ptr-set_ptr : (w a : ℕ) → a < 2 ^ 48 → get_ptr (set_ptr w a) ≡ a
get_ptr-set_ptr w a h = ap get_ptr (set_ptr_lem w a h) ∙ get_ptr-pack a (get_count w) h

pub get_count-set_ptr : (w a : ℕ) → a < 2 ^ 48 → get_count (set_ptr w a) ≡ get_count w
get_count-set_ptr w a h =
    ap get_count (set_ptr_lem w a h)
    ∙ get_count-pack a (get_count w) h (unfold get_count in omega arith)
