-- ===== src/LfQueue/Garbage.antt =====
-- The constructor `node()` does not set `data`: what becomes of `push` if fresh memory does not read as
-- zero.
use uring_fiber.Prelude.{
  ℕ, ◌≡◌, ◌≢◌, refl, ap, inl, inr, Bool, true, false, Bool-cases, Option, none, some, List, [], ◌∷◌,
  if_cases, ◌==◌, arith,
}
use uring_fiber.LfQueue.Packed.{get_ptr}
use uring_fiber.LfQueue.Node.{
  Counter, Node, Memory, new_node, same_counter, is_unused, set_node, destroy,
}
use uring_fiber.LfQueue.Machine.{
  Choice, Kont, push_ends, push_again, pop_null, pop_ends, pop_again, After, won, lost, Pc,
  push_new, push_load, push_inc, push_data, next_lost, lost_new, tail_cas, free_load, free_cas,
  release_load, release_cas, pushed, fault, resume, at_node, tail_set, count_set, step,
}

-- No node has an empty `data`.
abbrev pub NoHole : Memory → Type 0
NoHole m = (p : ℕ) (n : Node) → m.nodes p ≡ some n → n.item ≢ 0

abbrev retries : Kont → Bool
retries (push_again v nn ot) = true
retries _ = false

abbrev lost_only : After → Bool
lost_only won = false
lost_only (lost v nn) = true

-- The places of a `push` that has not stored its value.
abbrev pub unstored : Pc → Bool
unstored (push_new v) = true
unstored (push_load v nn) = true
unstored (push_inc v nn ot) = true
unstored (push_data v nn ot) = true
unstored (next_lost v nn ot) = true
unstored (lost_new v nn ot) = true
unstored (tail_cas a ot new cur) = lost_only a
unstored (free_load k cnp) = retries k
unstored (free_cas k cnp old) = retries k
unstored (release_load k p) = retries k
unstored (release_cas k p old) = retries k
unstored fault = true
unstored _ = false

-- What every step of such a `push` keeps.
abbrev pub Unstored : Memory × Pc → Type 0
Unstored (m, p) = NoHole m × (unstored p ≡ true)

set_node-NoHole : (p : ℕ) (n : Node) (m : Memory) → n.item ≢ 0 → NoHole m → NoHole (set_node p n m)
set_node-NoHole p n m h nh q x e = elim (Bool-cases (p == q)) [
  | inl at ↦ λ z. h (ground (arith, e))
  | inr off ↦ nh q x (ground (arith, e))
]

destroy-NoHole : (p : ℕ) (m : Memory) → NoHole m → NoHole (destroy p m)
destroy-NoHole p m nh q x e = nh q x (ground (arith, e))

-- An access of a node: none is a fault.
at_node-Unstored :
    (m : Memory) (p : ℕ) (f : Node → Memory × Pc)
    → NoHole m
    → ((n : Node) → m.nodes p ≡ some n → Unstored (f n))
    → Unstored (at_node m p f)
at_node-Unstored m p f nh h = go (m.nodes p) refl
  where
    go : (o : Option Node) → m.nodes p ≡ o → Unstored (elim o [ none ↦ (m, fault) | some n ↦ f n ])
    go none e = (nh, refl)
    go (some n) e = h n e

resume-unstored : (k : Kont) → retries k ≡ true → unstored (resume k) ≡ true
resume-unstored (push_again v nn ot) e = refl
resume-unstored push_ends e = cc
resume-unstored pop_null e = cc
resume-unstored (pop_ends r) e = cc
resume-unstored (pop_again o) e = cc

count_set-Unstored :
    (k : Kont) (p : ℕ) (n : Node) (c : Counter) (m : Memory)
    → retries k ≡ true
    → m.nodes p ≡ some n
    → NoHole m
    → Unstored (count_set k p n c m)
unfolding count_set
count_set-Unstored k p n c m r e nh =
    if_cases Unstored (is_unused c) (λ u. (destroy-NoHole p m nh, resume-unstored k r))
      λ u. (set_node-NoHole p (record n { count = c }) m (nh p n e) nh, resume-unstored k r)

tail_set-unstored : (v nn ot cur : ℕ) → unstored (tail_set (lost v nn) ot cur) ≡ true
unfolding tail_set
tail_set-unstored v nn ot cur =
    if_cases (λ p. unstored p ≡ true) (get_ptr ot == cur) (λ e. refl) λ e. refl

step-Unstored :
    (c : Choice) (m : Memory) (p : Pc) → c.garbage ≢ 0 → Unstored (m, p) → Unstored (step c m p)
unfolding step new_node
step-Unstored c m (push_new v) g (nh, u) = (set_node-NoHole c.address _ m g nh, refl)
step-Unstored c m (push_load v nn) g (nh, u) = (nh, refl)
step-Unstored c m (push_inc v nn ot) g (nh, u) =
    if_cases Unstored (m.tail == ot) (λ e. (nh, refl)) λ e. (nh, refl)
step-Unstored c m (push_data v nn ot) g (nh, u) = at_node-Unstored m (get_ptr ot) _ nh λ n e.
    if_cases Unstored (n.item == 0) (λ z. absurd (nh (get_ptr ot) n e (ground arith)))
      λ z. (nh, refl)
step-Unstored c m (next_lost v nn ot) g (nh, u) = at_node-Unstored m (get_ptr ot) _ nh λ n e.
    if_cases Unstored (n.next == 0)
      (λ z.
        (set_node-NoHole (get_ptr ot) (record n { next = nn }) m (nh (get_ptr ot) n e) nh, refl))
      λ z. (nh, refl)
step-Unstored c m (lost_new v nn ot) g (nh, u) = (set_node-NoHole c.address _ m g nh, refl)
step-Unstored c m (tail_cas (lost v nn) ot new cur) g (nh, u) =
    if_cases Unstored (m.tail == ot)
      (λ e. if_cases Unstored c.spurious (λ z. (nh, refl)) λ z. (nh, tail_set-unstored v nn ot cur))
      λ e.
        if_cases Unstored (get_ptr m.tail == cur) (λ z. (nh, refl))
          λ z. (nh, tail_set-unstored v nn m.tail cur)
step-Unstored c m (free_load (push_again v nn ot) cnp) g (nh, u) =
    at_node-Unstored m (get_ptr cnp) _ nh λ n e. (nh, refl)
step-Unstored c m (free_cas (push_again v nn ot) cnp old) g (nh, u) =
    at_node-Unstored m (get_ptr cnp) _ nh λ n e.
      if_cases Unstored (same_counter n.count old)
        (λ z. count_set-Unstored (push_again v nn ot) (get_ptr cnp) n _ m refl e nh) λ z. (nh, refl)
step-Unstored c m (release_load (push_again v nn ot) p) g (nh, u) =
    at_node-Unstored m p _ nh λ n e. (nh, refl)
step-Unstored c m (release_cas (push_again v nn ot) p old) g (nh, u) =
    at_node-Unstored m p _ nh λ n e.
      if_cases Unstored (same_counter n.count old)
        (λ z. count_set-Unstored (push_again v nn ot) p n _ m refl e nh) λ z. (nh, refl)
step-Unstored c m fault g (nh, u) = (nh, refl)
step-Unstored c m (tail_cas won ot new cur) g (nh, u) = absurd (cc u)
step-Unstored c m p g (nh, u) = absurd (cc u)

-- One thread through any number of steps, each with its own choices.
unfoldable pub drive : List Choice → Memory × Pc → Memory × Pc
drive [] s = s
drive (c ∷ cs) (m, p) = drive cs (step c m p)

abbrev pub AllGarbage : List Choice → Type 0
AllGarbage [] = Unit {0}
AllGarbage (c ∷ cs) = (c.garbage ≢ 0) × AllGarbage cs

drive-Unstored :
    (cs : List Choice) (s : Memory × Pc) → AllGarbage cs → Unstored s → Unstored (drive cs s)
unfolding drive
drive-Unstored [] s g u = u
drive-Unstored (c ∷ cs) (m, p) g u = drive-Unstored cs (step c m p) g.1 (step-Unstored c m p g.0 u)

-- If the memory of every node that is made reads as something other than zero where `data` lies, and the
-- nodes that are there have no empty `data` either, then a `push` never returns, nor stores its value:
-- after any number of steps it is still on its way, whatever addresses it is given.
pub push-never-returns :
    (cs : List Choice) (m : Memory) (v : ℕ)
    → AllGarbage cs
    → NoHole m
    → ((drive cs (m, push_new v)).1 ≢ pushed) × NoHole (drive cs (m, push_new v)).0
push-never-returns cs m v g nh =
    let (kept, still) = drive-Unstored cs (m, push_new v) g (nh, refl) in
    (λ e. cc (still, ap unstored e), kept)
