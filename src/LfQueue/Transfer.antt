-- ===== src/LfQueue/Transfer.antt =====
-- What one access does with the objects: it leaves them where they are, or moves one between a node and the
-- thread, or drops one; it copies none.
use uring_fiber.Prelude.{
  ℕ, ◌≡◌, ◌≢◌, refl, ap, sym, ◌∙◌, subst, ◌⊎◌, inl, inr, Option, none, some, update, update-same,
  ◌==◌, ==_iff, if_cases, Bool-cases, Option-cases,
}
use uring_fiber.LfQueue.Packed.{get_ptr}
use uring_fiber.LfQueue.Node.{
  Node, Memory, Counter, new_node, set_node, destroy, is_unused, same_counter, released,
  external_freed,
}
use uring_fiber.LfQueue.Machine.{
  Choice, Kont, push_ends, push_again, pop_null, pop_ends, pop_again, After, won, lost, Pc,
  push_new, push_load, push_inc, push_data, next_won, next_lost, lost_new, tail_cas, free_load,
  free_cas, release_load, release_cas, push_counted, push_sized, pop_first, pop_second, pop_load,
  pop_inc, pop_tail, pop_next, pop_head, pop_take, pop_counted, pop_sized, pushed, popped, fault,
  step, at_node, tail_set, count_set, resume, kont_of,
}
use uring_fiber.LfQueue.Threads.{hand, item_of, value_of_kont, value_of_after}

-- Nothing, or what was there.
abbrev pub Kept : ℕ → ℕ → Type 0
Kept a b = (a ≡ 0) ⊎ (a ≡ b)

-- Each node has the object that it had, or none.
abbrev pub KeptItems : Memory → Memory → Type 0
KeptItems m m' = (q : ℕ) → Kept (item_of (m'.nodes q)) (item_of (m.nodes q))

pub data Transfer (m : Memory) (p : Pc) (r : Memory × Pc) : Type 0 where
  stays : Kept (hand r.1) (hand p) → KeptItems m r.0 → Transfer m p r
  gives :
      (a : ℕ)
      → hand r.1 ≡ 0
      → item_of (r.0.nodes a) ≡ hand p
      → ((q : ℕ) → q ≢ a → item_of (r.0.nodes q) ≡ item_of (m.nodes q))
      → Transfer m p r
  takes :
      (a : ℕ)
      → hand r.1 ≡ item_of (m.nodes a)
      → item_of (r.0.nodes a) ≡ 0
      → ((q : ℕ) → q ≢ a → item_of (r.0.nodes q) ≡ item_of (m.nodes q))
      → Transfer m p r

at_node-Transfer :
    (m : Memory) (p : Pc) (a : ℕ) (f : Node → Memory × Pc)
    → ((n : Node) → m.nodes a ≡ some n → Transfer m p (f n))
    → Transfer m p (at_node m a f)
at_node-Transfer m p a f t = elim (Option-cases (m.nodes a)) [
  | inl e ↦ rw (e, at_node) (stays (inl refl) (λ q. inr refl))
  | inr (n, e) ↦ rw (e, at_node) (t n e)
]

-- Nothing changes but the place of the thread, which keeps its object.
same-Transfer :
    (m m' : Memory) (p q : Pc) → m'.nodes ≡ m.nodes → hand q ≡ hand p → Transfer m p (m', q)
same-Transfer m m' p q e h =
    stays (inr h) (λ a. inr (ap (λ (f : ℕ → Option Node). item_of (f a)) e))

item_of-update :
    (nodes : ℕ → Option Node) (a q : ℕ) (o : Option Node)
    → Kept (item_of o) (item_of (nodes a))
    → Kept (item_of (update nodes a o q)) (item_of (nodes q))
item_of-update nodes a q o k = elim (Bool-cases (a == q)) [
  | inl e ↦ rw e (subst (λ b. Kept (item_of o) (item_of (nodes b))) ((==_iff a q).0 e) k)
  | inr e ↦ rw e (inr refl)
]

-- One node changes, and its object is the old one or none.
node-Transfer :
    (m m' : Memory) (p q : Pc) (a : ℕ) (o : Option Node)
    → m'.nodes ≡ update m.nodes a o
    → Kept (item_of o) (item_of (m.nodes a))
    → Kept (hand q) (hand p)
    → Transfer m p (m', q)
node-Transfer m m' p q a o e k h = stays h (λ b.
    subst (λ (f : ℕ → Option Node). Kept (item_of (f b)) (item_of (m.nodes b))) (sym e)
      (item_of-update m.nodes a b o k))

update-ne : (f : ℕ → Option Node) (a q : ℕ) (x : Option Node) → q ≢ a → update f a x q ≡ f q
update-ne f a q x ne = elim (Bool-cases (a == q)) [
  | inl e ↦ absurd (ne (sym ((==_iff a q).0 e)))
  | inr e ↦ rw e refl
]

gives-Transfer :
    (m : Memory) (p q : Pc) (a : ℕ) (n : Node)
    → hand q ≡ 0
    → n.item ≡ hand p
    → Transfer m p (set_node a n m, q)
gives-Transfer m p q a n none_left given =
    gives a none_left (ap item_of (update-same m.nodes a (some n)) ∙ given)
      (λ b ne. ap item_of (update-ne m.nodes a b (some n) ne))

takes-Transfer :
    (m : Memory) (p q : Pc) (a : ℕ) (n : Node)
    → hand q ≡ item_of (m.nodes a)
    → n.item ≡ 0
    → Transfer m p (set_node a n m, q)
takes-Transfer m p q a n taken emptied =
    takes a taken (ap item_of (update-same m.nodes a (some n)) ∙ emptied)
      (λ b ne. ap item_of (update-ne m.nodes a b (some n) ne))

-- A node is written without its object.
set_node-Transfer :
    (m : Memory) (p q : Pc) (a : ℕ) (n n' : Node)
    → m.nodes a ≡ some n
    → n'.item ≡ n.item
    → hand q ≡ hand p
    → Transfer m p (set_node a n' m, q)
set_node-Transfer m p q a n n' e k h =
    node-Transfer m (set_node a n' m) p q a (some n') refl (inr (k ∙ sym (ap item_of e))) (inr h)

hand-resume : (k : Kont) → hand (resume k) ≡ value_of_kont k
hand-resume push_ends = refl
hand-resume (push_again v nn ot) = refl
hand-resume pop_null = refl
hand-resume (pop_ends res) = refl
hand-resume (pop_again oh) = refl

value_of_kont_of :
    (after : After) (ot : ℕ) → value_of_kont (kont_of after ot) ≡ value_of_after after
value_of_kont_of won ot = refl
value_of_kont_of (lost v nn) ot = refl

hand-tail_set :
    (after : After) (ot current : ℕ) → hand (tail_set after ot current) ≡ value_of_after after
unfolding tail_set
hand-tail_set after ot current =
    if_cases (λ q. hand q ≡ value_of_after after) (get_ptr ot == current)
      (λ _. value_of_kont_of after ot) (λ _. value_of_kont_of after ot)

count_set-Transfer :
    (k : Kont) (a : ℕ) (n : Node) (c : Counter) (m : Memory) (p : Pc)
    → m.nodes a ≡ some n
    → hand p ≡ value_of_kont k
    → Transfer m p (count_set k a n c m)
unfolding count_set
count_set-Transfer k a n c m p e h =
    if_cases (Transfer m p) (is_unused c)
      (λ _.
        node-Transfer m (destroy a m) p (resume k) a none refl (inl refl)
          (inr (hand-resume k ∙ sym h)))
      (λ _.
        set_node-Transfer m p (resume k) a n (record n { count = c }) e refl
          (hand-resume k ∙ sym h))

-- One access of a thread copies no object, where new memory reads as zero.
pub step-Transfer : (c : Choice) (m : Memory) (p : Pc) → c.garbage ≡ 0 → Transfer m p (step c m p)
unfolding step new_node
step-Transfer c m (push_new v) g =
    node-Transfer m _ (push_new v) _ c.address (some (new_node c.garbage)) refl (inl g) (inr refl)
step-Transfer c m (push_load v nn) g = same-Transfer m m _ _ refl refl
step-Transfer c m (push_inc v nn ot) g =
    if_cases (Transfer m (push_inc v nn ot)) (m.tail == ot)
      (λ _. same-Transfer m _ (push_inc v nn ot) _ refl refl)
      (λ _. same-Transfer m m (push_inc v nn ot) _ refl refl)
step-Transfer c m (push_data v nn ot) g = at_node-Transfer m _ (get_ptr ot) _ λ n e.
    if_cases (Transfer m (push_data v nn ot)) (n.item == 0)
      (λ _. gives-Transfer m _ _ (get_ptr ot) (record n { item = v }) refl refl)
      (λ _. same-Transfer m m (push_data v nn ot) (next_lost v nn ot) refl refl)
step-Transfer c m (next_won nn ot) g = at_node-Transfer m _ (get_ptr ot) _ λ n e.
    if_cases (Transfer m (next_won nn ot)) (n.next == 0)
      (λ _.
        set_node-Transfer m (next_won nn ot) _ (get_ptr ot) n (record n { next = nn }) e refl refl)
      (λ _. node-Transfer m _ (next_won nn ot) _ (get_ptr nn) none refl (inl refl) (inr refl))
step-Transfer c m (next_lost v nn ot) g = at_node-Transfer m _ (get_ptr ot) _ λ n e.
    if_cases (Transfer m (next_lost v nn ot)) (n.next == 0)
      (λ _.
        set_node-Transfer m (next_lost v nn ot) _ (get_ptr ot) n (record n { next = nn }) e refl
          refl)
      (λ _. same-Transfer m m (next_lost v nn ot) _ refl refl)
step-Transfer c m (lost_new v nn ot) g =
    node-Transfer m _ (lost_new v nn ot) _ c.address (some (new_node c.garbage)) refl (inl g)
      (inr refl)
step-Transfer c m (tail_cas after ot new current) g =
    if_cases (Transfer m (tail_cas after ot new current)) (m.tail == ot)
      (λ _.
        if_cases (Transfer m (tail_cas after ot new current)) c.spurious
          (λ _. same-Transfer m m (tail_cas after ot new current) _ refl refl)
          (λ _.
            same-Transfer m _ (tail_cas after ot new current) _ refl
              (hand-tail_set after ot current)))
      (λ _.
        if_cases (Transfer m (tail_cas after ot new current)) (get_ptr m.tail == current)
          (λ _. same-Transfer m m (tail_cas after ot new current) _ refl refl)
          (λ _.
            same-Transfer m m (tail_cas after ot new current) _ refl
              (hand-tail_set after m.tail current)))
step-Transfer c m (free_load k cnp) g =
    at_node-Transfer m _ (get_ptr cnp) _
      λ n e. same-Transfer m m (free_load k cnp) (free_cas k cnp n.count) refl refl
step-Transfer c m (free_cas k cnp old) g = at_node-Transfer m _ (get_ptr cnp) _ λ n e.
    if_cases (Transfer m (free_cas k cnp old)) (same_counter n.count old)
      (λ _. count_set-Transfer k (get_ptr cnp) n (external_freed cnp old) m _ e refl)
      (λ _. same-Transfer m m (free_cas k cnp old) (free_cas k cnp n.count) refl refl)
step-Transfer c m (release_load k p) g =
    at_node-Transfer m _ p _
      λ n e. same-Transfer m m (release_load k p) (release_cas k p n.count) refl refl
step-Transfer c m (release_cas k p old) g = at_node-Transfer m _ p _ λ n e.
    if_cases (Transfer m (release_cas k p old)) (same_counter n.count old)
      (λ _. count_set-Transfer k p n (released old) m _ e refl)
      (λ _. same-Transfer m m (release_cas k p old) (release_cas k p n.count) refl refl)
step-Transfer c m push_counted g = same-Transfer m _ push_counted _ refl refl
step-Transfer c m push_sized g = same-Transfer m _ push_sized _ refl refl
step-Transfer c m pop_first g = same-Transfer m m pop_first _ refl refl
step-Transfer c m (pop_second h) g =
    if_cases (Transfer m (pop_second h)) (get_ptr h == get_ptr m.tail)
      (λ _. same-Transfer m m (pop_second h) _ refl refl)
      (λ _. same-Transfer m m (pop_second h) _ refl refl)
step-Transfer c m pop_load g = same-Transfer m m pop_load _ refl refl
step-Transfer c m (pop_inc oh) g =
    if_cases (Transfer m (pop_inc oh)) (m.head == oh)
      (λ _. same-Transfer m _ (pop_inc oh) _ refl refl)
      (λ _. same-Transfer m m (pop_inc oh) _ refl refl)
step-Transfer c m (pop_tail oh) g =
    if_cases (Transfer m (pop_tail oh)) (get_ptr oh == get_ptr m.tail)
      (λ _. same-Transfer m m (pop_tail oh) _ refl refl)
      (λ _. same-Transfer m m (pop_tail oh) _ refl refl)
step-Transfer c m (pop_next oh) g =
    at_node-Transfer m _ (get_ptr oh) _
      λ n e. same-Transfer m m (pop_next oh) (pop_head oh n.next) refl refl
step-Transfer c m (pop_head oh next) g =
    if_cases (Transfer m (pop_head oh next)) (m.head == oh)
      (λ _. same-Transfer m _ (pop_head oh next) _ refl refl)
      (λ _. same-Transfer m m (pop_head oh next) _ refl refl)
step-Transfer c m (pop_take oh) g = at_node-Transfer m _ (get_ptr oh) _ λ n e.
    takes-Transfer m _ (free_load (pop_ends n.item) oh) (get_ptr oh) (record n { item = 0 })
      (sym (ap item_of e)) refl
step-Transfer c m (pop_counted res) g = same-Transfer m _ (pop_counted res) _ refl refl
step-Transfer c m (pop_sized res) g = same-Transfer m _ (pop_sized res) _ refl refl
step-Transfer c m pushed g = same-Transfer m m pushed _ refl refl
step-Transfer c m (popped res) g = same-Transfer m m (popped res) _ refl refl
step-Transfer c m fault g = same-Transfer m m fault _ refl refl
