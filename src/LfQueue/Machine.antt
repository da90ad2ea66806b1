-- ===== src/LfQueue/Machine.antt =====
-- thread_safe/lockfree_queue.hpp: `push` and `pop` of `LFQueue`, one access of shared memory at a time.
use uring_fiber.Prelude.{ℕ, zero, suc, ◌+◌, Bool, none, some, ◌==◌, if◌then◌else◌, update}
use uring_fiber.LfQueue.Packed.{set_ptr, get_ptr, set_count, get_count}
use uring_fiber.LfQueue.Node.{
  Counter, Node, Memory, new_node, same_counter, released, external_freed, is_unused, bump,
  drop_one, set_node, destroy,
}

-- What one step leaves to the environment: the address that `new` returns, what the memory there and the
-- uninitialised local `new_next` hold, and whether a `compare_exchange_weak` fails for no reason.
pub record Choice : Type 0 where
  pub address : ℕ
  pub garbage : ℕ
  pub local : ℕ
  pub spurious : Bool

-- What follows the update of the counts of a node: the end of `push`; another round of it, with `v`,
-- `new_next` and `old_tail`; and for `pop` the end with null, with a result, or another round.
pub data Kont : Type 0 where
  push_ends : Kont
  push_again : (v new_next old_tail : ℕ) → Kont
  pop_null : Kont
  pop_ends : (res : ℕ) → Kont
  pop_again : (old_head : ℕ) → Kont

-- What follows `set_new_tail`: the end of `push`, or another round with `v` and `new_next`.
pub data After : Type 0 where
  won : After
  lost : (v new_next : ℕ) → After

-- Where a thread stands, with the locals that are live there.
pub data Pc : Type 0 where
  push_new : (v : ℕ) → Pc  -- start of `push`
  push_load : (v new_next : ℕ) → Pc
  push_inc : (v new_next old_tail : ℕ) → Pc  -- in `increase_external_count(tail, old_tail)`
  push_data : (v new_next old_tail : ℕ) → Pc  -- before the exchange of `data`
  next_won : (new_next old_tail : ℕ) → Pc  -- before the exchange of `next`, `data` being stored
  next_lost : (v new_next old_tail : ℕ) → Pc  -- the same, `data` being another thread's
  lost_new : (v new_next old_tail : ℕ) → Pc  -- before `SET_PTR(new_next,new node())` there
  tail_cas : (after : After) (old_tail new_tail current : ℕ) → Pc  -- the loop of `set_new_tail`
  free_load : (k : Kont) (cnp : ℕ) → Pc  -- `free_external_counter`
  free_cas : (k : Kont) (cnp : ℕ) (old : Counter) → Pc
  release_load : (k : Kont) (ptr : ℕ) → Pc  -- `release_ref`
  release_cas : (k : Kont) (ptr : ℕ) (old : Counter) → Pc
  push_counted : Pc  -- before `push_count.fetch_add(1)`
  push_sized : Pc  -- before `size.fetch_add(1)`
  pop_first : Pc  -- start of `pop`: `head.load()` of its first test
  pop_second : (h : ℕ) → Pc  -- `tail.load()` of that test
  pop_load : Pc
  pop_inc : (old_head : ℕ) → Pc  -- in `increase_external_count(head, old_head)`
  pop_tail : (old_head : ℕ) → Pc  -- before `ptr==GET_PTR(tail.load())`
  pop_next : (old_head : ℕ) → Pc  -- before `ptr->next.load()`
  pop_head : (old_head next : ℕ) → Pc  -- before the exchange of `head`
  pop_take : (old_head : ℕ) → Pc  -- before `data.exchange(nullptr)`
  pop_counted : (res : ℕ) → Pc  -- before `pop_count.fetch_add(1)`
  pop_sized : (res : ℕ) → Pc  -- before `size.fetch_sub(1)`
  pushed : Pc  -- `push` has returned
  popped : (res : ℕ) → Pc  -- `pop` has returned, 0 being the empty pointer
  fault : Pc  -- an access through a pointer to no node

-- `old_counter` of `increase_external_count`, with one more reference.
unfoldable pub counted_up : ℕ → ℕ
unfolding set_count get_count
counted_up cnp = set_count cnp (get_count cnp + 1)

-- A word for a new node: `SET_PTR` into any word, then `SET_COUNT(..., 1)`.
unfoldable pub link_to : ℕ → ℕ → ℕ
unfolding set_ptr set_count
link_to word p = set_count (set_ptr word p) 1

abbrev pub resume : Kont → Pc
resume push_ends = push_counted
resume (push_again v nn ot) = push_inc v nn ot
resume pop_null = popped 0
resume (pop_ends res) = pop_counted res
resume (pop_again oh) = pop_inc oh

abbrev pub kont_of : After → ℕ → Kont
kont_of won old_tail = push_ends
kont_of (lost v nn) old_tail = push_again v nn old_tail

-- An access of the node at `p`.
abbrev pub at_node : Memory → ℕ → (Node → Memory × Pc) → Memory × Pc
at_node m p f = elim (m.nodes p) [ none ↦ (m, fault) | some n ↦ f n ]

-- The loop of `set_new_tail` is over.
unfoldable pub tail_set : After → ℕ → ℕ → Pc
unfolding get_ptr
tail_set after old_tail current =
    if get_ptr old_tail == current
    then free_load (kont_of after old_tail) old_tail
    else release_load (kont_of after old_tail) current

-- The new count is in place: a node that nobody refers to is deleted.
unfoldable pub count_set : Kont → ℕ → Node → Counter → Memory → Memory × Pc
count_set k p n c m =
    if is_unused c
    then (destroy p m, resume k)
    else (set_node p (record n { count = c }) m, resume k)

unfoldable pub step : Choice → Memory → Pc → Memory × Pc
step c m (push_new v) =
    (set_node c.address (new_node c.garbage) m, push_load v (link_to c.local c.address))
step c m (push_load v nn) = (m, push_inc v nn m.tail)
step c m (push_inc v nn ot) =
    if m.tail == ot
    then (record m { tail = counted_up ot }, push_data v nn (counted_up ot))
    else (m, push_inc v nn m.tail)
step c m (push_data v nn ot) = at_node m (get_ptr ot) λ n.
    if n.item == 0
    then (set_node (get_ptr ot) (record n { item = v }) m, next_won nn ot)
    else (m, next_lost v nn ot)
step c m (next_won nn ot) = at_node m (get_ptr ot) λ n.
    if n.next == 0
    then (set_node (get_ptr ot) (record n { next = nn }) m, tail_cas won ot nn (get_ptr ot))
    else (
      record m { nodes = update m.nodes (get_ptr nn) none },
      tail_cas won ot n.next (get_ptr ot),
    )
step c m (next_lost v nn ot) = at_node m (get_ptr ot) λ n.
    if n.next == 0
    then (set_node (get_ptr ot) (record n { next = nn }) m, lost_new v nn ot)
    else (m, tail_cas (lost v nn) ot n.next (get_ptr ot))
step c m (lost_new v nn ot) = (
  set_node c.address (new_node c.garbage) m,
  tail_cas (lost v (set_ptr nn c.address)) ot nn (get_ptr ot),
)
step c m (tail_cas after ot new current) =
    if m.tail == ot
    then (if c.spurious
        then (m, tail_cas after m.tail new current)
        else (record m { tail = new }, tail_set after ot current))
    else (if get_ptr m.tail == current
        then (m, tail_cas after m.tail new current)
        else (m, tail_set after m.tail current))
step c m (free_load k cnp) = at_node m (get_ptr cnp) λ n. (m, free_cas k cnp n.count)
step c m (free_cas k cnp old) = at_node m (get_ptr cnp) λ n.
    if same_counter n.count old
    then count_set k (get_ptr cnp) n (external_freed cnp old) m
    else (m, free_cas k cnp n.count)
step c m (release_load k p) = at_node m p λ n. (m, release_cas k p n.count)
step c m (release_cas k p old) = at_node m p λ n.
    if same_counter n.count old
    then count_set k p n (released old) m
    else (m, release_cas k p n.count)
step c m push_counted = (record m { push_count = bump m.push_count }, push_sized)
step c m push_sized = (record m { size = bump m.size }, pushed)
step c m pop_first = (m, pop_second m.head)
step c m (pop_second h) = if get_ptr h == get_ptr m.tail then (m, popped 0) else (m, pop_load)
step c m pop_load = (m, pop_inc m.head)
step c m (pop_inc oh) =
    if m.head == oh
    then (record m { head = counted_up oh }, pop_tail (counted_up oh))
    else (m, pop_inc m.head)
step c m (pop_tail oh) =
    if get_ptr oh == get_ptr m.tail
    then (m, release_load pop_null (get_ptr oh))
    else (m, pop_next oh)
step c m (pop_next oh) = at_node m (get_ptr oh) λ n. (m, pop_head oh n.next)
step c m (pop_head oh next) =
    if m.head == oh
    then (record m { head = next }, pop_take oh)
    else (m, release_load (pop_again m.head) (get_ptr oh))
step c m (pop_take oh) =
    at_node m (get_ptr oh)
      λ n. (set_node (get_ptr oh) (record n { item = 0 }) m, free_load (pop_ends n.item) oh)
step c m (pop_counted res) = (record m { pop_count = bump m.pop_count }, pop_sized res)
step c m (pop_sized res) = (record m { size = drop_one m.size }, popped res)
step c m pushed = (m, pushed)
step c m (popped res) = (m, popped res)
step c m fault = (m, fault)

-- A call that runs with no other thread in between, for `n` steps.
unfoldable pub alone : ℕ → Choice → Memory × Pc → Memory × Pc
alone zero c s = s
alone (suc n) c (m, p) = alone n c (step c m p)

-- `LFQueue()`: one node, at `c.address`, is head and tail.
unfoldable pub make : Choice → Memory
unfolding link_to new_node
make c = record {
  head = link_to c.local c.address;
  tail = link_to c.local c.address;
  nodes = update (λ _. none) c.address (some (new_node c.garbage));
  size = 0;
  push_count = 0;
  pop_count = 0;
  destruct_count = 0;
}
