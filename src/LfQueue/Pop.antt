-- ===== src/LfQueue/Pop.antt =====
-- `pop` with no other thread in between takes the oldest value out.
use uring_fiber.Prelude.{ℕ, ◌^◌, ◌<◌, ◌≡◌, ◌≢◌, refl, ◌∙◌, none, some, [], ◌∷◌, arith}
use uring_fiber.LfQueue.Packed.{pack, get_ptr-pack}
use uring_fiber.LfQueue.Node.{Counter, Node, Memory, bump, drop_one, set_node, destroy}
use uring_fiber.LfQueue.Chain.{Cells, first, full, AtRest, Chain-update}
use uring_fiber.LfQueue.Words.{counted_up_one, external_freed_two}
use uring_fiber.LfQueue.Machine.{
  Choice, Kont, pop_ends, pop_first, pop_second, pop_load, pop_inc, pop_tail, pop_next, pop_head,
  pop_take, pop_counted, popped, free_load, free_cas, at_node, count_set, resume, step, alone,
}
use uring_fiber.LfQueue.PushAlone.{alone-step}

module _ (c : Choice) (m : Memory) (p t : ℕ) (hp : p < 2 ^ 48) (ht : t < 2 ^ 48) where
  pop_second_step : m.tail ≡ pack t 1 → p ≢ t → step c m (pop_second (pack p 1)) ≡ (m, pop_load)
  unfolding step
  pop_second_step e ne = rw (e, get_ptr-pack p 1 hp, get_ptr-pack t 1 ht) (ground arith)

  pop_inc_step :
      m.head ≡ pack p 1
      → step c m (pop_inc (pack p 1)) ≡ (record m { head = pack p 2 }, pop_tail (pack p 2))
  unfolding step
  pop_inc_step e = ground (arith, counted_up_one p hp)

  pop_tail_step :
      m.tail ≡ pack t 1 → p ≢ t → step c m (pop_tail (pack p 2)) ≡ (m, pop_next (pack p 2))
  unfolding step
  pop_tail_step e ne = rw (e, get_ptr-pack p 2 hp, get_ptr-pack t 1 ht) (ground arith)

  pop_next_step :
      (n : Node)
      → m.nodes p ≡ some n
      → step c m (pop_next (pack p 2)) ≡ (m, pop_head (pack p 2) n.next)
  unfolding step
  pop_next_step n e = simp (get_ptr-pack p 2 hp) (rw (e, at_node) refl)

  pop_head_step :
      (next : ℕ)
      → m.head ≡ pack p 2
      → step c m (pop_head (pack p 2) next) ≡ (record m { head = next }, pop_take (pack p 2))
  unfolding step
  pop_head_step next e = ground arith

  pop_take_step :
      (n : Node)
      → m.nodes p ≡ some n
      → step c m (pop_take (pack p 2))
        ≡ (set_node p (record n { item = 0 }) m, free_load (pop_ends n.item) (pack p 2))
  unfolding step
  pop_take_step n e = simp (get_ptr-pack p 2 hp) (rw (e, at_node) refl)

  pop_free_load_step :
      (k : Kont) (n : Node)
      → m.nodes p ≡ some n
      → step c m (free_load k (pack p 2)) ≡ (m, free_cas k (pack p 2) n.count)
  unfolding step
  pop_free_load_step k n e = simp (get_ptr-pack p 2 hp) (rw (e, at_node) refl)

  abbrev last_count : Counter
  last_count = record { internal = 0; external = 1 }

  pop_free_cas_step :
      (k : Kont) (n : Node)
      → m.nodes p ≡ some n
      → n.count ≡ last_count
      → step c m (free_cas k (pack p 2) last_count) ≡ (destroy p m, resume k)
  unfolding step count_set
  pop_free_cas_step k n e z =
      simp (get_ptr-pack p 2 hp) (rw (e, at_node, z, external_freed_two p 1 hp) refl)

module _ (c : Choice) (m : Memory) (p x : ℕ) (cs : Cells) (t : ℕ)
    (rest : AtRest m ((p, x) ∷ cs) t) where
  abbrev r : ℕ
  r = first cs t

  -- The memory after each access that changes it.
  abbrev m1 : Memory
  m1 = record m { head = pack p 2 }

  abbrev m2 : Memory
  m2 = record m1 { head = pack r 1 }

  abbrev m3 : Memory
  m3 = set_node p (record (full x r) { item = 0 }) m2

  abbrev m4 : Memory
  m4 = destroy p m3

  abbrev m5 : Memory
  m5 = record m4 { pop_count = bump m.pop_count }

  abbrev m6 : Memory
  m6 = record m5 { size = drop_one m.size }

  pop_steps : alone 12 c (m, pop_first) ≡ (m6, popped x)
  unfolding alone step
  pop_steps =
      let hp = rest.chain.2.1 in
      let ht = rest.address.1 in
      let ne = rest.apart.0 in
      let oh = pack p 2 in
      alone-step 11 c m m pop_first (pop_second (pack p 1)) (rw rest.head refl)
      ∙ alone-step 10 c m m (pop_second (pack p 1)) pop_load
          (pop_second_step c m p t hp ht rest.tail ne)
      ∙ alone-step 9 c m m pop_load (pop_inc (pack p 1)) (rw rest.head refl)
      ∙ alone-step 8 c m m1 (pop_inc (pack p 1)) (pop_tail oh)
          (pop_inc_step c m p t hp ht rest.head)
      ∙ alone-step 7 c m1 m1 (pop_tail oh) (pop_next oh) (pop_tail_step c m1 p t hp ht rest.tail ne)
      ∙ alone-step 6 c m1 m1 (pop_next oh) (pop_head oh (pack r 1))
          (pop_next_step c m1 p t hp ht (full x r) rest.chain.0)
      ∙ alone-step 5 c m1 m2 (pop_head oh (pack r 1)) (pop_take oh)
          (pop_head_step c m1 p t hp ht (pack r 1) refl)
      ∙ alone-step 4 c m2 m3 (pop_take oh) (free_load (pop_ends x) oh)
          (pop_take_step c m2 p t hp ht (full x r) rest.chain.0)
      ∙ alone-step 3 c m3 m3 (free_load (pop_ends x) oh) (free_cas (pop_ends x) oh (full x r).count)
          (pop_free_load_step c m3 p t hp ht (pop_ends x) (record (full x r) { item = 0 })
            (ground arith))
      ∙ alone-step 2 c m3 m4 (free_cas (pop_ends x) oh (full x r).count) (pop_counted x) (
          pop_free_cas_step c m3 p t hp ht (pop_ends x) (record (full x r) { item = 0 })
            (ground arith) refl)

  pop-AtRest : AtRest m6 cs t
  pop-AtRest = record {
    head = refl;
    tail = rest.tail;
    chain =
        Chain-update m3.nodes cs t p none rest.distinct.0
          (Chain-update m.nodes cs t p _ rest.distinct.0 rest.chain.3);
    last = ground (arith, rest.last, rest.apart.0);
    address = rest.address;
    apart = rest.apart.1;
    distinct = rest.distinct.1;
    size = omega (arith, rest.size);
  }

-- A call of `pop` on a queue at rest that no other thread disturbs returns after twelve accesses with the
-- oldest value; the queue is then at rest with the other values in their order, and the node that held
-- the value has been deleted, and no other.
pub pop-takes-oldest :
    (c : Choice) (m : Memory) (p x : ℕ) (cs : Cells) (t : ℕ)
    → AtRest m ((p, x) ∷ cs) t
    → (m' : Memory) × (alone 12 c (m, pop_first) ≡ (m', popped x))
      × AtRest m' cs t
      × (m'.nodes p ≡ none)
      × ((q : ℕ) → q ≢ p → m'.nodes q ≡ m.nodes q)
      × (m'.destruct_count ≡ bump m.destruct_count)
pop-takes-oldest c m p x cs t rest = (
  m6 c m p x cs t rest,
  pop_steps c m p x cs t rest,
  pop-AtRest c m p x cs t rest,
  ground arith,
  λ q ne. ground arith,
  refl,
)

-- A call of `pop` on an empty queue at rest that no other thread disturbs returns the empty pointer after
-- two accesses, and changes nothing.
pub pop-empty :
    (c : Choice) (m : Memory) (t : ℕ) → AtRest m [] t → alone 2 c (m, pop_first) ≡ (m, popped 0)
unfolding alone step
pop-empty c m t rest = rw (rest.head, rest.tail) (ground arith)
