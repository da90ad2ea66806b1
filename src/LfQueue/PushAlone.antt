-- ===== src/LfQueue/PushAlone.antt =====
-- `push` with no other thread in between: its accesses one by one.
use uring_fiber.Prelude.{ℕ, suc, ◌^◌, ◌<◌, ◌≡◌, refl, ap, false, some, arith}
use uring_fiber.LfQueue.Packed.{pack, get_ptr-pack}
use uring_fiber.LfQueue.Node.{Node, Memory, new_node, set_node}
use uring_fiber.LfQueue.Chain.{hollow}
use uring_fiber.LfQueue.Words.{counted_up_one, link_to_lem, external_freed_two}
use uring_fiber.LfQueue.Machine.{
  Choice, push_ends, won, Pc, push_new, push_load, push_inc, push_data, next_won, tail_cas,
  free_load, free_cas, push_counted, at_node, tail_set, count_set, step, alone,
}

pub alone-step :
    (n : ℕ) (c : Choice) (m m' : Memory) (p p' : Pc)
    → step c m p ≡ (m', p')
    → alone (suc n) c (m, p) ≡ alone n c (m', p')
unfolding alone
alone-step n c m m' p p' e = ap (alone n c) e

module _ (c : Choice) (m : Memory) where
  pub push_new_step :
      (v : ℕ)
      → c.garbage ≡ 0
      → c.address < 2 ^ 48
      → step c m (push_new v) ≡ (set_node c.address hollow m, push_load v (pack c.address 1))
  unfolding step new_node
  push_new_step v g h = rw (g, link_to_lem c.local c.address h) refl

  pub push_inc_step :
      (v nn t : ℕ)
      → m.tail ≡ pack t 1
      → t < 2 ^ 48
      → step c m (push_inc v nn (pack t 1))
        ≡ (record m { tail = pack t 2 }, push_data v nn (pack t 2))
  unfolding step
  push_inc_step v nn t e h = ground (arith, counted_up_one t h)

  pub push_data_step :
      (v nn t : ℕ) (n : Node)
      → m.nodes t ≡ some n
      → n.item ≡ 0
      → t < 2 ^ 48
      → step c m (push_data v nn (pack t 2))
        ≡ (set_node t (record n { item = v }) m, next_won nn (pack t 2))
  unfolding step
  push_data_step v nn t n e z h = simp (get_ptr-pack t 2 h) (rw (e, at_node, z) refl)

  pub next_won_step :
      (nn t : ℕ) (n : Node)
      → m.nodes t ≡ some n
      → n.next ≡ 0
      → t < 2 ^ 48
      → step c m (next_won nn (pack t 2))
        ≡ (set_node t (record n { next = nn }) m, tail_cas won (pack t 2) nn t)
  unfolding step
  next_won_step nn t n e z h = simp (get_ptr-pack t 2 h) (rw (e, at_node, z) refl)

  pub tail_cas_step :
      (nn t : ℕ)
      → m.tail ≡ pack t 2
      → c.spurious ≡ false
      → t < 2 ^ 48
      → step c m (tail_cas won (pack t 2) nn t)
        ≡ (record m { tail = nn }, free_load push_ends (pack t 2))
  unfolding step tail_set
  tail_cas_step nn t e s h = ground (arith, get_ptr-pack t 2 h)

  pub free_load_step :
      (t : ℕ) (n : Node)
      → m.nodes t ≡ some n
      → t < 2 ^ 48
      → step c m (free_load push_ends (pack t 2)) ≡ (m, free_cas push_ends (pack t 2) n.count)
  unfolding step
  free_load_step t n e h = simp (get_ptr-pack t 2 h) (rw (e, at_node) refl)

  pub free_cas_step :
      (t : ℕ) (n : Node)
      → m.nodes t ≡ some n
      → n.count ≡ hollow.count
      → t < 2 ^ 48
      → step c m (free_cas push_ends (pack t 2) hollow.count)
        ≡ (set_node t (record n { count = record { internal = 0; external = 1 } }) m, push_counted)
  unfolding step count_set
  free_cas_step t n e z h =
      simp (get_ptr-pack t 2 h) (rw (e, at_node, z, external_freed_two t 2 h) refl)
