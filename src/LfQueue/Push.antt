-- ===== src/LfQueue/Push.antt =====
-- `push` with no other thread in between puts its value behind the others.
use uring_fiber.Prelude.{ℕ, ◌<◌, ◌≡◌, ◌≢◌, refl, ap, ◌∙◌, false, none, some, [], ◌∷◌, ◌++◌, arith}
use uring_fiber.LfQueue.Packed.{pack}
use uring_fiber.LfQueue.Node.{Memory, bump, set_node}
use uring_fiber.LfQueue.Chain.{
  Cells, hollow, full, IsAddress, Apart, AtRest, Chain-update, first-snoc, Chain-snoc, Apart-snoc,
  Distinct-snoc, Apart-of_none, length-snoc,
}
use uring_fiber.LfQueue.Machine.{
  Choice, push_ends, won, push_new, push_load, push_inc, push_data, next_won, tail_cas, free_load,
  free_cas, push_counted, pushed, step, alone,
}
use uring_fiber.LfQueue.PushAlone.{
  alone-step, push_new_step, push_inc_step, push_data_step, next_won_step, tail_cas_step,
  free_load_step, free_cas_step,
}

-- What `new` promises: an address of 48 bits, not null and not in use. `zeroed` is the assumption that
-- `push` makes beside it: the memory of a new node reads as zero, since `node()` leaves `data` alone.
pub record IsFresh (c : Choice) (m : Memory) : Type 0 where
  pub address : IsAddress c.address
  pub unused : m.nodes c.address ≡ none
  pub zeroed : c.garbage ≡ 0

module _ (c : Choice) (m : Memory) (cs : Cells) (t v : ℕ) (fresh : IsFresh c m)
    (rest : AtRest m cs t) where
  abbrev q : ℕ
  q = c.address

  -- The memory after each access that changes it.
  abbrev m1 : Memory
  m1 = set_node q hollow m

  abbrev m2 : Memory
  m2 = record m1 { tail = pack t 2 }

  abbrev m3 : Memory
  m3 = set_node t (record hollow { item = v }) m2

  abbrev m4 : Memory
  m4 = set_node t (record hollow { item = v; next = pack q 1 }) m3

  abbrev m5 : Memory
  m5 = record m4 { tail = pack q 1 }

  abbrev m6 : Memory
  m6 = set_node t (full v q) m5

  abbrev m7 : Memory
  m7 = record m6 { push_count = bump m.push_count }

  abbrev m8 : Memory
  m8 = record m7 { size = bump m.size }

  apart_new : t ≢ q
  apart_new e = cc (fresh.unused, rest.last, ap m.nodes e)

  tail_node1 : m1.nodes t ≡ some hollow
  tail_node1 = ground (arith, apart_new, rest.last)

  push_steps : c.spurious ≡ false → alone 10 c (m, push_new v) ≡ (m8, pushed)
  unfolding alone step
  push_steps s =
      let small = rest.address.1 in
      let ot = pack t 2 in
      let nn = pack q 1 in
      alone-step 9 c m m1 (push_new v) (push_load v nn)
        (push_new_step c m v fresh.zeroed fresh.address.1)
      ∙ alone-step 8 c m1 m1 (push_load v nn) (push_inc v nn (pack t 1)) (rw rest.tail refl)
      ∙ alone-step 7 c m1 m2 (push_inc v nn (pack t 1)) (push_data v nn ot)
          (push_inc_step c m1 v nn t rest.tail small)
      ∙ alone-step 6 c m2 m3 (push_data v nn ot) (next_won nn ot)
          (push_data_step c m2 v nn t hollow tail_node1 refl small)
      ∙ alone-step 5 c m3 m4 (next_won nn ot) (tail_cas won ot nn t)
          (next_won_step c m3 nn t (record hollow { item = v }) (ground arith) refl small)
      ∙ alone-step 4 c m4 m5 (tail_cas won ot nn t) (free_load push_ends ot)
          (tail_cas_step c m4 nn t refl s small)
      ∙ alone-step 3 c m5 m5 (free_load push_ends ot) (free_cas push_ends ot hollow.count)
          (free_load_step c m5 t (record hollow { item = v; next = nn }) (ground arith) small)
      ∙ alone-step 2 c m5 m6 (free_cas push_ends ot hollow.count) push_counted
          (free_cas_step c m5 t (record hollow { item = v; next = nn }) (ground arith) refl small)

  push-AtRest : 0 < v → AtRest m8 (cs ++ (t, v) ∷ []) q
  push-AtRest positive = record {
    head = rw (first-snoc cs t q v) rest.head;
    tail = refl;
    chain = Chain-snoc m8.nodes cs t q v (ground arith) positive rest.address (
        Chain-update m5.nodes cs t t (some (full v q)) rest.apart (
          Chain-update m3.nodes cs t t (some (record hollow { item = v; next = pack q 1 }))
            rest.apart
            (Chain-update m1.nodes cs t t (some (record hollow { item = v })) rest.apart
              (Chain-update m.nodes cs t q (some hollow) new_apart rest.chain))));
    last = ground (arith, apart_new);
    address = fresh.address;
    apart = Apart-snoc q cs t v apart_new new_apart;
    distinct = Distinct-snoc cs t v rest.apart rest.distinct;
    size = omega (arith, length-snoc cs (t, v), rest.size);
  }
    where
      new_apart : Apart q cs
      new_apart = Apart-of_none m.nodes cs t q fresh.unused rest.chain

-- A call of `push(v)` on a queue at rest that no other thread disturbs, with a fresh node whose memory
-- reads as zero and no spurious failure, returns after ten accesses; the queue is then at rest with `v`
-- behind all its values, and no node has been deleted.
pub push-appends :
    (c : Choice) (m : Memory) (cs : Cells) (t v : ℕ)
    → IsFresh c m
    → AtRest m cs t
    → c.spurious ≡ false
    → 0 < v
    → (m' : Memory) × (alone 10 c (m, push_new v) ≡ (m', pushed))
      × AtRest m' (cs ++ (t, v) ∷ []) c.address
      × (m'.destruct_count ≡ m.destruct_count)
push-appends c m cs t v fresh rest s positive = (
  m8 c m cs t v fresh rest,
  push_steps c m cs t v fresh rest s,
  push-AtRest c m cs t v fresh rest positive,
  refl,
)
