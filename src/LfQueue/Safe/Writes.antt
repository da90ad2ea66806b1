-- ===== src/LfQueue/Safe/Writes.antt =====
-- How the writes of `LFQueue` look to the references.
use uring_fiber.Prelude.{
  ℕ, ◌+◌, ◌≡◌, refl, ap, ap₂, sym, ◌∙◌, subst, Bool, true, false, Option, none, some, update, ◌==◌,
  Bool-cases, inl, inr,
}
use uring_fiber.LfQueue.Packed.{get_ptr, get_count}
use uring_fiber.LfQueue.Node.{Counter, Node, Memory, new_node, set_node}
use uring_fiber.LfQueue.Safe.{Role, View, Ranks}
use uring_fiber.LfQueue.Safe.Shape.{Shape, with_new, update-eq, update-ne}
use uring_fiber.LfQueue.Safe.Link.{with_next}
use uring_fiber.LfQueue.Safe.Moves.{with_counts, without}
use uring_fiber.LfQueue.Safe.Sound.{Safe}
use uring_fiber.LfQueue.Safe.Views.{
  is_there, next_of, internal_of, external_of, view, map_update, update-id,
}

abbrev with_nodes : View → (ℕ → Bool) → (ℕ → ℕ) → (ℕ → ℕ) → (ℕ → ℕ) → View
with_nodes v al nx it ex = record v { alive = al; next = nx; internal = it; external = ex }

with_nodes-eq :
    (v : View) {al al' : ℕ → Bool} {nx nx' it it' ex ex' : ℕ → ℕ}
    → al ≡ al'
    → nx ≡ nx'
    → it ≡ it'
    → ex ≡ ex'
    → with_nodes v al nx it ex ≡ with_nodes v al' nx' it' ex'
with_nodes-eq v {al} {al'} {nx} {nx'} {it} {it'} {ex} {ex'} a b c d =
    ap₂ (λ x y. with_nodes v x y it ex) a b ∙ ap₂ (λ x y. with_nodes v al' nx' x y) c d

node_update :
    (m : Memory) (a : ℕ) (o : Option Node)
    → view (record m { nodes = update m.nodes a o })
      ≡ with_nodes
          (view m)
          (update (view m).alive a (is_there o))
          (update (view m).next a (next_of o))
          (update (view m).internal a (internal_of o))
          (update (view m).external a (external_of o))
node_update m a o =
    with_nodes-eq (view m) (map_update is_there m.nodes a o) (map_update next_of m.nodes a o)
      (map_update internal_of m.nodes a o) (map_update external_of m.nodes a o)

pub view_new : (m : Memory) (a g : ℕ) → view (set_node a (new_node g) m) ≡ with_new a (view m)
unfolding new_node
view_new m a g = node_update m a (some (new_node g))

pub view_counts :
    (m : Memory) (a : ℕ) (n nd : Node)
    → m.nodes a ≡ some n
    → nd.next ≡ n.next
    → view (set_node a nd m) ≡ with_counts a nd.count.internal nd.count.external (view m)
view_counts m a n nd at same =
    node_update m a (some nd)
    ∙ with_nodes-eq (view m) (update-id (view m).alive a true (ap is_there at))
        (update-id (view m).next a nd.next (ap next_of at ∙ sym same)) refl refl

pub view_next :
    (m : Memory) (a : ℕ) (n nd : Node)
    → m.nodes a ≡ some n
    → nd.count ≡ n.count
    → view (set_node a nd m) ≡ with_next a nd.next (view m)
view_next m a n nd at same =
    node_update m a (some nd)
    ∙ with_nodes-eq (view m) (update-id (view m).alive a true (ap is_there at)) refl
        (update-id (view m).internal a nd.count.internal
          (ap internal_of at ∙ sym (ap (λ (c : Counter). c.internal) same)))
        (update-id (view m).external a nd.count.external
          (ap external_of at ∙ sym (ap (λ (c : Counter). c.external) same)))

pub view_item :
    (m : Memory) (a : ℕ) (n nd : Node)
    → m.nodes a ≡ some n
    → nd.next ≡ n.next
    → nd.count ≡ n.count
    → view (set_node a nd m) ≡ view m
view_item m a n nd at next count =
    view_next m a n nd at count
    ∙ ap (λ f. record (view m) { next = f })
        (update-id (view m).next a nd.next (ap next_of at ∙ sym next))

-- What a deleted node held does not matter.
module _ (n : ℕ) (v : View) (k : Ranks) (r : ℕ → Role) (nx it ex : ℕ → ℕ)
    (next : (p : ℕ) → v.alive p ≡ true → nx p ≡ v.next p)
    (internal : (p : ℕ) → v.alive p ≡ true → it p ≡ v.internal p)
    (external : (p : ℕ) → v.alive p ≡ true → ex p ≡ v.external p) where
  abbrev forgotten : View
  forgotten = record v { next = nx; internal = it; external = ex }

  Shape-forgotten : Shape v k → Shape forgotten k
  Shape-forgotten s = record {
    tail_alive = s.tail_alive;
    tail_rank = s.tail_rank;
    head_alive = s.head_alive;
    head_rank = s.head_rank;
    order = s.order;
    positive = s.positive;
    unique = s.unique;
    limit = s.limit;
    beyond = λ p l e z. s.beyond p l e (sym (next v.tail s.tail_alive) ∙ z);
    linked = λ p l e f z. s.linked p l e f (sym (next p l) ∙ z);
    ends = λ p l e. next p l ∙ s.ends p l e;
    single = λ p l has. ap get_count (next p l) ∙ s.single p l (λ z. has (next p l ∙ z));
    succeeds = λ p l e has.
        subst (λ w. (v.alive (get_ptr w) ≡ true) × (k.rank (get_ptr w) ≡ k.rank p + 1))
          (sym (next p l)) (s.succeeds p l e (λ z. has (next p l ∙ z)));
    unlinked = λ p l e.
        let (a, b, c) = s.unlinked p l e in (next p l ∙ a, internal p l ∙ b, external p l ∙ c);
  }

  pub forgotten-Safe : Safe n v k r → Safe n forgotten k r
  forgotten-Safe s = record {
    shape = Shape-forgotten s.shape;
    sound = record {
      fine = λ i.
          let f = s.sound.fine i in
          record {
            holds = f.holds;
            owning = f.owning;
            reads = λ z. let (h, is) = f.reads z in (h, next (r i).held (f.holds h).0 ∙ is);
            trails = f.trails;
          };
      apart = s.sound.apart;
      idle = s.sound.idle;
    };
    counted = record {
      externals = λ p l e. external p l ∙ s.counted.externals p l e;
      bounded = λ p l e. rw (external p l) (s.counted.bounded p l e);
      internals = λ p l e. rw (internal p l) (s.counted.internals p l e);
    };
  }

-- A node is deleted.
pub view-without-Safe :
    (n : ℕ) (m : Memory) (k : Ranks) (r : ℕ → Role) (a : ℕ)
    → Safe n (without a (view m)) k r
    → Safe n (view (record m { nodes = update m.nodes a none })) k r
view-without-Safe n m k r a s =
    let v = view m in
    let other : (p : ℕ) → update v.alive a false p ≡ true → (a == p) ≡ false = λ p l.
      elim (Bool-cases (a == p)) [ inl e ↦ cc (update-eq v.alive a p false e) | inr e ↦ e ] in
    subst (λ x. Safe n x k r) (sym (node_update m a none))
      (forgotten-Safe n (without a v) k r (update v.next a 0) (update v.internal a 0)
        (update v.external a 0) (λ p l. update-ne v.next a p 0 (other p l))
        (λ p l. update-ne v.internal a p 0 (other p l))
        (λ p l. update-ne v.external a p 0 (other p l)) s)
