-- ===== src/LfQueue/Safe/Kept.antt =====
-- Accesses of `LFQueue` that keep the references sound, each with what it needs of the thread.
use uring_fiber.Prelude.{
  ℕ, ◌^◌, ◌<◌, ◌≤◌, ◌≡◌, ◌≢◌, refl, ap, sym, ◌∙◌, subst, Bool, true, false, none, some, update,
  update-same, ◌==◌, Bool-cases, Option-cases, inl, inr, if◌then◌else◌, arith,
}
use uring_fiber.LfQueue.Packed.{get_ptr, get_count}
use uring_fiber.LfQueue.Node.{Counter, Node, Memory, new_node, set_node, destroy, is_unused}
use uring_fiber.LfQueue.Machine.{Kont, Pc, resume, at_node, count_set}
use uring_fiber.LfQueue.Safe.{Role, View, Ranks}
use uring_fiber.LfQueue.Safe.Shape.{with_new, with_rank, update-eq, update-ne}
use uring_fiber.LfQueue.Safe.Moves.{with_counts, without}
use uring_fiber.LfQueue.Safe.Sound.{Fine, Safe}
use uring_fiber.LfQueue.Safe.Steps.{only_owns, still-Safe}
use uring_fiber.LfQueue.Safe.Nodes.{new-Safe}
use uring_fiber.LfQueue.Safe.Leaving.{delete-Safe}
use uring_fiber.LfQueue.Safe.Views.{
  is_there, view, spare, role, SpareTold, Told, role-resume, Told-resume, update-id,
}
use uring_fiber.LfQueue.Safe.Writes.{view_new, view_counts, view-without-Safe, forgotten-Safe}

-- After an access of thread `i` the references are sound, and it has met no pointer to no node.
pub record Kept (n i : ℕ) (r : ℕ → Role) (s : Memory × Pc) : Type 0 where
  pub ranks : Ranks
  pub safe : Safe n (view s.0) ranks (update r i (role s.1))
  pub told : Told s.1

pub kept :
    (n i : ℕ) (r : ℕ → Role) (m : Memory) (p : Pc) (k : Ranks) (v : View) (q : Role)
    → view m ≡ v
    → role p ≡ q
    → Told p
    → Safe n v k (update r i q)
    → Kept n i r (m, p)
kept n i r m p k v q seen is t s = record {
  ranks = k;
  safe =
      subst (λ x. Safe n x k (update r i (role p))) (sym seen)
        (subst (λ x. Safe n v k (update r i x)) (sym is) s);
  told = t;
}

pub if-Kept :
    (n i : ℕ) (r : ℕ → Role) (b : Bool) (x y : Memory × Pc)
    → (b ≡ true → Kept n i r x)
    → (b ≡ false → Kept n i r y)
    → Kept n i r (if b then x else y)
if-Kept n i r true x y f g = f refl
if-Kept n i r false x y f g = g refl

module _ (n : ℕ) (m : Memory) (k : Ranks) (r : ℕ → Role) (i : ℕ) (few : i < n)
    (s : Safe n (view m) k r) where
  -- Nothing changes that a reference depends on.
  pub same-Kept :
      (m' : Memory) (p : Pc) → view m' ≡ view m → role p ≡ r i → Told p → Kept n i r (m', p)
  same-Kept m' p seen is t =
      kept n i r m' p k (view m) (r i) seen is t
        (subst (Safe n (view m) k) (sym (update-id r i (r i) refl)) s)

  -- The thread learns or forgets something.
  pub learn-Kept :
      (p : Pc)
      → (role p).held ≡ (r i).held
      → (role p).hands_in ≡ (r i).hands_in
      → (role p).share ≡ (r i).share
      → (role p).owns ≡ (r i).owns
      → ((role p).successor ≢ 0
          → ((role p).held ≢ 0) × ((view m).next (role p).held ≡ (role p).successor))
      → ((role p).behind ≡ true → ((role p).held ≢ 0) × (k.rank (role p).held < k.last))
      → Told p
      → Kept n i r (m, p)
  learn-Kept p held hands share owns reads trails t =
      let f = s.sound.fine i in
      let fine : Fine (view m) k (role p) = record {
        holds = rw held f.holds;
        owning = rw owns f.owning;
        reads = reads;
        trails = trails;
      } in
      kept n i r m p k (view m) (role p) refl refl t
        (still-Safe n (view m) k r i (role p) few held hands share owns fine s)

  pub held_ranked :
      (a : ℕ)
      → (r i).held ≡ a
      → a ≢ 0
      → ((view m).alive a ≡ true) × (0 < k.rank a) × (k.rank a ≤ k.last)
  held_ranked a held some_a =
      let f = (s.sound.fine i).holds (λ z. some_a (sym held ∙ z)) in
      subst (λ x. ((view m).alive x ≡ true) × (0 < k.rank x) × (k.rank x ≤ k.last)) held f

  -- The node that the thread refers to is there.
  pub at_node-Kept :
      (a : ℕ) (f : Node → Memory × Pc)
      → (r i).held ≡ a
      → a ≢ 0
      → ((nd : Node) → m.nodes a ≡ some nd → Kept n i r (f nd))
      → Kept n i r (at_node m a f)
  at_node-Kept a f held some_a go =
      let (there, _, _) = held_ranked a held some_a in
      elim (Option-cases (m.nodes a)) [
        | inl e ↦ cc (ap is_there e)
        | inr (nd, e) ↦ rw (at_node, e) (go nd e)
      ]

  -- A new node.
  pub new-Kept :
      (a g w : ℕ) (p : Pc)
      → m.nodes a ≡ none
      → a ≢ 0
      → get_ptr w ≡ a
      → get_count w ≡ 1
      → role p ≡ record (r i) { owns = w }
      → Told p
      → Kept n i r (set_node a (new_node g) m, p)
  new-Kept a g w p fresh nonzero is one e t =
      kept n i r (set_node a (new_node g) m) p (with_rank a 0 k) (with_new a (view m))
        (record (r i) { owns = w }) (view_new m a g) e t
        (subst
          (λ x.
            Safe n (with_new x (view m)) (with_rank x 0 k) (update r i (record (r i) { owns = w })))
          is
          (new-Safe n (view m) k r i w few (ap is_there (ap m.nodes is ∙ fresh))
            (λ z. nonzero (sym is ∙ z)) one s))

  -- The counts of a node are in place, and it is deleted if it is unused.
  pub count_set-Kept :
      (kt : Kont) (a : ℕ) (nd : Node) (c : Counter)
      → n < 2 ^ 16
      → m.nodes a ≡ some nd
      → (r i).held ≡ a
      → a ≢ 0
      → (r i).owns ≡ spare kt
      → SpareTold kt
      → Safe n (with_counts a c.internal c.external (view m)) k (update r i (only_owns (r i).owns))
      → Kept n i r (count_set kt a nd c m)
  unfolding count_set
  count_set-Kept kt a nd c many at held some_a owns told left =
      let q = only_owns (r i).owns in
      let v = view m in
      let v' = with_counts a c.internal c.external v in
      let is : role (resume kt) ≡ q = role-resume kt ∙ ap only_owns (sym owns) in
      let (there, some_rank, _) = held_ranked a held some_a in
      let other : (p : ℕ) → update v.alive a false p ≡ true → (a == p) ≡ false = λ p l.
        elim (Bool-cases (a == p)) [ inl e ↦ cc (update-eq v.alive a p false e) | inr e ↦ e ] in
      if-Kept n i r (is_unused c) (destroy a m, resume kt)
        (set_node a (record nd { count = c }) m, resume kt)
        (λ e.
          let gone =
            delete-Safe n v' k (update r i q) a many there some_rank
              (update-same v.internal a c.internal ∙ ground (arith, e))
              (update-same v.external a c.external ∙ ground (arith, e)) left in
          let back =
            forgotten-Safe n (without a v') k (update r i q) v.next v.internal v.external
              (λ p l. refl) (λ p l. sym (update-ne v.internal a p c.internal (other p l)))
              (λ p l. sym (update-ne v.external a p c.external (other p l))) gone in
          kept n i r (destroy a m) (resume kt) k (view (record m { nodes = update m.nodes a none }))
            q refl is (Told-resume kt told) (view-without-Safe n m k (update r i q) a back))
        (λ e.
          kept n i r (set_node a (record nd { count = c }) m) (resume kt) k v' q
            (view_counts m a nd (record nd { count = c }) at refl) is (Told-resume kt told) left)
