-- ===== src/LfQueue/Loss.antt =====
-- A `push` that is overtaken: its object can be stored in a node that `pop` has already emptied.
use uring_fiber.Prelude.{
  ℕ, false, subst, Option, none, some, ap, ◌⊎◌, ==_iff, zero, suc, ◌≡◌, ◌≢◌, ◌==◌, Bool-cases, inl,
  inr, refl, sym, ◌∙◌, update, arith,
}
use uring_fiber.LfQueue.Packed.{set_ptr, get_ptr, set_count, get_count}
use uring_fiber.LfQueue.Chain.{hollow}
use uring_fiber.LfQueue.Node.{Node, new_node, released, external_freed}
use uring_fiber.LfQueue.Machine.{
  Choice, Pc, push_new, pop_first, pushed, popped, counted_up, link_to, tail_set, count_set, step,
  make,
}
use uring_fiber.LfQueue.Threads.{
  Threads, begin, hand, item_of, Place, in_node, with_thread, owned, after_step, calls_push,
  calls_pop, access, Reach, here, later,
}

-- The node's address, in memory that reads as zero.
abbrev pub at : ℕ → Choice
at a = record { address = a; garbage = 0; local = 0; spurious = false }

-- `n` accesses of thread `i`.
abbrev pub goes : ℕ → ℕ → ℕ → Threads → Threads
goes zero i a s = s
goes (suc n) i a s = goes n i a (after_step s i (step (at a) s.memory (s.pc i)))

goes-Reach : (n i a : ℕ) {s t : Threads} → Reach s t → Reach s (goes n i a t)
goes-Reach zero i a r = r
goes-Reach (suc n) i a {s} {t} r = goes-Reach n i a (later r (access i (at a) refl))

abbrev pub calls : ℕ → Pc → Threads → Threads
calls i p s = record s { pc = update s.pc i p }

-- Thread 2, which pushes `w`, has counted itself in at the one node and stands before the exchange of
-- `data`.
abbrev slow : ℕ → Threads
slow w = goes 3 2 48 (calls 2 (push_new w) (begin (at 16)))

-- Thread 1 pushes `v` there, and thread 3 pops it.
abbrev taken : ℕ → ℕ → Threads
taken v w = goes 12 3 0 (calls 3 pop_first (goes 10 1 32 (calls 1 (push_new v) (slow w))))

-- Thread 2 goes on to its end, and thread 4 pops.
abbrev over : ℕ → ℕ → Threads
over v w = goes 2 4 0 (calls 4 pop_first (goes 7 2 0 (taken v w)))

nobody_yet : (v : ℕ) (l : Place) → v ≢ 0 → owned (begin (at 16)) l ≢ v
unfolding make new_node
nobody_yet v (in_node p) ne e = ground (arith, ne, e)
nobody_yet v (with_thread i) ne e = ne (sym e)

only_w : (v w : ℕ) (l : Place) → v ≢ 0 → v ≢ w → owned (slow w) l ≢ v
unfolding step make set_ptr get_ptr set_count get_count counted_up link_to new_node
only_w v w (in_node p) ne other e = ground (arith, ne, other, e)
only_w v w (with_thread i) ne other e = ground (arith, ne, other, e)

over-Reach : (v w : ℕ) → v ≢ 0 → w ≢ 0 → v ≢ w → Reach (begin (at 16)) (over v w)
unfolding step make set_ptr get_ptr set_count get_count counted_up link_to tail_set count_set
    new_node released external_freed
over-Reach v w some_v some_w other =
    let at_data =
      goes-Reach 3 2 48
        (later here (calls_push 2 w refl (λ l e. absurd (nobody_yet w l some_w e)) some_w)) in
    let pushed_v =
      goes-Reach 10 1 32 (
        later at_data (calls_push 1 v refl (λ l e. absurd (only_w v w l some_v other e)) some_v)) in
    let popped_v = goes-Reach 12 3 0 (later pushed_v (calls_pop 3 refl)) in
    goes-Reach 2 4 0 (later (goes-Reach 7 2 0 popped_v) (calls_pop 4 refl))

-- The node at 16 once its `next` is set.
abbrev emptied : (item internal external : ℕ) → Option Node
emptied x n e =
    some record { item = x; count = record { internal = n; external = e }; next = link_to 0 32 }

-- All that was written to the heap of nodes, in its order.
abbrev heap_over : ℕ → ℕ → ℕ → Option Node
heap_over v w =
    let made =
      update (update (update (λ _. none) 16 (some hollow)) 48 (some hollow)) 32 (some hollow) in
    let pushed_v =
      update (update (update made 16 (some (record hollow { item = v }))) 16 (emptied v 0 2)) 16
        (emptied v 1 1) in
    let popped_v = update (update pushed_v 16 (emptied 0 1 1)) 16 (emptied 0 1 0) in
    update (update (update popped_v 16 (emptied w 1 0)) 48 none) 16 none

nodes_over : (v w : ℕ) → (over v w).memory.nodes ≡ heap_over v w
unfolding step make set_ptr get_ptr set_count get_count counted_up link_to tail_set count_set
    new_node released external_freed
nodes_over v w = refl

heap_empty : (v w p : ℕ) → item_of (heap_over v w p) ≡ 0
heap_empty v w p = elim (Bool-cases (16 == p)) [
  | inl e ↦ rw e refl
  | inr e ↦ elim (Bool-cases (48 == p)) [
    | inl f ↦ rw (e, f) refl
    | inr f ↦ elim (Bool-cases (32 == p)) [ inl g ↦ rw (e, f, g) refl | inr g ↦ rw (e, f, g) refl ]
  ]
]

goes-others : (n i a j : ℕ) (s : Threads) → (i == j) ≡ false → (goes n i a s).pc j ≡ s.pc j
goes-others zero i a j s ne = refl
goes-others (suc n) i a j s ne =
    goes-others n i a j (after_step s i (step (at a) s.memory (s.pc i))) ne ∙ rw ne refl

called-others :
    (n i a j : ℕ) (p : Pc) (s : Threads)
    → (i == j) ≡ false
    → (goes n i a (calls i p s)).pc j ≡ s.pc j
called-others n i a j p s ne = goes-others n i a j (calls i p s) ne ∙ rw ne refl

-- What a thread ends with: thread 3 has `v`, and no other has anything.
hand-over : (v w i : ℕ) → (hand ((over v w).pc i) ≡ 0) ⊎ (hand ((over v w).pc i) ≡ v)
unfolding step make set_ptr get_ptr set_count get_count counted_up link_to tail_set count_set
    new_node released external_freed
hand-over v w i = elim (Bool-cases (4 == i)) [
  | inl e ↦ subst (λ j. HandIs j) ((==_iff 4 i).0 e) (inl refl)
  | inr e ↦ elim (Bool-cases (2 == i)) [
    | inl f ↦ subst (λ j. HandIs j) ((==_iff 2 i).0 f) (inl refl)
    | inr f ↦ elim (Bool-cases (3 == i)) [
      | inl g ↦ subst (λ j. HandIs j) ((==_iff 3 i).0 g) (inr refl)
      | inr g ↦ elim (Bool-cases (1 == i)) [
        | inl h ↦ subst (λ j. HandIs j) ((==_iff 1 i).0 h) (inl refl)
        | inr h ↦ inl (
            ap hand (
              called-others 2 4 0 i pop_first (goes 7 2 0 (taken v w)) e
              ∙ goes-others 7 2 0 i (taken v w) f
              ∙ called-others 12 3 0 i pop_first (goes 10 1 32 (calls 1 (push_new v) (slow w))) g
              ∙ called-others 10 1 32 i (push_new v) (slow w) h
              ∙ called-others 3 2 48 i (push_new w) (begin (at 16)) f))
      ]
    ]
  ]
]
  where
    HandIs : ℕ → Type 0
    HandIs j = (hand ((over v w).pc j) ≡ 0) ⊎ (hand ((over v w).pc j) ≡ v)

none_has : (v w : ℕ) (l : Place) → w ≢ 0 → v ≢ w → owned (over v w) l ≢ w
none_has v w (in_node p) some_w other e =
    some_w (sym e ∙ ap (λ (f : ℕ → Option Node). item_of (f p)) (nodes_over v w) ∙ heap_empty v w p)
none_has v w (with_thread i) some_w other e = elim (hand-over v w i) [
  | inl z ↦ some_w (sym e ∙ z)
  | inr z ↦ other (sym z ∙ e)
]

-- Whatever two different objects `v` and `w` are: from a new queue, with memory that reads as zero, threads
-- 1 to 4 can reach a state in which the calls that push `v` and `w` have both returned, one `pop` has
-- returned `v`, and a later one the empty pointer though `size` is 1; and `w` is nowhere, neither in a node
-- nor with a thread.
pub push-loses :
    (v w : ℕ)
    → v ≢ 0
    → w ≢ 0
    → v ≢ w
    → (s : Threads) × Reach (begin (at 16)) s
      × (s.pc 1 ≡ pushed)
      × (s.pc 2 ≡ pushed)
      × (s.pc 3 ≡ popped v)
      × (s.pc 4 ≡ popped 0)
      × (s.memory.size ≡ 1)
      × ((l : Place) → owned s l ≢ w)
unfolding step make set_ptr get_ptr set_count get_count counted_up link_to tail_set count_set
    new_node released external_freed
push-loses v w some_v some_w other = (
  over v w,
  over-Reach v w some_v some_w other,
  refl,
  refl,
  refl,
  refl,
  refl,
  λ l e. none_has v w l some_w other e,
)
