-- ===== src/LfQueue/Ownership.antt =====
-- No object that is pushed ever has two owners, in whatever order the threads run.
use uring_fiber.Prelude.{
  ◌⊎◌, ℕ, ◌≡◌, ◌≢◌, refl, ap, sym, ◌∙◌, subst, inl, inr, update, update-same, ◌==◌, ==_iff,
  if◌then◌else◌, Bool-cases, arith,
}
use uring_fiber.LfQueue.Node.{Memory, new_node}
use uring_fiber.LfQueue.Machine.{Choice, Pc, push_new, pop_first, step, make}
use uring_fiber.LfQueue.Threads.{
  Threads, begin, hand, item_of, Place, in_node, with_thread, owned, after_step, Step, calls_push,
  calls_pop, access, Reach, here, later,
}
use uring_fiber.LfQueue.Transfer.{Kept, Transfer, stays, gives, takes, step-Transfer}

-- An object that is not null is in one place at most.
abbrev pub OneOwner : Threads → Type 0
OneOwner s = (l l' : Place) → owned s l ≢ 0 → owned s l ≡ owned s l' → l ≡ l'

-- Each place has what another had, or nothing, and no two what the same one had.
along-OneOwner :
    (s t : Threads) (σ : Place → Place)
    → ((l l' : Place) → σ l ≡ σ l' → l ≡ l')
    → ((l : Place) → Kept (owned t l) (owned s (σ l)))
    → OneOwner s
    → OneOwner t
along-OneOwner s t σ inj kept one l l' some_here same = elim (kept l) [
  | inl e ↦ absurd (some_here e)
  | inr e ↦ elim (kept l') [
    | inl e' ↦ absurd (some_here (same ∙ e'))
    | inr e' ↦ inj l l' (one (σ l) (σ l') (λ z. some_here (e ∙ z)) (sym e ∙ same ∙ e'))
  ]
]

-- The node at `a` and the thread `i` change places.
abbrev swap : ℕ → ℕ → Place → Place
swap a i (in_node q) = if a == q then with_thread i else in_node q
swap a i (with_thread j) = if i == j then in_node a else with_thread j

swap-swap : (a i : ℕ) (l : Place) → swap a i (swap a i l) ≡ l
swap-swap a i (in_node q) = ground arith
swap-swap a i (with_thread j) = ground arith

swap_injective : (a i : ℕ) (l l' : Place) → swap a i l ≡ swap a i l' → l ≡ l'
swap_injective a i l l' e = sym (swap-swap a i l) ∙ ap (swap a i) e ∙ swap-swap a i l'

hand_of_update :
    (pc : ℕ → Pc) (i j : ℕ) (p : Pc)
    → Kept (hand p) (hand (pc i))
    → Kept (hand (update pc i p j)) (hand (pc j))
hand_of_update pc i j p k = elim (Bool-cases (i == j)) [
  | inl e ↦ rw e (subst (λ b. Kept (hand p) (hand (pc b))) ((==_iff i j).0 e) k)
  | inr e ↦ rw e (inr refl)
]

-- What the thread and the node at `a` have is exchanged, or dropped.
swapped :
    (s : Threads) (i a : ℕ) (r : Memory × Pc)
    → Kept (hand r.1) (item_of (s.memory.nodes a))
    → Kept (item_of (r.0.nodes a)) (hand (s.pc i))
    → ((q : ℕ) → q ≢ a → item_of (r.0.nodes q) ≡ item_of (s.memory.nodes q))
    → (l : Place) → Kept (owned (after_step s i r) l) (owned s (swap a i l))
swapped s i a r taken given others (in_node q) = elim (Bool-cases (a == q)) [
  | inl e ↦
      rw e (subst (λ b. Kept (item_of (r.0.nodes b)) (hand (s.pc i))) ((==_iff a q).0 e) given)
  | inr e ↦ rw e (inr (others q (λ z. cc ((==_iff a q).1 (sym z)))))
]
swapped s i a r taken given others (with_thread j) = elim (Bool-cases (i == j)) [
  | inl e ↦ rw e taken
  | inr e ↦ rw e (inr refl)
]

moved-OneOwner :
    (s : Threads) (i : ℕ) (r : Memory × Pc)
    → Transfer s.memory (s.pc i) r
    → OneOwner s
    → OneOwner (after_step s i r)
moved-OneOwner s i r (stays kept items) one =
    along-OneOwner s (after_step s i r) (λ l. l) (λ l l' e. e) same one
  where
    same : (l : Place) → Kept (owned (after_step s i r) l) (owned s l)
    same (in_node q) = items q
    same (with_thread j) = hand_of_update s.pc i j r.1 kept
moved-OneOwner s i r (gives a none_left given others) one =
    along-OneOwner s (after_step s i r) (swap a i) (swap_injective a i)
      (swapped s i a r (inl none_left) (inr given) others) one
moved-OneOwner s i r (takes a taken emptied others) one =
    along-OneOwner s (after_step s i r) (swap a i) (swap_injective a i)
      (swapped s i a r (inr taken) (inl emptied) others) one

-- A thread takes over an object that nobody else has.
pushing-OneOwner :
    (s : Threads) (i v : ℕ)
    → ((l : Place) → owned s l ≡ v → l ≡ with_thread i)
    → OneOwner s
    → OneOwner (record s { pc = update s.pc i (push_new v) })
pushing-OneOwner s i v fresh one = go
  where
    t : Threads
    t = record s { pc = update s.pc i (push_new v) }

    known : (l : Place) → (l ≡ with_thread i) ⊎ (owned t l ≡ owned s l)
    known (in_node q) = inr refl
    known (with_thread j) = elim (Bool-cases (i == j)) [
      | inl e ↦ inl (ap with_thread (sym ((==_iff i j).0 e)))
      | inr e ↦ inr (rw e refl)
    ]

    mine : owned t (with_thread i) ≡ v
    mine = ap hand (update-same s.pc i (push_new v))

    go : (l l' : Place) → owned t l ≢ 0 → owned t l ≡ owned t l' → l ≡ l'
    go l l' some_here same = elim (known l) [
      | inl e ↦ elim (known l') [
        | inl e' ↦ e ∙ sym e'
        | inr e' ↦ e ∙ sym (fresh l' (sym e' ∙ sym same ∙ ap (owned t) e ∙ mine))
      ]
      | inr e ↦ elim (known l') [
        | inl e' ↦ fresh l (sym e ∙ same ∙ ap (owned t) e' ∙ mine) ∙ sym e'
        | inr e' ↦ one l l' (λ z. some_here (e ∙ z)) (sym e ∙ same ∙ e')
      ]
    ]

pub Step-OneOwner : {s t : Threads} → Step s t → OneOwner s → OneOwner t
Step-OneOwner {s} (calls_push i v out fresh some_v) one = pushing-OneOwner s i v fresh one
Step-OneOwner {s} (calls_pop i out) one =
    moved-OneOwner s i (s.memory, pop_first) (stays (inl refl) (λ q. inr refl)) one
Step-OneOwner {s} (access i c g) one =
    moved-OneOwner s i (step c s.memory (s.pc i)) (step-Transfer c s.memory (s.pc i) g) one

begin-OneOwner : (c : Choice) → c.garbage ≡ 0 → OneOwner (begin c)
unfolding make new_node
begin-OneOwner c g (with_thread i) l' some_here same = absurd (some_here refl)
begin-OneOwner c g (in_node p) l' some_here same =
    absurd (some_here (elim (Bool-cases (c.address == p)) [ inl e ↦ rw e g | inr e ↦ rw e refl ]))

-- Let any number of threads run `push` and `pop` of a new queue, their accesses interleaved in any order,
-- where new memory reads as zero and each `push` takes over an object that its caller alone owns. Then in
-- every state that is reached an object is in one place at most: a node of the queue, or the hand of a
-- thread that pushes it or has popped it. So no object is popped twice.
pub one_owner : (c : Choice) {s : Threads} → c.garbage ≡ 0 → Reach (begin c) s → OneOwner s
one_owner c g here = begin-OneOwner c g
one_owner c g (later r st) = Step-OneOwner st (one_owner c g r)
