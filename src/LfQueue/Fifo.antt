-- ===== src/LfQueue/Fifo.antt =====
-- Calls of `LFQueue` one after another behave as those of a first-in-first-out list.
use uring_fiber.Prelude.{
  ℕ, zero, suc, ◌<◌, ◌≡◌, refl, sym, ap, ap₂, subst, ◌∙◌, false, List, [], ◌∷◌, ◌++◌, map-append,
  arith,
}
use uring_fiber.LfQueue.Node.{Memory, new_node}
use uring_fiber.LfQueue.Chain.{Cells, values, IsAddress, AtRest}
use uring_fiber.LfQueue.Words.{link_to_lem}
use uring_fiber.LfQueue.Machine.{Choice, Pc, push_new, pop_first, pushed, popped, step, alone, make}
use uring_fiber.LfQueue.Push.{IsFresh, push-appends}
use uring_fiber.LfQueue.Pop.{pop-takes-oldest, pop-empty}

-- The queue as its users see it: a list of items, oldest first; 0 is the empty pointer.
abbrev pub fifo_push : List ℕ → ℕ → List ℕ
fifo_push xs v = xs ++ v ∷ []

abbrev pub fifo_front : List ℕ → ℕ
fifo_front [] = 0
fifo_front (x ∷ xs) = x

abbrev pub fifo_rest : List ℕ → List ℕ
fifo_rest [] = []
fifo_rest (x ∷ xs) = xs

-- `m` is the memory of a queue at rest with the items `xs`.
pub Refines : Memory → List ℕ → Type 0
Refines m xs = (cs : Cells) × (t : ℕ) × AtRest m cs t × (values cs ≡ xs)

-- The constructor makes an empty queue, if the memory of its node reads as zero.
pub make-Refines : (c : Choice) → IsAddress c.address → c.garbage ≡ 0 → Refines (make c) []
unfolding Refines make new_node
make-Refines c a z =
    let link = link_to_lem c.local c.address a.1 in
    (
      [],
      c.address,
      record {
        head = link;
        tail = link;
        chain = tt;
        last = ground (arith, z);
        address = a;
        apart = tt;
        distinct = tt;
        size = refl;
      },
      refl,
    )

push-Refines :
    (c : Choice) (m : Memory) (xs : List ℕ) (v : ℕ)
    → IsFresh c m
    → c.spurious ≡ false
    → 0 < v
    → Refines m xs
    → (m' : Memory) × (alone 10 c (m, push_new v) ≡ (m', pushed)) × Refines m' (fifo_push xs v)
unfolding Refines
push-Refines c m xs v fresh s positive (cs, t, rest, e) =
    let (m', run, rest', _) = push-appends c m cs t v fresh rest s positive in
    (
      m',
      run,
      (
        cs ++ (t, v) ∷ [],
        c.address,
        rest',
        map-append (λ (c : ℕ × ℕ). c.1) cs ((t, v) ∷ []) ∙ ap (λ (l : List ℕ). l ++ v ∷ []) e,
      ),
    )

alone-popped : (n : ℕ) (c : Choice) (m : Memory) (x : ℕ) → alone n c (m, popped x) ≡ (m, popped x)
unfolding alone step
alone-popped zero c m x = refl
alone-popped (suc n) c m x = alone-popped n c m x

twelve :
    (c : Choice) (m : Memory) → alone 12 c (m, pop_first) ≡ alone 10 c (alone 2 c (m, pop_first))
unfolding alone
twelve c m = refl

-- A call of `pop` on an empty queue, after twelve accesses.
pub pop-null :
    (c : Choice) (m : Memory) (t : ℕ) → AtRest m [] t → alone 12 c (m, pop_first) ≡ (m, popped 0)
pop-null c m t rest = twelve c m ∙ ap (alone 10 c) (pop-empty c m t rest) ∙ alone-popped 10 c m 0

pop-Refines :
    (c : Choice) (m : Memory) (xs : List ℕ)
    → Refines m xs
    → (m' : Memory) × (alone 12 c (m, pop_first) ≡ (m', popped (fifo_front xs)))
      × Refines m' (fifo_rest xs)
unfolding Refines
pop-Refines c m xs ([], t, rest, e) = rw (← e) (m, pop-null c m t rest, ([], t, rest, refl))
pop-Refines c m xs ((p, x) ∷ cs, t, rest, e) =
    let (m', run, rest', _, _, _) = pop-takes-oldest c m p x cs t rest in
    rw (← e) (m', run, (cs, t, rest', refl))

-- The calls of one thread, or of several that take turns.
pub data Call : Type 0 where
  pushes : (v : ℕ) → Choice → Call
  pops : Choice → Call

-- The memory after a call; `push` has returned after ten accesses, `pop` after at most twelve.
unfoldable pub perform : Memory → Call → Memory × Pc
perform m (pushes v c) = alone 10 c (m, push_new v)
perform m (pops c) = alone 12 c (m, pop_first)

-- Where the calls of a history end, in their order.
unfoldable pub ends : Memory → List Call → List Pc
unfolding perform
ends m [] = []
ends m (k ∷ ks) = (perform m k).1 ∷ ends (perform m k).0 ks

unfoldable pub final : Memory → List Call → Memory
unfolding perform
final m [] = m
final m (k ∷ ks) = final (perform m k).0 ks

-- The same calls on a list.
abbrev pub fifo_ends : List ℕ → List Call → List Pc
fifo_ends xs [] = []
fifo_ends xs (pushes v c ∷ ks) = pushed ∷ fifo_ends (fifo_push xs v) ks
fifo_ends xs (pops c ∷ ks) = popped (fifo_front xs) ∷ fifo_ends (fifo_rest xs) ks

abbrev pub fifo_final : List ℕ → List Call → List ℕ
fifo_final xs [] = xs
fifo_final xs (pushes v c ∷ ks) = fifo_final (fifo_push xs v) ks
fifo_final xs (pops c ∷ ks) = fifo_final (fifo_rest xs) ks

-- Each `push` gets a fresh node whose memory reads as zero, no weak exchange fails for no reason, and no
-- null pointer is pushed.
abbrev pub Served : Memory → List Call → Type 0
Served m [] = Unit {0}
Served m (pushes v c ∷ ks) =
    IsFresh c m × (c.spurious ≡ false) × (0 < v) × Served (perform m (pushes v c)).0 ks
Served m (pops c ∷ ks) = Served (perform m (pops c)).0 ks

-- Any history of calls that do not overlap, on a queue at rest, where each `push` gets a fresh node whose
-- memory reads as zero and an object that is not null, and no weak exchange fails for no reason, ends as the
-- same calls on a first-in-first-out list: every call returns, every `pop` with the item that the list gives, and the queue is
-- at rest with the items that the list holds.
pub ends-fifo :
    (m : Memory) (xs : List ℕ) (ks : List Call)
    → Refines m xs
    → Served m ks
    → (ends m ks ≡ fifo_ends xs ks) × Refines (final m ks) (fifo_final xs ks)
unfolding ends final
ends-fifo m xs [] r s = (refl, r)
ends-fifo m xs (pushes v c ∷ ks) r s =
    let (m', run, r') = push-Refines c m xs v s.0 s.1 s.2 r in
    let mem : (perform m (pushes v c)).0 ≡ m' = ap (λ (p : Memory × Pc). p.0) run in
    let pc : (perform m (pushes v c)).1 ≡ pushed = ap (λ (p : Memory × Pc). p.1) run in
    let (es, rs) =
      ends-fifo (perform m (pushes v c)).0 (fifo_push xs v) ks
        (subst (λ n. Refines n (fifo_push xs v)) (sym mem) r') s.3 in
    (ap₂ ◌∷◌ pc es, rs)
ends-fifo m xs (pops c ∷ ks) r s =
    let (m', run, r') = pop-Refines c m xs r in
    let mem : (perform m (pops c)).0 ≡ m' = ap (λ (p : Memory × Pc). p.0) run in
    let pc : (perform m (pops c)).1 ≡ popped (fifo_front xs) = ap (λ (p : Memory × Pc). p.1) run in
    let (es, rs) =
      ends-fifo (perform m (pops c)).0 (fifo_rest xs) ks
        (subst (λ n. Refines n (fifo_rest xs)) (sym mem) r') s in
    (ap₂ ◌∷◌ pc es, rs)
