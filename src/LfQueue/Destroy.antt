-- ===== src/LfQueue/Destroy.antt =====
-- `~LFQueue()` on a queue that no thread uses any more.
use uring_fiber.Prelude.{
  false, ℕ, zero, suc, ◌<◌, ◌≡◌, ◌≢◌, refl, sym, ap, ◌∙◌, Option, none, some, List, [], ◌∷◌, length,
  update, ◌==◌, if◌then◌else◌, arith,
}
use uring_fiber.LfQueue.Packed.{get_ptr, get_ptr-pack}
use uring_fiber.LfQueue.Node.{Node, Memory}
use uring_fiber.LfQueue.Chain.{Cells, values, Apart, AtRest}
use uring_fiber.LfQueue.Machine.{Choice, Pc, pop_first, popped, alone}
use uring_fiber.LfQueue.Pop.{pop-takes-oldest}
use uring_fiber.LfQueue.Fifo.{pop-null}

-- What a call of `pop` that is over has returned.
abbrev result_of : Pc → ℕ
result_of (popped res) = res
result_of _ = 0

abbrev also_deletes : ℕ → Option (Memory × List ℕ) → Option (Memory × List ℕ)
also_deletes x none = none
also_deletes x (some (m, xs)) = some (m, x ∷ xs)

-- The test of the loop, on what `pop` has returned; the temporary `unique_ptr` deletes its object.
unfoldable pub after_pop : Memory × Pc → Option (Memory × List ℕ) → Option (Memory × List ℕ)
after_pop (m, p) rest = if result_of p == 0 then some (m, []) else also_deletes (result_of p) rest

-- `while (pop());` for at most `n` calls: the objects that it deletes.
unfoldable pub pop_all : ℕ → Choice → Memory → Option (Memory × List ℕ)
unfolding after_pop
pop_all zero c m = none
pop_all (suc n) c m = let r = alone 12 c (m, pop_first) in after_pop r (pop_all n c r.0)

-- `delete GET_PTR(head_counted_node);`
unfoldable pub delete_head : Memory → Memory
unfolding get_ptr
delete_head m = record m { nodes = update m.nodes (get_ptr m.head) none }

abbrev then_delete : Option (Memory × List ℕ) → Option (Memory × List ℕ)
then_delete none = none
then_delete (some (m, xs)) = some (delete_head m, xs)

unfoldable pub destroy_queue : ℕ → Choice → Memory → Option (Memory × List ℕ)
unfolding pop_all
destroy_queue n c m = then_delete (pop_all n c m)

abbrev pub Freed : (ℕ → Option Node) → Cells → Type 0
Freed nodes [] = Unit {0}
Freed nodes ((p, x) ∷ cs) = (nodes p ≡ none) × Freed nodes cs

Freed-update :
    (nodes : ℕ → Option Node) (cs : Cells) (q : ℕ) → Freed nodes cs → Freed (update nodes q none) cs
Freed-update nodes [] q f = tt
Freed-update nodes ((p, x) ∷ cs) q f = (ground (arith, f.0), Freed-update nodes cs q f.1)

-- The loop after a call of `pop` that has ended with `r`.
pop_all-after :
    (n : ℕ) (c : Choice) (m : Memory) (r : Memory × Pc)
    → alone 12 c (m, pop_first) ≡ r
    → pop_all (suc n) c m ≡ after_pop r (pop_all n c r.0)
unfolding pop_all
pop_all-after n c m r e = ap (λ r. after_pop r (pop_all n c r.0)) e

pop_all-AtRest :
    (n : ℕ) (c : Choice) (m : Memory) (cs : Cells) (t : ℕ)
    → AtRest m cs t
    → length cs < n
    → (m' : Memory) × (pop_all n c m ≡ some (m', values cs))
      × AtRest m' [] t
      × Freed m'.nodes cs
      × ((q : ℕ) → Apart q cs → m'.nodes q ≡ m.nodes q)
unfolding after_pop
pop_all-AtRest zero c m cs t rest enough = absurd (omega arith)
pop_all-AtRest (suc n) c m [] t rest enough =
    (m, pop_all-after n c m (m, popped 0) (pop-null c m t rest), rest, tt, λ q a. refl)
pop_all-AtRest (suc n) c m ((p, x) ∷ cs) t rest enough =
    let (m1, ends, rest1, gone, others, _) = pop-takes-oldest c m p x cs t rest in
    let (m2, loop, rest2, freed, same) = pop_all-AtRest n c m1 cs t rest1 (omega arith) in
    let some_x : (x == 0) ≡ false = ground (arith, rest.chain.1) in
    (
      m2,
      pop_all-after n c m (m1, popped x) ends ∙ rw (some_x, loop) refl,
      rest2,
      (same p rest.distinct.0 ∙ gone, freed),
      λ q a. same q a.1 ∙ others q (λ e. a.0 (sym e)),
    )

-- The destructor of a queue at rest that holds the objects of `cs`, oldest first, with more calls of `pop`
-- allowed than it holds objects: its loop ends, it deletes each of the objects once, oldest first, and all
-- nodes of the queue, and no other node.
pub destroy-frees :
    (n : ℕ) (c : Choice) (m : Memory) (cs : Cells) (t : ℕ)
    → AtRest m cs t
    → length cs < n
    → (m' : Memory) × (destroy_queue n c m ≡ some (m', values cs))
      × Freed m'.nodes cs
      × (m'.nodes t ≡ none)
      × ((q : ℕ) → Apart q cs → q ≢ t → m'.nodes q ≡ m.nodes q)
unfolding destroy_queue delete_head
destroy-frees n c m cs t rest enough =
    let (m1, loop, rest1, freed, same) = pop_all-AtRest n c m cs t rest enough in
    let head : get_ptr m1.head ≡ t = ap get_ptr rest1.head ∙ get_ptr-pack t 1 rest1.address.1 in
    (
      delete_head m1,
      ap then_delete loop,
      Freed-update m1.nodes cs (get_ptr m1.head) freed,
      ground (arith, head),
      λ q a ne. ground (arith, head, ne) ∙ same q a,
    )
