-- ===== src/LfQueue/Safe/Example.antt =====
-- A run of three threads on one `LFQueue`, two of which meet at its first node.
use uring_fiber.Prelude.{
  ℕ, zero, suc, Bool, true, Option, ◌&&◌, ◌<◌, ◌^◌, ◌≡◌, ◌≢◌, refl, false, none, some, arith,
}
use uring_fiber.LfQueue.Packed.{set_ptr, get_ptr, set_count, get_count}
use uring_fiber.LfQueue.Node.{Node, new_node, released, external_freed}
use uring_fiber.LfQueue.Machine.{
  push_new, pop_first, pushed, popped, counted_up, link_to, tail_set, count_set, step, make,
}
use uring_fiber.LfQueue.Threads.{Threads, begin, after_step}
use uring_fiber.LfQueue.Loss.{at, goes, calls}
use uring_fiber.LfQueue.Safe.Faults.{Run, starts, then_turn, push_called, pop_called, has_access}

abbrev is_free : Option Node → Bool
is_free none = true
is_free (some n) = false

is_free_lem : (o : Option Node) → is_free o ≡ true → o ≡ none
is_free_lem none e = refl
is_free_lem (some n) e = cc e

both : (a b : Bool) → a && b ≡ true → (a ≡ true) × (b ≡ true)
both a b e = (ground (arith, e), ground (arith, e))

-- Does `new` find nothing at `a` in each of `n` accesses of thread `i`?
abbrev clear : ℕ → ℕ → ℕ → Threads → Bool
clear zero i a s = true
clear (suc n) i a s =
    is_free (s.memory.nodes a) && clear n i a (after_step s i (step (at a) s.memory (s.pc i)))

goes-Run :
    (n i a : ℕ) {s t : Threads}
    → i < 3
    → a ≢ 0
    → a < 2 ^ 48
    → clear n i a t ≡ true
    → Run 3 s t
    → Run 3 s (goes n i a t)
goes-Run zero i a few some_a fits e r = r
goes-Run (suc n) i a {s} {t} few some_a fits e r =
    let (first, rest) =
      both (is_free (t.memory.nodes a))
        (clear n i a (after_step t i (step (at a) t.memory (t.pc i)))) e in
    goes-Run n i a few some_a fits rest
      (then_turn r (has_access i (at a) few (is_free_lem (t.memory.nodes a) first) some_a fits))

-- Thread 1 pushes 7 while thread 0 has counted itself in at the first node to push 8, and thread 2 pops.
abbrev pub worked : Threads
worked = goes 12 2 80 (
    calls 2 pop_first (
      goes 9 1 64 (
        goes 1 1 48 (
          calls 1 (push_new 7)
            (goes 2 0 64 (goes 1 0 32 (calls 0 (push_new 8) (begin (at 16)))))))))

worked_ends : (worked.pc 2 ≡ popped 7) × (worked.pc 1 ≡ pushed)
unfolding step make set_ptr get_ptr set_count get_count counted_up link_to tail_set count_set
    new_node released external_freed
worked_ends = (refl, refl)

pub worked-Run : Run 3 (begin (at 16)) worked
unfolding step make set_ptr get_ptr set_count get_count counted_up link_to tail_set count_set
    new_node released external_freed
worked-Run = goes-Run 12 2 80 (omega arith) (omega arith) (omega arith) refl (
    then_turn
      (goes-Run 9 1 64 (omega arith) (omega arith) (omega arith) refl (
        goes-Run 1 1 48 (omega arith) (omega arith) (omega arith) refl (
          then_turn
            (goes-Run 2 0 64 (omega arith) (omega arith) (omega arith) refl (
              goes-Run 1 0 32 (omega arith) (omega arith) (omega arith) refl
                (then_turn starts (push_called 0 8 (omega arith) refl))))
            (push_called 1 7 (omega arith) refl))))
      (pop_called 2 (omega arith) refl))
