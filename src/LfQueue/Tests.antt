-- ===== src/LfQueue/Tests.antt =====
-- Runs of `LFQueue` on concrete memories.
use uring_fiber.Prelude.{ℕ, ◌≡◌, ◌≢◌, refl, false, none, some, List, [], ◌∷◌, update, arith}
use uring_fiber.LfQueue.Packed.{set_ptr, get_ptr, set_count, get_count, pack}
use uring_fiber.LfQueue.Node.{Memory, new_node, external_freed}
use uring_fiber.LfQueue.Chain.{hollow, full, Apart, AtRest}
use uring_fiber.LfQueue.Machine.{
  Choice, push_new, pop_first, pushed, popped, fault, counted_up, link_to, tail_set, count_set,
  step, alone, make,
}
use uring_fiber.LfQueue.Fifo.{
  Refines, make-Refines, Call, pushes, pops, perform, ends, final, Served, ends-fifo,
}
use uring_fiber.LfQueue.Threads.{
  Threads, begin, after_step, Place, in_node, with_thread, owned, Reach, here, later, calls_push,
  calls_pop, access,
}
use uring_fiber.LfQueue.Ownership.{OneOwner, one_owner}
use uring_fiber.LfQueue.Garbage.{NoHole}
use uring_fiber.LfQueue.Loss.{at, push-loses}
use uring_fiber.LfQueue.Safe.Example.{worked, worked-Run}
use uring_fiber.LfQueue.Safe.Faults.{never_faults}
use uring_fiber.LfQueue.Destroy.{Freed, destroy_queue, destroy-frees}

abbrev at_address : ℕ → Choice
at_address a = record { address = a; garbage = 0; local = 99; spurious = false }

abbrev dirty : Choice
dirty = record { address = 32; garbage = 5; local = 0; spurious = false }

-- One empty queue at rest.
abbrev empty_memory : Memory
empty_memory = record {
  head = pack 16 1;
  tail = pack 16 1;
  nodes = update (λ _. none) 16 (some hollow);
  size = 0;
  push_count = 0;
  pop_count = 0;
  destruct_count = 0;
}

empty_memory-AtRest : AtRest empty_memory [] 16
empty_memory-AtRest = record {
  head = refl;
  tail = refl;
  chain = tt;
  last = refl;
  address = omega arith;
  apart = tt;
  distinct = tt;
  size = refl;
}

-- A queue at rest that holds 7.
abbrev one_memory : Memory
one_memory = record {
  head = pack 16 1;
  tail = pack 32 1;
  nodes = update (update (λ _. none) 16 (some (full 7 32))) 32 (some hollow);
  size = 1;
  push_count = 1;
  pop_count = 0;
  destruct_count = 0;
}

one_memory-AtRest : AtRest one_memory ((16, 7) ∷ []) 32
one_memory-AtRest = record {
  head = refl;
  tail = refl;
  chain = (refl, omega arith, omega arith, tt);
  last = refl;
  address = omega arith;
  apart = (omega arith, tt);
  distinct = (tt, tt);
  size = refl;
}

abbrev history : List Call
history =
    pushes 7 (at_address 32)
    ∷ pushes 9 (at_address 48)
    ∷ pops (at_address 0)
    ∷ pops (at_address 0)
    ∷ pops (at_address 0)
    ∷ []

history-Served : Served (make (at_address 16)) history
unfolding make perform alone step set_ptr get_ptr set_count get_count counted_up link_to tail_set
    count_set new_node external_freed
history-Served = (
  record { address = omega arith; unused = refl; zeroed = refl },
  refl,
  omega arith,
  (record { address = omega arith; unused = refl; zeroed = refl }, refl, omega arith, tt),
)

ends-fifo_example :
    (ends (make (at_address 16)) history ≡ pushed ∷ pushed ∷ popped 7 ∷ popped 9 ∷ popped 0 ∷ [])
    × Refines (final (make (at_address 16)) history) []
ends-fifo_example =
    ends-fifo (make (at_address 16)) [] history (make-Refines (at_address 16) (omega arith) refl)
      history-Served

-- A queue whose one node was made of memory that reads as 5.
abbrev dirty_memory : Memory
dirty_memory = record empty_memory {
  nodes = update (λ _. none) 16 (some (record hollow { item = 5 }));
}

dirty_memory-NoHole : NoHole dirty_memory
dirty_memory-NoHole p n e z = ground arith

-- Thread 1 is given the object 7 and makes a node; then thread 2 calls `pop`.
abbrev given : Threads
given = record (begin (at_address 16)) { pc = update (λ _. pushed) 1 (push_new 7) }

abbrev stored : Threads
stored = after_step given 1 (step (at_address 32) given.memory (given.pc 1))

abbrev sought : Threads
sought = record stored { pc = update stored.pc 2 pop_first }

nobody_has : (l : Place) → owned (begin (at_address 16)) l ≡ 7 → l ≡ with_thread 1
unfolding make new_node
nobody_has (in_node p) e = ground (arith, e)
nobody_has (with_thread i) e = ground (arith, e)

sought-Reach : Reach (begin (at_address 16)) sought
sought-Reach =
    later
      (later (later here (calls_push 1 7 refl nobody_has (omega arith)))
        (access 1 (at_address 32) refl))
      (calls_pop 2 refl)

one_owner_example : OneOwner sought
one_owner_example = one_owner (at_address 16) refl sought-Reach

push-loses_example :
    (s : Threads) × Reach (begin (at 16)) s
    × (s.pc 1 ≡ pushed)
    × (s.pc 2 ≡ pushed)
    × (s.pc 3 ≡ popped 7)
    × (s.pc 4 ≡ popped 0)
    × (s.memory.size ≡ 1)
    × ((l : Place) → owned s l ≢ 9)
push-loses_example = push-loses 7 9 (omega arith) (omega arith) (omega arith)

destroy-frees_example :
    (m' : Memory) × (destroy_queue 2 (at_address 48) one_memory ≡ some (m', 7 ∷ []))
    × Freed m'.nodes ((16, 7) ∷ [])
    × (m'.nodes 32 ≡ none)
    × ((q : ℕ) → Apart q ((16, 7) ∷ []) → q ≢ 32 → m'.nodes q ≡ one_memory.nodes q)
destroy-frees_example =
    destroy-frees 2 (at_address 48) one_memory ((16, 7) ∷ []) 32 one_memory-AtRest (omega arith)

never_faults_example : worked.pc 2 ≢ fault
never_faults_example =
    never_faults 3 (at 16) (omega arith) (omega arith) (omega arith) worked worked-Run 2
