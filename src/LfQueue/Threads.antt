-- ===== src/LfQueue/Threads.antt =====
-- Any number of threads that call `push` and `pop` of one queue, their accesses in any order.
use uring_fiber.Prelude.{ℕ, ◌≡◌, ◌≢◌, Bool, true, false, Option, none, some, update}
use uring_fiber.LfQueue.Node.{Node, Memory}
use uring_fiber.LfQueue.Machine.{
  Choice, Kont, push_again, pop_ends, After, won, lost, Pc, push_new, push_load, push_inc,
  push_data, next_lost, lost_new, tail_cas, free_load, free_cas, release_load, release_cas,
  pop_first, pop_counted, pop_sized, pushed, popped, step, make,
}

pub record Threads : Type 0 where
  pub memory : Memory
  pub pc : ℕ → Pc

-- A queue that has just been made, with every thread outside of it.
abbrev pub begin : Choice → Threads
begin c = record { memory = make c; pc = λ _. pushed }

abbrev pub is_outside : Pc → Bool
is_outside pushed = true
is_outside (popped res) = true
is_outside _ = false

abbrev pub value_of_kont : Kont → ℕ
value_of_kont (push_again v nn ot) = v
value_of_kont (pop_ends res) = res
value_of_kont _ = 0

abbrev pub value_of_after : After → ℕ
value_of_after won = 0
value_of_after (lost v nn) = v

-- The object that a thread owns inside of a call, 0 if none: what `push` has not stored yet, and what
-- `pop` has taken out.
abbrev pub hand : Pc → ℕ
hand (push_new v) = v
hand (push_load v nn) = v
hand (push_inc v nn ot) = v
hand (push_data v nn ot) = v
hand (next_lost v nn ot) = v
hand (lost_new v nn ot) = v
hand (tail_cas after ot new current) = value_of_after after
hand (free_load k cnp) = value_of_kont k
hand (free_cas k cnp old) = value_of_kont k
hand (release_load k p) = value_of_kont k
hand (release_cas k p old) = value_of_kont k
hand (pop_counted res) = res
hand (pop_sized res) = res
hand (popped res) = res
hand _ = 0

abbrev pub item_of : Option Node → ℕ
item_of none = 0
item_of (some n) = n.item

-- Where an object can be: in a node of the queue, or with a thread.
pub data Place : Type 0 where
  in_node : (p : ℕ) → Place
  with_thread : (i : ℕ) → Place

abbrev pub owned : Threads → Place → ℕ
owned s (in_node p) = item_of (s.memory.nodes p)
owned s (with_thread i) = hand (s.pc i)

abbrev pub after_step : Threads → ℕ → Memory × Pc → Threads
after_step s i (m, p) = record { memory = m; pc = update s.pc i p }

-- A call of `push` takes over an object, `v`, which is not null and which nobody else owns: a
-- `unique_ptr`. A new node reads as zero.
pub data Step (s : Threads) : Threads → Type 0 where
  calls_push :
      (i v : ℕ)
      → is_outside (s.pc i) ≡ true
      → ((l : Place) → owned s l ≡ v → l ≡ with_thread i)
      → v ≢ 0
      → Step s (record s { pc = update s.pc i (push_new v) })
  calls_pop :
      (i : ℕ) → is_outside (s.pc i) ≡ true → Step s (record s { pc = update s.pc i pop_first })
  access : (i : ℕ) (c : Choice) → c.garbage ≡ 0 → Step s (after_step s i (step c s.memory (s.pc i)))

pub data Reach (s : Threads) : Threads → Type 0 where
  here : Reach s s
  later : {t u : Threads} → Reach s t → Step t u → Reach s u
