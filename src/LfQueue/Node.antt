-- ===== src/LfQueue/Node.antt =====
-- The nodes of `LFQueue`, their two reference counts, and the memory that the threads share.
use uring_fiber.Prelude.{ℕ, ◌+◌, ◌-◌, ◌%◌, ◌^◌, Bool, ◌&&◌, Option, none, some, ◌==◌, update}
use uring_fiber.LfQueue.Packed.{get_count}

-- `node_counter`: `unsigned internal_count:30; unsigned external_counters:2`.
pub record Counter : Type 0 where
  pub internal : ℕ
  pub external : ℕ

-- `node`; `item` is the `T*` (0 is the null pointer), `next` a `counted_node_ptr`.
pub record Node : Type 0 where
  pub item : ℕ
  pub count : Counter
  pub next : ℕ

-- The fields of `LFQueue<T>`, with the heap of nodes by address. The four counters are `int`s, kept as
-- 32-bit patterns: an atomic `fetch_add` wraps around.
pub record Memory : Type 0 where
  pub head : ℕ
  pub tail : ℕ
  pub nodes : ℕ → Option Node
  pub size : ℕ
  pub push_count : ℕ
  pub pop_count : ℕ
  pub destruct_count : ℕ

-- `node()`: it sets the counts and `next`; `item` keeps what the memory held, `garbage`.
unfoldable pub new_node : ℕ → Node
new_node garbage = record {
  item = garbage;
  count = record { internal = 0; external = 2 };
  next = 0;
}

abbrev pub same_counter : Counter → Counter → Bool
same_counter a b = a.internal == b.internal && a.external == b.external

-- `--new_counter.internal_count`
unfoldable pub released : Counter → Counter
released c = record c { internal = (c.internal + 2 ^ 30 - 1) % 2 ^ 30 }

-- `--new_counter.external_counters; new_counter.internal_count+=count_increase;` for the external count
-- of the word `cnp`; `count_increase` is that count minus 2, which may be negative.
unfoldable pub external_freed : ℕ → Counter → Counter
external_freed cnp c = record {
  internal = (c.internal + get_count cnp + 2 ^ 30 - 2) % 2 ^ 30;
  external = (c.external + 3) % 4;
}

-- `!internal_count && !external_counters`
abbrev pub is_unused : Counter → Bool
is_unused c = c.internal == 0 && c.external == 0

abbrev pub bump : ℕ → ℕ
bump n = (n + 1) % 2 ^ 32

abbrev pub drop_one : ℕ → ℕ
drop_one n = (n + 2 ^ 32 - 1) % 2 ^ 32

abbrev pub set_node : ℕ → Node → Memory → Memory
set_node p n m = record m { nodes = update m.nodes p (some n) }

-- `delete ptr; destruct_count.fetch_add(1);`
abbrev pub destroy : ℕ → Memory → Memory
destroy p m = record m { nodes = update m.nodes p none; destruct_count = bump m.destruct_count }
