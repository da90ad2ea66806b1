-- ===== src/LfQueue/Words.antt =====
-- The words of `LFQueue` in the states that one thread alone meets.
use uring_fiber.Prelude.{ℕ, ◌+◌, ◌%◌, ◌^◌, ◌<◌, ◌≡◌, refl, arith}
use uring_fiber.LfQueue.Packed.{
  get_count, pack, set_ptr_lem, set_count_lem, get_ptr-pack, get_count-pack,
}
use uring_fiber.LfQueue.Node.{external_freed}
use uring_fiber.LfQueue.Machine.{counted_up, link_to}

pub counted_up_one : (p : ℕ) → p < 2 ^ 48 → counted_up (pack p 1) ≡ pack p 2
unfolding counted_up
counted_up_one p h = rw (set_count_lem, get_count-pack p 1 h (omega arith), get_ptr-pack p 1 h) refl

-- A link to a new node does not depend on what the word held.
pub link_to_lem : (word p : ℕ) → p < 2 ^ 48 → link_to word p ≡ pack p 1
unfolding link_to
link_to_lem word p h =
    rw (set_count_lem, set_ptr_lem word p h, get_ptr-pack p (get_count word) h) refl

-- Once one thread has entered a node by a word and leaves it, no internal reference stays.
pub external_freed_two :
    (p e : ℕ)
    → p < 2 ^ 48
    → external_freed (pack p 2) (record { internal = 0; external = e })
      ≡ record { internal = 0; external = (e + 3) % 4 }
unfolding external_freed
external_freed_two p e h = rw (get_count-pack p 2 h (omega arith)) refl
