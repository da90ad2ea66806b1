-- ===== src/LfQueue/Safe.antt =====
-- References to the nodes of `LFQueue`, in any interleaving: what a thread holds, and what the words and the
-- counts of the nodes say about it.
pub mod Tally
pub mod Shape
pub mod Link
pub mod Moves
pub mod Sound
pub mod Delta
pub mod Steps
pub mod Nodes
pub mod Linking
pub mod Moving
pub mod Leaving
pub mod Views
pub mod Writes
pub mod Kept
pub mod PushSteps
pub mod TailSteps
pub mod LeaveSteps
pub mod PopSteps
pub mod Accesses
pub mod Start
pub mod Faults
pub mod Example
use uring_fiber.Prelude.{
  zero, suc, ◌+◌, ℕ, ◌%◌, ◌^◌, ◌<◌, ◌≤◌, ◌≡◌, ◌≢◌, Bool, true, false, Option, none, some, update,
  ◌==◌, leb, if◌then◌else◌,
}
use uring_fiber.LfQueue.Packed.{get_ptr, get_count}
use uring_fiber.LfQueue.Node.{Node, Memory}

-- What a thread has of the nodes: `held` is the node that it has counted itself in at, `owns` the word for a
-- new node that nobody else knows of; `hands_in` says that it is about to give up a word that led to the
-- node, with its count `share`. `successor` is a word that it has read from `next` of the node, `behind`
-- that the node is not the last. 0 is none.
pub record Role : Type 0 where
  pub held : ℕ
  pub owns : ℕ
  pub hands_in : Bool
  pub share : ℕ
  pub successor : ℕ
  pub behind : Bool

abbrev pub away : Role
away = record { held = 0; owns = 0; hands_in = false; share = 0; successor = 0; behind = false }

-- The memory, but for the objects: the two words with their counts, and the nodes.
pub record View : Type 0 where
  pub tail : ℕ
  pub tail_count : ℕ
  pub head : ℕ
  pub head_count : ℕ
  pub alive : ℕ → Bool
  pub next : ℕ → ℕ
  pub internal : ℕ → ℕ
  pub external : ℕ → ℕ

abbrev pub bit : Bool → ℕ
bit true = 1
bit false = 0

-- The sum of a weight over the threads below `n`.
abbrev pub tally : ℕ → (Role → ℕ) → (ℕ → Role) → ℕ
tally zero f r = 0
tally (suc n) f r = f (r n) + tally n f r

-- Does a thread refer to `p`, is it to hand a word for it in, and with which count?
abbrev pub refers : ℕ → Role → ℕ
refers p r = bit (r.held == p)

abbrev pub handing : ℕ → Role → ℕ
handing p r = if r.held == p then bit r.hands_in else 0

abbrev pub shares : ℕ → Role → ℕ
shares p r = if r.held == p then (if r.hands_in then r.share else 0) else 0

-- The order of the nodes: `rank` counts from 1 along the queue, and is 0 for a node that is not linked; `tail`
-- and `head` are the ranks of the nodes that the two words lead to.
pub record Ranks : Type 0 where
  pub rank : ℕ → ℕ
  pub last : ℕ
  pub first : ℕ

-- How many words still lead to `p`, or will.
abbrev pub anchors : Ranks → ℕ → ℕ
anchors k p = bit (leb k.last (k.rank p)) + bit (leb k.first (k.rank p))

-- The references to `p` that are counted, in the node and in the words.
abbrev pub counts_at : View → ℕ → ℕ
counts_at v p =
    v.internal p
    + (if v.tail == p then v.tail_count else 0)
    + (if v.head == p then v.head_count else 0)

abbrev pub words_at : View → ℕ → ℕ
words_at v p = bit (v.tail == p) + bit (v.head == p)
