-- ===== src/LfQueue.antt =====
-- thread_safe/lockfree_queue.hpp: the queue that all other parts share, and what is proved of it.
mod Bits
pub mod Packed
pub mod Node
pub mod Machine
mod Chain
mod Words
mod PushAlone
pub mod Push
pub mod Pop
pub mod Fifo
pub mod Garbage
pub mod Threads
pub mod Transfer
pub mod Ownership
pub mod Loss
pub mod Safe
pub mod Destroy
mod Tests
