-- ===== src/Channel.antt =====
-- sync/co_chan.hpp: `Channel<T>`, in parts: the work under the lock (Body), the whole calls (Calls), and
-- the proofs about both.
pub mod Body
pub mod Calls
pub mod Order
pub mod Fifo
pub mod History
pub mod Locked
pub mod Closing
pub mod Handles
mod Tests
