-- ===== src/Hook.antt =====
-- hook/: the hooked system calls and the table of descriptors that they keep.
pub mod Fds
pub mod Calls
pub mod Io
pub mod Timeouts
pub mod Sharing
pub mod Shown
pub mod Aliases
pub mod Whole
pub mod Limit
pub mod Resumed
mod Tests
