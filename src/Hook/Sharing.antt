-- ===== src/Hook/Sharing.antt =====
-- The hooked calls that make, share, change and close descriptors' records.
use uring_fiber.Prelude.{ℕ, ◌<◌, ◌≡◌, some, some, ℤ}
use uring_fiber.Hook.Fds.{TimeoutType, Fds}
use uring_fiber.Hook.Calls.{
  Called, open_fd, socket, close, dup, dup2, Command, fcntl, setsockopt, accepted,
}

-- Every entry of the table holds an object that has been made.
abbrev pub IsAllocated : Fds → Type 0
IsAllocated f = (n p : ℕ) → f.table n ≡ some p → p < f.next

-- The hooked calls that touch the table, as one type.
pub data Op : Type 0 where
  opens : (oflags : ℕ) (fd : ℤ) → Op
  makes_socket : (domain type fd : ℤ) → Op
  closes : (fd ret : ℤ) → Op
  dups : (oldfd newfd : ℤ) → Op
  dups2 : (oldfd newfd ret : ℤ) → Op
  controls : (fd : ℤ) (c : Command) (ret : ℤ) → Op
  sets_timeout : (fd : ℤ) (t : TimeoutType) (sec usec ret : ℤ) → Op
  accepts : (listener flags : ℕ) (res : ℤ) → Op

unfoldable pub perform : Op → Fds → Called
perform (opens oflags fd) f = open_fd oflags fd f
perform (makes_socket domain type fd) f = socket domain type fd f
perform (closes fd ret) f = close fd ret f
perform (dups oldfd newfd) f = dup oldfd newfd f
perform (dups2 oldfd newfd ret) f = dup2 oldfd newfd ret f
perform (controls fd c ret) f = fcntl fd c ret f
perform (sets_timeout fd t sec usec ret) f = setsockopt fd t sec usec ret f
perform (accepts listener flags res) f = accepted listener flags res f
