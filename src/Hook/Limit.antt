-- ===== src/Hook/Limit.antt =====
-- hook/fd_desc.{hpp,cpp}: `FdLim`, the limit of descriptors, and the vector `fds` that is made from it.
use uring_fiber.Prelude.{ℕ, ◌-◌, ◌^◌, ◌<◌, ◌≡◌, Option, none, some, ℤ, pos, negsuc, arith}
use uring_fiber.Hook.Fds.{FdDesc, Fds, to_int32}
use uring_fiber.Hook.Sharing.{IsAllocated}

-- `FdLim()`: `answer` is what `getrlimit64` stores, `none` being its failure, in which `rlim` keeps what it
-- held. The assignment for that case is overwritten.
unfoldable pub max_fd_nums : (answer : Option ℕ) (held : ℕ) → ℤ
unfolding to_int32
max_fd_nums none held = to_int32 (pos held)
max_fd_nums (some limit) held = to_int32 (pos limit)

-- A table without records; `d` are the objects to come.
abbrev pub empty_fds : (ℕ → FdDesc) → ℕ → Fds
empty_fds d n = record { descs = d; next = 0; table = λ _. none; size = n }

-- `fds(FdDesc::fdLim_.maxFdNums_,nullptr)`: `none` is the exception of a vector that would be too long.
unfoldable pub make_fds : (ℕ → FdDesc) → ℤ → Option Fds
make_fds d (pos n) = some (empty_fds d n)
make_fds d (negsuc n) = none

-- A limit that fits into an `int` is the length of the table, whose state is then a sound one to start from.
-- No limit at all (`RLIM_INFINITY`, which is 2^64 - 1) is read as -1, and the table cannot be made. If the
-- limit cannot be read, the length is not 102400 but what the uninitialised variable holds.
pub make_fds-limit :
    (d : ℕ → FdDesc) (limit held : ℕ)
    → limit < 2 ^ 31
    → held < 2 ^ 31
    → (make_fds d (max_fd_nums (some limit) held) ≡ some (empty_fds d limit))
      × IsAllocated (empty_fds d limit)
      × (make_fds d (max_fd_nums (some (2 ^ 64 - 1)) held) ≡ none)
      × (make_fds d (max_fd_nums none held) ≡ some (empty_fds d held))
unfolding make_fds max_fd_nums to_int32
make_fds-limit d limit held small small_too =
    (ground arith, λ n p e. ground (arith, e), ground arith, ground arith)
