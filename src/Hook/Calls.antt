-- ===== src/Hook/Calls.antt =====
-- hook/hook.cpp: the hooked calls that keep the table `fds`. Each takes what the C library's function of
-- that name returned, and gives what the hook returns with the table; `none` is an access outside of it.
use uring_fiber.Prelude.{
  ℕ, ◌/◌, ◌%◌, ◌^◌, Bool, false, Option, none, some, ℤ, is_neg, ◌==ℤ◌, ◌==◌, if◌then◌else◌,
}
use uring_fiber.Hook.Fds.{
  t_socket, t_other, FdDesc, TimeoutType, make_desc, set_socket_attr, set_non_blocking,
  set_socket_timeout, to_int32, microseconds, Fds, get, put, make_shared, modify,
}

-- A hook's result: what it returns, and the table.
abbrev pub Called : Type 0
Called = Option (ℤ × Fds)

abbrev pub with_result : ℤ → Option Fds → Called
with_result r none = none
with_result r (some f) = some (r, f)

-- `flags & (1 << k)`
abbrev pub has_bit : ℕ → ℕ → Bool
has_bit k flags = flags / 2 ^ k % 2 == 1

-- `O_NONBLOCK` and `SOCK_NONBLOCK` are bit 11, `MSG_DONTWAIT` is bit 6.
abbrev pub o_nonblock : ℕ
o_nonblock = 11

abbrev pub sock_nonblock : ℕ
sock_nonblock = 11

abbrev pub msg_dontwait : ℕ
msg_dontwait = 6

-- `fds[fd] = std::make_shared<FdDesc>(...)`
unfoldable pub put_new : ℤ → FdDesc → Fds → Option Fds
unfolding put
put_new fd d f = put fd (some f.next) (make_shared d f)

-- `open`
unfoldable pub open_fd : ℕ → ℤ → Fds → Called
unfolding put_new
open_fd oflags fd f =
    if is_neg fd
    then some (fd, f)
    else with_result fd (put_new fd (make_desc fd t_other (has_bit o_nonblock oflags)) f)

unfoldable pub socket : ℤ → ℤ → ℤ → Fds → Called
unfolding put_new
socket domain type fd f =
    if is_neg fd
    then some (fd, f)
    else with_result fd (put_new fd (set_socket_attr domain type (make_desc fd t_socket false)) f)

unfoldable pub close : ℤ → ℤ → Fds → Called
unfolding put
close fd ret f = if is_neg ret then some (ret, f) else with_result ret (put fd none f)

-- `fds[newfd] = fds[oldfd]`
unfoldable pub put_shared : ℤ → Option (Option ℕ) → Fds → Option Fds
unfolding put
put_shared newfd none f = none
put_shared newfd (some p) f = put newfd p f

unfoldable pub share : ℤ → ℤ → Fds → Option Fds
unfolding get put_shared
share oldfd newfd f = put_shared newfd (get oldfd f) f

unfoldable pub dup : ℤ → ℤ → Fds → Called
unfolding share
dup oldfd newfd f =
    if is_neg newfd then some (newfd, f) else with_result newfd (share oldfd newfd f)

unfoldable pub dup2 : ℤ → ℤ → ℤ → Fds → Called
unfolding share
dup2 oldfd newfd ret f =
    if oldfd ==ℤ newfd
    then some (ret, f)
    else if is_neg ret
    then some (ret, f)
    else with_result ret (share oldfd newfd f)

-- The commands that `fcntl` tells apart by what it does with the table.
pub data Command : Type 0 where
  f_dupfd : Command  -- also `F_DUPFD_CLOEXEC`
  f_setfl : (flags : ℕ) → Command
  other : Command  -- passed to the C library's function, and nothing else

-- `if (fds[fd]) fds[fd]->SetNonBlocking(...)`
unfoldable pub set_flags : ℕ → Option (Option ℕ) → Fds → Option Fds
set_flags flags none f = none
set_flags flags (some none) f = some f
set_flags flags (some (some p)) f = some (modify p (set_non_blocking (has_bit o_nonblock flags)) f)

unfoldable pub fcntl : ℤ → Command → ℤ → Fds → Called
unfolding share set_flags get
fcntl fd f_dupfd ret f = if is_neg ret then some (ret, f) else with_result ret (share fd ret f)
fcntl fd (f_setfl flags) ret f = with_result ret (set_flags flags (get fd f) f)
fcntl fd other ret f = some (ret, f)

-- `fdPtr->SetSocketTimeout(optname, microseconds)`, if `fdPtr` is not null.
unfoldable pub set_timeout : TimeoutType → ℤ → Option (Option ℕ) → Fds → Option Fds
set_timeout opt us none f = none
set_timeout opt us (some none) f = some f
set_timeout opt us (some (some p)) f = some (modify p (set_socket_timeout opt us) f)

-- `setsockopt` for `SO_RCVTIMEO` or `SO_SNDTIMEO` at the level `SOL_SOCKET`, with the value's fields; for
-- any other option the hook only passes the call on.
unfoldable pub setsockopt : ℤ → TimeoutType → ℤ → ℤ → ℤ → Fds → Called
unfolding set_timeout get to_int32 microseconds
setsockopt fd opt sec usec ret f =
    if is_neg ret
    then some (ret, f)
    else with_result ret (set_timeout opt (to_int32 (microseconds sec usec)) (get fd f) f)

-- The part of `accept4` after a completed accept: `res` is its result, and `p` the listening socket.
unfoldable pub accepted : ℕ → ℕ → ℤ → Fds → Called
unfolding put_new
accepted p flags res f =
    if is_neg res
    then some (res, f)
    else with_result res (
        put_new res
          (set_socket_attr ((f.descs p).domain) ((f.descs p).type)
            (make_desc res t_socket (has_bit sock_nonblock flags)))
          f)
