-- ===== src/Hook/Timeouts.antt =====
-- The timeout of a socket, from `setsockopt` to the request that carries it; and the sleeping calls.
use uring_fiber.Prelude.{
  ℕ, ◌+◌, ◌*◌, ◌/◌, ◌%◌, ◌^◌, ◌≤◌, ◌<◌, ◌≡◌, refl, ap, ◌∙◌, Bool, true, false, none, some, ℤ, pos,
  negsuc, is_neg, arith,
}
use uring_fiber.Engine.{Prep}
use uring_fiber.Hook.Fds.{
  t_socket, so_rcvtimeo, set_socket_timeout, to_int32, microseconds, Fds, get, modify,
}
use uring_fiber.Hook.Calls.{setsockopt}
use uring_fiber.Hook.Io.{uring, timespec_of, recv, sleep, usleep, nanosleep}

microseconds_small :
    (sec usec : ℕ)
    → sec * 1000000 + usec < 2 ^ 31
    → to_int32 (microseconds (pos sec) (pos usec)) ≡ pos (sec * 1000000 + usec)
unfolding to_int32 microseconds
microseconds_small sec usec h = ground arith

microseconds_large :
    (sec usec : ℕ)
    → 2 ^ 31 ≤ sec * 1000000 + usec
    → sec * 1000000 + usec < 2 ^ 32
    → is_neg (to_int32 (microseconds (pos sec) (pos usec))) ≡ true
unfolding to_int32 microseconds
microseconds_large sec usec h k = ground arith

timespec_of_parts :
    (sec usec : ℕ)
    → usec < 1000000
    → timespec_of (pos (sec * 1000000 + usec))
      ≡ some (record { tv_sec = sec; tv_nsec = usec * 1000 })
unfolding timespec_of
timespec_of_parts sec usec h =
    let whole : (sec * 1000000 + usec) / 1000000 ≡ sec = omega arith in
    let rest : (sec * 1000000 + usec) % 1000000 ≡ usec = omega arith in rw (whole, rest) refl

-- The table after a successful `setsockopt(fd, SOL_SOCKET, SO_RCVTIMEO, {sec, usec})` on the record `p`.
abbrev with_recv_timeout : ℕ → ℕ → ℕ → Fds → Fds
with_recv_timeout p sec usec f =
    modify p (set_socket_timeout so_rcvtimeo (to_int32 (microseconds (pos sec) (pos usec)))) f

get-with_recv_timeout :
    (fd p sec usec : ℕ) (f : Fds) → get (pos fd) (with_recv_timeout p sec usec f) ≡ get (pos fd) f
unfolding get
get-with_recv_timeout fd p sec usec f = refl

set_recv_timeout :
    (fd p sec usec : ℕ) (f : Fds)
    → get (pos fd) f ≡ some (some p)
    → setsockopt (pos fd) so_rcvtimeo (pos sec) (pos usec) (pos 0) f
      ≡ some (pos 0, with_recv_timeout p sec usec f)
unfolding setsockopt
set_recv_timeout fd p sec usec f at = rw at refl

-- What a `recv` without flags in a coroutine does on a blocking socket.
recv_timed :
    (fd p buf len : ℕ) (f : Fds)
    → get (pos fd) f ≡ some (some p)
    → (f.descs p).fd_type ≡ t_socket
    → (f.descs p).is_non_blocking ≡ false
    → recv true (pos fd) buf len 0 f
      ≡ uring (Prep.recv fd buf len 0) (timespec_of ((f.descs p).recv_timeout))
unfolding recv
recv_timed fd p buf len f at t nb = rw at (ground arith)

-- On a blocking socket with the record `p`, in a coroutine: a receive timeout set by `setsockopt`, of
-- fewer than 2^31 microseconds, is the timeout of the next `recv`'s request, exactly and with fewer than
-- 10^9 nanoseconds; `setsockopt` leaves the send timeout and the non-blocking flag alone.
pub setsockopt-recv :
    (fd p sec usec buf len : ℕ) (f : Fds)
    → get (pos fd) f ≡ some (some p)
    → (f.descs p).fd_type ≡ t_socket
    → (f.descs p).is_non_blocking ≡ false
    → usec < 1000000
    → sec * 1000000 + usec < 2 ^ 31
    → (g : Fds) × (setsockopt (pos fd) so_rcvtimeo (pos sec) (pos usec) (pos 0) f ≡ some (pos 0, g))
      × (recv true (pos fd) buf len 0 g
          ≡ uring (Prep.recv fd buf len 0) (some (record { tv_sec = sec; tv_nsec = usec * 1000 })))
      × (usec * 1000 < 1000000000)
      × ((g.descs p).send_timeout ≡ (f.descs p).send_timeout)
      × ((g.descs p).is_non_blocking ≡ false)
setsockopt-recv fd p sec usec buf len f at t nb small few =
    let g = with_recv_timeout p sec usec f in
    let stored : (g.descs p).recv_timeout ≡ pos (sec * 1000000 + usec) =
      ground (arith, microseconds_small sec usec few) in
    (
      g,
      set_recv_timeout fd p sec usec f at,
      recv_timed fd p buf len g (get-with_recv_timeout fd p sec usec f ∙ at) (ground arith)
            (ground arith)
          ∙ ap (uring (Prep.recv fd buf len 0))
              (ap timespec_of stored ∙ timespec_of_parts sec usec small),
      omega arith,
      ground arith,
      ground arith,
    )

timespec_of_neg : (z : ℤ) → is_neg z ≡ true → timespec_of z ≡ none
unfolding timespec_of
timespec_of_neg (pos n) h = cc
timespec_of_neg (negsuc n) h = refl

-- A receive timeout from 2^31 up to, but not including, 2^32 microseconds (36 to 71 minutes), set on a
-- blocking socket, is stored as a negative number: the next `recv` in a coroutine makes a request on whose timeout the assertion of `Exec` fails.
pub setsockopt-overflow :
    (fd p sec usec buf len : ℕ) (f : Fds)
    → get (pos fd) f ≡ some (some p)
    → (f.descs p).fd_type ≡ t_socket
    → (f.descs p).is_non_blocking ≡ false
    → 2 ^ 31 ≤ sec * 1000000 + usec
    → sec * 1000000 + usec < 2 ^ 32
    → (g : Fds) × (setsockopt (pos fd) so_rcvtimeo (pos sec) (pos usec) (pos 0) f ≡ some (pos 0, g))
      × (recv true (pos fd) buf len 0 g ≡ uring (Prep.recv fd buf len 0) none)
setsockopt-overflow fd p sec usec buf len f at t nb many few =
    let g = with_recv_timeout p sec usec f in
    let stored : is_neg ((g.descs p).recv_timeout) ≡ true =
      ground (arith, microseconds_large sec usec many few) in
    (
      g,
      set_recv_timeout fd p sec usec f at,
      recv_timed fd p buf len g (get-with_recv_timeout fd p sec usec f ∙ at) (ground arith)
            (ground arith)
          ∙ ap (uring (Prep.recv fd buf len 0)) (timespec_of_neg _ stored),
    )

-- `sleep` and `usleep` never submit a timer and never call the C library: they return at once, with the
-- value that the uninitialised `res.ret` holds; so does `nanosleep` for every time that is not negative.
pub sleeps-return_at_once :
    (co : Bool) (uninitialised libc_ret kernel : ℤ) (n : ℕ)
    → (sleep co uninitialised libc_ret kernel n ≡ uninitialised)
      × (usleep co uninitialised libc_ret kernel n ≡ uninitialised)
      × (nanosleep co uninitialised libc_ret kernel (pos n) ≡ uninitialised)
unfolding sleep usleep nanosleep
sleeps-return_at_once co uninitialised libc_ret kernel n = (ground arith, ground arith, refl)
