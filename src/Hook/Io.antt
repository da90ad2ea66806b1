-- ===== src/Hook/Io.antt =====
-- hook/hook.cpp: the hooked calls that transfer data or wait. Which way each goes: to the C library, or to
-- io_uring with the task parked.
use uring_fiber.Prelude.{
  ℕ, ◌*◌, ◌/◌, ◌%◌, Bool, ◌||◌, not, Option, none, some, ℤ, pos, negsuc, pos_part, neg, ◌+ℤ◌,
  is_neg, ltb, if◌then◌else◌,
}
use uring_fiber.Engine.{Timespec, Prep}
use uring_fiber.Hook.Fds.{
  FdType, t_socket, t_other, FdDesc, TimeoutType, so_rcvtimeo, so_sndtimeo, is_socket,
  is_tcp_socket, get_socket_timeout, Fds, get, modify,
}
use uring_fiber.Hook.Calls.{has_bit, msg_dontwait}

-- `timeout.tv_sec=us/1000000; timeout.tv_nsec=us%1000000*1000;` for the timeout `us`. With a negative one
-- the assertion at the head of `Exec` fails: `none`.
unfoldable pub timespec_of : ℤ → Option Timespec
timespec_of (pos us) = some (record { tv_sec = us / 1000000; tv_nsec = us % 1000000 * 1000 })
timespec_of (negsuc n) = none

abbrev pub no_timeout : Option Timespec
no_timeout = some (record { tv_sec = 0; tv_nsec = 0 })

-- Where a call goes. `undefined` is an access outside of `fds`.
pub data Route : Type 0 where
  libc : Route
  uring : Prep → Option Timespec → Route
  undefined : Route

-- `IOSubmit` tests for a processor, which only a coroutine's thread has. The lambda runs if it has one.
abbrev pub submitted : Bool → Prep → Option Timespec → Route
submitted in_coroutine p t = if in_coroutine then uring p t else libc

-- A call on `fd`: `direct d` is its test for the C library's way on the record `d`, short of `IOSubmit`;
-- a null record goes that way too.
unfoldable pub route_with :
    Bool → Option (Option ℕ) → (FdDesc → Bool) → (FdDesc → Route) → Fds → Route
route_with in_coroutine none direct go f = undefined
route_with in_coroutine (some none) direct go f = libc
route_with in_coroutine (some (some p)) direct go f =
    if direct (f.descs p) then libc else if in_coroutine then go (f.descs p) else libc

unfoldable pub route : Bool → ℤ → (FdDesc → Bool) → (FdDesc → Route) → Fds → Route
unfolding get route_with
route in_coroutine fd direct go f = route_with in_coroutine (get fd f) direct go f

abbrev pub blocking_socket_only : ℕ → FdDesc → Bool
blocking_socket_only flags d =
    not (is_socket d.fd_type) || d.is_non_blocking || has_bit msg_dontwait flags

abbrev pub timed : TimeoutType → Prep → FdDesc → Route
timed t p d = uring p (timespec_of (get_socket_timeout t d))

unfoldable pub connect : Bool → ℤ → ℕ → ℕ → Fds → Route
unfolding route is_tcp_socket
connect co fd addr addrlen f =
    route co fd (λ d. not (is_socket d.fd_type) || d.is_non_blocking || not (is_tcp_socket d))
      (λ d. uring (Prep.connect (pos_part fd) addr addrlen) no_timeout) f

unfoldable pub accept4 : Bool → ℤ → ℕ → ℕ → ℕ → Fds → Route
unfolding route
accept4 co fd addr addrlen flags f =
    route co fd (λ d. not (is_socket d.fd_type))
      (λ d. uring (Prep.accept (pos_part fd) addr addrlen flags) no_timeout) f

unfoldable pub accept : Bool → ℤ → ℕ → ℕ → Fds → Route
unfolding accept4
accept co fd addr addrlen f = accept4 co fd addr addrlen 0 f

-- The `switch` of `read`: a file's own offset, or the receive timeout of a socket.
unfoldable pub read_request : ℤ → ℕ → ℕ → FdType → FdDesc → Route
read_request fd buf count t_other d =
    uring (Prep.read (pos_part fd) buf count (pos_part d.offset)) no_timeout
read_request fd buf count t_socket d =
    uring (Prep.recv (pos_part fd) buf count 0) (timespec_of (get_socket_timeout so_rcvtimeo d))

unfoldable pub read : Bool → ℤ → ℕ → ℕ → Fds → Route
unfolding route read_request
read co fd buf count f =
    route co fd (λ d. d.is_non_blocking) (λ d. read_request fd buf count d.fd_type d) f

unfoldable pub write_request : ℤ → ℕ → ℕ → FdType → FdDesc → Route
write_request fd buf count t_other d =
    uring (Prep.write (pos_part fd) buf count (pos_part d.offset)) no_timeout
write_request fd buf count t_socket d =
    uring (Prep.send (pos_part fd) buf count 0) (timespec_of (get_socket_timeout so_sndtimeo d))

unfoldable pub write : Bool → ℤ → ℕ → ℕ → Fds → Route
unfolding route write_request
write co fd buf count f =
    route co fd (λ d. d.is_non_blocking) (λ d. write_request fd buf count d.fd_type d) f

unfoldable pub recv : Bool → ℤ → ℕ → ℕ → ℕ → Fds → Route
unfolding route
recv co fd buf len flags f =
    route co fd (blocking_socket_only flags)
      (timed so_rcvtimeo (Prep.recv (pos_part fd) buf len flags)) f

unfoldable pub send : Bool → ℤ → ℕ → ℕ → ℕ → Fds → Route
unfolding route
send co fd buf len flags f =
    route co fd (blocking_socket_only flags)
      (timed so_sndtimeo (Prep.send (pos_part fd) buf len flags)) f

unfoldable pub recvmsg : Bool → ℤ → ℕ → ℕ → Fds → Route
unfolding route
recvmsg co fd msg flags f =
    route co fd (blocking_socket_only flags)
      (timed so_rcvtimeo (Prep.recvmsg (pos_part fd) msg flags)) f

unfoldable pub sendmsg : Bool → ℤ → ℕ → ℕ → Fds → Route
unfolding route
sendmsg co fd msg flags f =
    route co fd (blocking_socket_only flags)
      (timed so_sndtimeo (Prep.sendmsg (pos_part fd) msg flags)) f

-- `if(res.ret>=0){ fdPtr->offset+=res.ret; }` of `read` and `write` on a file. It runs in the I/O thread
-- right behind `Exec`, when `res.ret` still is what the uninitialised local of the hook held: `ret`.
unfoldable pub advance_offset : ℕ → ℤ → Fds → Fds
advance_offset p ret f =
    if is_neg ret then f else modify p (λ d. record d { offset = d.offset +ℤ ret }) f

-- The end of `IOSubmit`, once the task goes on: what `res.ret` has become, and `errno` if it was set.
unfoldable pub io_result : ℤ → ℤ × Option ℤ
io_result ret = if is_neg ret then (negsuc 0, some (neg ret)) else (ret, none)

-- `IOSubmit` with the kernel's result; `none` if it returns false.
unfoldable pub io_submit : Bool → ℤ → Option ℤ
unfolding io_result
io_submit in_coroutine kernel = if in_coroutine then some (io_result kernel).0 else none

abbrev pub returns_or : ℤ → Option ℤ → ℤ
returns_or libc_ret none = libc_ret
returns_or libc_ret (some r) = r

-- `sleep` and `usleep`: the argument is unsigned. `uninitialised` is what `res.ret` holds before any write.
unfoldable pub sleep : Bool → (uninitialised libc_ret kernel : ℤ) → ℕ → ℤ
unfolding io_submit
sleep co uninitialised libc_ret kernel seconds =
    if ltb seconds 0 then returns_or libc_ret (io_submit co kernel) else uninitialised

unfoldable pub usleep : Bool → (uninitialised libc_ret kernel : ℤ) → ℕ → ℤ
unfolding io_submit
usleep co uninitialised libc_ret kernel usec =
    if ltb usec 0 then returns_or libc_ret (io_submit co kernel) else uninitialised

-- `nanosleep`: `tv_sec` is signed.
unfoldable pub nanosleep : Bool → (uninitialised libc_ret kernel : ℤ) → (tv_sec : ℤ) → ℤ
unfolding io_submit
nanosleep co uninitialised libc_ret kernel tv_sec =
    if is_neg tv_sec then returns_or libc_ret (io_submit co kernel) else uninitialised
