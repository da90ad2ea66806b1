-- ===== src/Hook/Fds.antt =====
-- hook/fd_desc.{hpp,cpp}: descriptor records, and the table `fds` that the hooked calls share.
use uring_fiber.Prelude.{
  ℕ, ◌+◌, ◌-◌, ◌*◌, ◌%◌, ◌^◌, Bool, true, false, ◌&&◌, Option, none, some, ℤ, pos, negsuc, sub_ℕ,
  pos_part, neg_part, ◌==◌, ltb, if◌then◌else◌, update,
}

-- `FdDesc::FdType`
pub data FdType : Type 0 where
  t_socket t_other : FdType

-- `FdDesc`. The numbers of system headers are those of Linux; `domain` and `type` are `int`s that start
-- as -1.
pub record FdDesc : Type 0 where
  pub fd : ℤ
  pub fd_type : FdType
  pub is_non_blocking : Bool
  pub recv_timeout : ℤ
  pub send_timeout : ℤ
  pub offset : ℤ
  pub domain : ℤ
  pub type : ℤ

abbrev pub sock_stream : ℤ
sock_stream = pos 1

-- The socket options for the two timeouts.
pub data TimeoutType : Type 0 where
  so_rcvtimeo so_sndtimeo : TimeoutType

-- `FdDesc(fd, fdType, isNonBlocking)`
abbrev pub make_desc : ℤ → FdType → Bool → FdDesc
make_desc fd t nb = record {
  fd = fd;
  fd_type = t;
  is_non_blocking = nb;
  recv_timeout = pos 0;
  send_timeout = pos 0;
  offset = pos 0;
  domain = negsuc 0;
  type = negsuc 0;
}

abbrev pub is_socket : FdType → Bool
is_socket t_socket = true
is_socket t_other = false

abbrev int_eq : ℤ → ℤ → Bool
int_eq (pos a) (pos b) = a == b
int_eq (negsuc a) (negsuc b) = a == b
int_eq _ _ = false

-- `SetSocketAttr`
abbrev pub set_socket_attr : ℤ → ℤ → FdDesc → FdDesc
set_socket_attr domain type d = record d { domain = domain; type = type }

-- `IsTcpSocket`
unfoldable pub is_tcp_socket : FdDesc → Bool
is_tcp_socket d = is_socket d.fd_type && int_eq d.type sock_stream

-- `SetNonBlocking`
abbrev pub set_non_blocking : Bool → FdDesc → FdDesc
set_non_blocking b d = record d { is_non_blocking = b }

-- `GetSocketTimeout`
abbrev pub get_socket_timeout : TimeoutType → FdDesc → ℤ
get_socket_timeout so_rcvtimeo d = d.recv_timeout
get_socket_timeout so_sndtimeo d = d.send_timeout

-- `SetSocketTimeout`
abbrev pub set_socket_timeout : TimeoutType → ℤ → FdDesc → FdDesc
set_socket_timeout so_rcvtimeo us d = record d { recv_timeout = us }
set_socket_timeout so_sndtimeo us d = record d { send_timeout = us }

-- The low 32 bits of a number in two's complement, and the `int` that such bits stand for.
abbrev pub low_bits32 : ℤ → ℕ
low_bits32 (pos n) = n % 2 ^ 32
low_bits32 (negsuc n) = 2 ^ 32 - 1 - n % 2 ^ 32

abbrev pub int_of_bits : ℕ → ℤ
int_of_bits b = if ltb b (2 ^ 31) then pos b else negsuc (2 ^ 32 - b - 1)

-- The conversion of a `long` to `int`.
unfoldable pub to_int32 : ℤ → ℤ
to_int32 z = int_of_bits (low_bits32 z)

-- `tv.tv_sec * 1000000 + tv.tv_usec`, before the conversion to `int`.
unfoldable pub microseconds : ℤ → ℤ → ℤ
microseconds sec usec =
    sub_ℕ (pos_part sec * 1000000 + pos_part usec) (neg_part sec * 1000000 + neg_part usec)

-- The objects behind the `shared_ptr`s, by number; which one each entry of the vector `fds` holds; and
-- the size of that vector.
pub record Fds : Type 0 where
  pub descs : ℕ → FdDesc
  pub next : ℕ
  pub table : ℕ → Option ℕ
  pub size : ℕ

-- `fds[fd]`: `none` is an access outside of the vector, which is undefined; `some none` is a null pointer.
unfoldable pub get : ℤ → Fds → Option (Option ℕ)
get (pos n) f = if ltb n f.size then some (f.table n) else none
get (negsuc n) f = none

-- `fds[fd] = p`
unfoldable pub put : ℤ → Option ℕ → Fds → Option Fds
put (pos n) p f = if ltb n f.size then some (record f { table = update f.table n p }) else none
put (negsuc n) p f = none

-- `std::make_shared<FdDesc>(...)`, with its object's number.
abbrev pub make_shared : FdDesc → Fds → Fds
make_shared d f = record f { descs = update f.descs f.next d; next = f.next + 1 }

-- A method call on the object `p`.
abbrev pub modify : ℕ → (FdDesc → FdDesc) → Fds → Fds
modify p change f = record f { descs = update f.descs p (change (f.descs p)) }
