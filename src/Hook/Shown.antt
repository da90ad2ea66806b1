-- ===== src/Hook/Shown.antt =====
-- What every descriptor shows of its record after each hooked call that touches the table.
use uring_fiber.Prelude.{
  ℕ, ◌≡◌, Bool, true, false, ◌&&◌, ◌||◌, Option, none, some, ℤ, pos, negsuc, is_neg, ◌==ℤ◌, ◌==◌,
  ltb, if◌then◌else◌,
}
use uring_fiber.Hook.Fds.{
  t_socket, t_other, FdDesc, make_desc, set_socket_attr, set_non_blocking, set_socket_timeout,
  to_int32, microseconds, Fds, modify,
}
use uring_fiber.Hook.Calls.{Called, has_bit, o_nonblock, sock_nonblock, f_dupfd, f_setfl, other}
use uring_fiber.Hook.Sharing.{
  IsAllocated, Op, opens, makes_socket, closes, dups, dups2, controls, sets_timeout, accepts,
}

-- The record that a descriptor leads to.
abbrev pub object_at : (ℕ → FdDesc) → Option ℕ → Option FdDesc
object_at descs none = none
object_at descs (some p) = some (descs p)

abbrev pub shown : Fds → ℕ → Option FdDesc
shown f q = object_at f.descs (f.table q)

abbrev pub shown_at : Fds → ℤ → Option FdDesc
shown_at f (pos n) = shown f n
shown_at f (negsuc n) = none

abbrev pub is_at : ℤ → ℕ → Bool
is_at (pos n) q = n == q
is_at (negsuc n) q = false

abbrev pub inside : ℤ → Fds → Bool
inside (pos n) f = ltb n f.size
inside (negsuc n) f = false

-- Have two descriptors the same record?
abbrev pub both_same : Option ℕ → Option ℕ → Bool
both_same none y = false
both_same (some p) none = false
both_same (some p) (some q) = p == q

abbrev pub share_record : Fds → ℤ → ℕ → Bool
share_record f (pos n) q = both_same (f.table n) (f.table q)
share_record f (negsuc n) q = false

abbrev pub change_shown : (FdDesc → FdDesc) → Option FdDesc → Option FdDesc
change_shown change none = none
change_shown change (some d) = some (change d)

-- What all descriptors show after: one leads to a record, or to none; one record is changed.
abbrev pub set_at : ℤ → Option FdDesc → Fds → ℕ → Option FdDesc
set_at fd d f q = if is_at fd q then d else shown f q

abbrev pub changed_at : ℤ → (FdDesc → FdDesc) → Fds → ℕ → Option FdDesc
changed_at fd change f q =
    if share_record f fd q then change_shown change (shown f q) else shown f q

abbrev pub unless : Bool → (ℕ → Option FdDesc) → Fds → ℕ → Option FdDesc
unless b after f q = if b then shown f q else after q

-- What a call returns, which entries it accesses, and what the descriptors show after it: nothing changes if
-- the C library's function has failed.
abbrev pub answer : Op → ℤ
answer (opens oflags fd) = fd
answer (makes_socket domain type fd) = fd
answer (closes fd ret) = ret
answer (dups oldfd newfd) = newfd
answer (dups2 oldfd newfd ret) = ret
answer (controls fd c ret) = ret
answer (sets_timeout fd t sec usec ret) = ret
answer (accepts listener flags res) = res

abbrev pub in_table : Op → Fds → Bool
in_table (opens oflags fd) f = is_neg fd || inside fd f
in_table (makes_socket domain type fd) f = is_neg fd || inside fd f
in_table (closes fd ret) f = is_neg ret || inside fd f
in_table (dups oldfd newfd) f = is_neg newfd || (inside oldfd f && inside newfd f)
in_table (dups2 oldfd newfd ret) f =
    (oldfd ==ℤ newfd) || (is_neg ret || (inside oldfd f && inside newfd f))
in_table (controls fd f_dupfd ret) f = is_neg ret || (inside fd f && inside ret f)
in_table (controls fd (f_setfl flags) ret) f = inside fd f
in_table (controls fd other ret) f = true
in_table (sets_timeout fd t sec usec ret) f = is_neg ret || inside fd f
in_table (accepts listener flags res) f = is_neg res || inside res f

abbrev pub expected : Op → Fds → ℕ → Option FdDesc
expected (opens oflags fd) f =
    unless (is_neg fd) (set_at fd (some (make_desc fd t_other (has_bit o_nonblock oflags))) f) f
expected (makes_socket domain type fd) f =
    unless (is_neg fd)
      (set_at fd (some (set_socket_attr domain type (make_desc fd t_socket false))) f) f
expected (closes fd ret) f = unless (is_neg ret) (set_at fd none f) f
expected (dups oldfd newfd) f = unless (is_neg newfd) (set_at newfd (shown_at f oldfd) f) f
expected (dups2 oldfd newfd ret) f =
    unless (oldfd ==ℤ newfd) (unless (is_neg ret) (set_at newfd (shown_at f oldfd) f) f) f
expected (controls fd f_dupfd ret) f = unless (is_neg ret) (set_at ret (shown_at f fd) f) f
expected (controls fd (f_setfl flags) ret) f =
    changed_at fd (set_non_blocking (has_bit o_nonblock flags)) f
expected (controls fd other ret) f = shown f
expected (sets_timeout fd t sec usec ret) f =
    unless (is_neg ret) (changed_at fd (set_socket_timeout t (to_int32 (microseconds sec usec))) f)
      f
expected (accepts listener flags res) f =
    unless (is_neg res)
      (set_at res
        (some (
          set_socket_attr ((f.descs listener).domain) ((f.descs listener).type)
            (make_desc res t_socket (has_bit sock_nonblock flags))))
        f)
      f

-- A call leaves the table, or returns its answer with a table in which every descriptor shows what is given.
pub data Shows (f : Fds) (r : ℤ) : Bool → (ℕ → Option FdDesc) → Called → Type 0 where
  outside : {ex : ℕ → Option FdDesc} → Shows f r false ex none
  shows :
      {ex : ℕ → Option FdDesc} (g : Fds)
      → IsAllocated g
      → g.size ≡ f.size
      → ((q : ℕ) → shown g q ≡ ex q)
      → Shows f r true ex (some (r, g))

-- A method call on the record of `n`, if it has one.
abbrev modified : (FdDesc → FdDesc) → Option ℕ → Fds → Fds
modified change none f = f
modified change (some p) f = modify p change f
