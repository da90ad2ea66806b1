-- ===== src/Engine.antt =====
-- io_uring/io_uring_engine.{hpp,cpp}: requests in, completions out. The calls of liburing are answered by
-- arguments: what `io_uring_get_sqe` and `io_uring_wait_cqe` return.
pub mod Exec
pub mod Wait
pub mod Completion
mod Tests
use uring_fiber.Prelude.{
  ℕ, ◌+◌, ◌<◌, Bool, true, false, ◌||◌, Option, none, some, List, [], ◌∷◌, ℤ, pos, negsuc, neg,
  ◌==ℤ◌, ltb, if◌then◌else◌, update,
}

-- `io_uring_engine::result`
pub record Result : Type 0 where
  pub user_data : ℤ
  pub ret : ℤ

-- `io_uring_engine::op_type`
pub data OpType : Type 0 where
  normal timeout : OpType

-- `io_uring_engine::ring_data`: `res` is the name of the `result` that it refers to.
pub record RingData : Type 0 where
  pub type : OpType
  pub res : ℕ

-- `struct __kernel_timespec`; both fields are not negative, as `Exec` asserts.
pub record Timespec : Type 0 where
  pub tv_sec : ℕ
  pub tv_nsec : ℕ

-- Which `io_uring_prep_...` filled an entry, with its numbers; buffers are named by numbers.
pub data Prep : Type 0 where
  read : (fd buf count offset : ℕ) → Prep
  write : (fd buf count offset : ℕ) → Prep
  recv : (fd buf count flags : ℕ) → Prep
  send : (fd buf count flags : ℕ) → Prep
  recvmsg : (fd msg flags : ℕ) → Prep
  sendmsg : (fd msg flags : ℕ) → Prep
  connect : (fd addr addrlen : ℕ) → Prep
  accept : (fd addr addrlen flags : ℕ) → Prep
  timer : Timespec → Prep
  link_timeout : Timespec → Prep

-- A filled submission entry. `link` is `IOSQE_IO_LINK`; `user_data` is the address of a `ring_data`.
pub record Sqe : Type 0 where
  pub prep : Prep
  pub link : Bool
  pub user_data : ℕ

-- A completion entry.
pub record Cqe : Type 0 where
  pub user_data : ℕ
  pub res : ℤ

-- The engine with the memory that it works on: the submission entries by slot, the `ring_data` on the
-- heap by address, the `result` variables of the callers, and how often it submitted and advanced.
pub record Engine : Type 0 where
  pub entries : ℕ → Option Sqe
  pub datas : ℕ → Option RingData
  pub next_data : ℕ
  pub results : ℕ → Result
  pub submits : ℕ
  pub seen : ℕ

-- `new ring_data{type, res}`
abbrev pub new_data : OpType → ℕ → Engine → Engine
new_data type res e = record e {
  datas = update e.datas e.next_data (some (record { type = type; res = res }));
  next_data = e.next_data + 1;
}

abbrev pub fill : ℕ → Sqe → Engine → Engine
fill slot sqe e = record e { entries = update e.entries slot (some sqe) }

abbrev submit : Engine → Engine
submit e = record e { submits = e.submits + 1 }

-- `func(sqe)` and `io_uring_sqe_set_data` of the request itself.
unfoldable pub fill_request : ℕ → Prep → ℕ → Engine → Engine
fill_request slot prep res e =
    fill slot (record { prep = prep; link = false; user_data = e.next_data })
      (new_data normal res e)

-- `Exec` from the test of its timeout on; `second` answers the second `GetSqe`, and `d` is the address
-- of the request's `ring_data`.
unfoldable pub exec_timeout : ℕ → Prep → ℕ → Timespec → ℕ → Option ℕ → Engine → Engine × Bool
exec_timeout slot prep res t d none e =
    (fill slot (record { prep = prep; link = true; user_data = d }) e, false)
exec_timeout slot prep res t d (some slot2) e =
    let linked = fill slot (record { prep = prep; link = true; user_data = d }) e in
    let with_timeout =
      fill slot2 (record { prep = link_timeout t; link = false; user_data = e.next_data })
        (new_data timeout res linked) in
    (submit with_timeout, true)

abbrev pub has_timeout : Timespec → Bool
has_timeout t = ltb 0 t.tv_sec || ltb 0 t.tv_nsec

-- `Exec`; `first` answers the first `GetSqe`.
unfoldable pub exec : Prep → ℕ → Timespec → Option ℕ → Option ℕ → Engine → Engine × Bool
unfolding fill_request exec_timeout
exec prep res t none second e = (e, false)
exec prep res t (some slot) second e =
    let filled = fill_request slot prep res e in
    if has_timeout t
    then exec_timeout slot prep res t e.next_data second filled
    else (submit filled, true)

-- The numbers of <errno.h> on Linux.
abbrev pub eagain : ℤ
eagain = pos 11

abbrev pub enoent : ℤ
enoent = pos 2

abbrev pub etime : ℤ
etime = pos 62

abbrev pub ecanceled : ℤ
ecanceled = pos 125

-- How `WaitResult` ends. `blocked`: the kernel has no more completion, and it waits. `dangling`: the
-- completion's user data is not the address of a live `ring_data`.
pub data Waited : Type 0 where
  resumes : ℤ → Waited  -- true, with `user_data`
  failed : Waited  -- false
  blocked : Waited
  dangling : Waited

abbrev set_ret : ℕ → ℤ → Engine → Engine
set_ret res r e = record e { results = update e.results res (record (e.results res) { ret = r }) }

-- `user_data=data->res.user_data; delete data; return true;`
abbrev pub give : ℕ → ℕ → Engine → Engine × Waited
give d res e = (record e { datas = update e.datas d none }, resumes (e.results res).user_data)

abbrev see : Engine → Engine
see e = record e { seen = e.seen + 1 }

-- What one completion does, given the `ring_data` at its address; `rest` is the recursive call.
unfoldable pub complete : Cqe → Option RingData → Engine → Engine × Waited → Engine × Waited
complete c none e rest = (e, dangling)
complete c (some d) e rest = elim d.type [
  | timeout ↦
      if c.res ==ℤ neg etime
      then give c.user_data d.res (set_ret d.res eagain e)
      else if c.res ==ℤ neg enoent || c.res ==ℤ neg ecanceled
      then rest
      else (e, failed)
  | normal ↦ give c.user_data d.res (set_ret d.res c.res e)
]

-- `WaitResult`, over the answers of the `io_uring_wait_cqe` calls that it makes: `none` is a negative
-- return.
unfoldable pub wait_result : List (Option Cqe) → Engine → Engine × Waited
unfolding complete
wait_result [] e = (e, blocked)
wait_result (none ∷ cs) e = (e, failed)
wait_result (some c ∷ cs) e =
    let rest = wait_result cs (see e) in complete c (e.datas c.user_data) (see e) rest
