-- ===== src/Hook/Whole.antt =====
-- A hooked call from its start to its return: the hook, the engine's request, its completion, and the task
-- that goes on. The scheduler's part, that the request reaches the engine and the task its processor, is
-- taken as done.
use uring_fiber.Prelude.{
  ◌<◌, ◌*◌, ◌/◌, ◌%◌, ℕ, ◌≡◌, ◌≢◌, refl, ap, ap₂, ◌∙◌, true, false, Option, none, some, List, [],
  ◌∷◌, ℤ, pos, negsuc, neg, pos_part, is_neg, if◌then◌else◌, update, update-same, arith,
}
use uring_fiber.Engine.{
  Timespec, Prep, Cqe, Engine, Result, exec, has_timeout, wait_result, Waited, resumes, failed,
  blocked, dangling, eagain, etime, ecanceled,
}
use uring_fiber.Engine.Completion.{request_done, timeout_done, exec-completes, exec-timed_out}
use uring_fiber.Hook.Fds.{Fds, get, so_rcvtimeo, get_socket_timeout, is_socket}
use uring_fiber.Hook.Calls.{has_bit, msg_dontwait}
use uring_fiber.Hook.Io.{
  Route, libc, uring, undefined, timespec_of, io_result, recv, route, route_with,
}

-- What a call meets: the task that calls, the address of its local `res` and what `res.ret` holds at first,
-- the answers of the two `GetSqe`, the completions that `WaitResult` reads, and the engine.
pub record Setting : Type 0 where
  pub task : ℤ
  pub res : ℕ
  pub uninitialised : ℤ
  pub first : Option ℕ
  pub second : Option ℕ
  pub completions : List (Option Cqe)
  pub engine : Engine

pub data Outcome : Type 0 where
  direct : Outcome  -- the call is the C library's
  aborted : Outcome  -- the assertion at the head of `Exec` fails
  bad_access : Outcome
  sleeps : Outcome  -- this `WaitResult` wakes no task
  -- The task `woken` goes on; the call of the task that called returns `value` and sets `errno`.
  returned : (e : Engine) (woken value : ℤ) (errno : Option ℤ) → Outcome

-- `res.user_data=...` at the head of `IOSubmit`.
abbrev pub prepared : Setting → Engine
prepared s = record (s.engine) {
  results = update s.engine.results s.res (record { user_data = s.task; ret = s.uninitialised });
}

-- The end of `IOSubmit` in the task that `WaitResult` named.
unfoldable pub go_on : ℕ → Engine → Waited → Outcome
go_on res e (resumes u) =
    returned e u (io_result (e.results res).ret).0 (io_result (e.results res).ret).1
go_on res e failed = sleeps
go_on res e blocked = sleeps
go_on res e dangling = bad_access

unfoldable pub run_call : Setting → Route → Outcome
unfolding go_on
run_call s libc = direct
run_call s undefined = bad_access
run_call s (uring p none) = aborted
run_call s (uring p (some t)) =
    let (e, w) = wait_result s.completions (exec p s.res t s.first s.second (prepared s)).0 in
    go_on s.res e w

-- What a system call of the kernel with result `r` returns to its caller, and `errno`.
abbrev pub as_returned : ℤ → ℤ × Option ℤ
as_returned r = if is_neg r then (negsuc 0, some (neg r)) else (r, none)

-- A call with no timeout that got its entry.
uring-returned :
    (s : Setting) (p : Prep) (t : Timespec) (slot : ℕ) (r : ℤ) (cs : List (Option Cqe))
    → s.first ≡ some slot
    → has_timeout t ≡ false
    → s.engine.datas s.engine.next_data ≡ none
    → s.completions ≡ request_done s.engine r ∷ cs
    → (e : Engine) × (run_call s (uring p (some t))
        ≡ returned e s.task (as_returned r).0 (as_returned r).1)
      × ((q : ℕ) → q ≢ s.res → e.results q ≡ s.engine.results q)
      × ((d : ℕ) → e.datas d ≡ s.engine.datas d)
unfolding run_call go_on io_result
uring-returned s p t slot r cs first no_timeout unused done =
    let w =
      wait_result (request_done (prepared s) r ∷ cs)
        (exec p s.res t (some slot) s.second (prepared s)).0 in
    let (woken, result, others, heap) =
      exec-completes p s.res t slot s.second (prepared s) r cs no_timeout unused in
    let mine : ((prepared s).results s.res).user_data ≡ s.task =
      ap (λ (x : Result). x.user_data) (update-same s.engine.results s.res _) in
    (
      w.0,
      ap₂
            (λ (c : List (Option Cqe)) (f : Option ℕ).
              let v = wait_result c (exec p s.res t f s.second (prepared s)).0 in
              go_on s.res v.0 v.1)
            done first
          ∙ ap (go_on s.res (w.0)) (woken ∙ ap resumes mine)
          ∙ ap (λ (x : ℤ). returned (w.0) s.task (io_result x).0 (io_result x).1) result,
      λ q ne. others q ne ∙ ground arith,
      heap,
    )

-- A descriptor that `recv` serves by io_uring: that of a blocking socket, with a receive timeout of `us`
-- microseconds, 0 for none.
pub record Served (fd : ℤ) (flags us : ℕ) (f : Fds) : Type 0 where
  pub place : ℕ
  pub known : get fd f ≡ some (some place)
  pub socket : is_socket (f.descs place).fd_type ≡ true
  pub blocking : (f.descs place).is_non_blocking ≡ false
  pub waits : has_bit msg_dontwait flags ≡ false
  pub timeout_us : get_socket_timeout so_rcvtimeo (f.descs place) ≡ pos us

pub recv-route :
    (fd : ℤ) (buf len flags us : ℕ) (f : Fds)
    → Served fd flags us f
    → recv true fd buf len flags f
      ≡ uring (Prep.recv (pos_part fd) buf len flags) (timespec_of (pos us))
unfolding recv route route_with
recv-route fd buf len flags us f h =
    ground (arith, h.known, h.socket, h.blocking, h.waits, h.timeout_us)

-- A hooked `recv` in a coroutine, on a blocking socket without a timeout, whose request got its entry and is
-- completed by the kernel with `r`: the task that called goes on, and the call returns what the system call
-- would have: `r`, or -1 with `errno` set to `-r` if `r` is negative. The `result`s of other calls and the
-- heap of `ring_data` are as they were.
pub recv-returned :
    (s : Setting) (fd : ℤ) (buf len flags slot : ℕ) (f : Fds) (r : ℤ) (cs : List (Option Cqe))
    → Served fd flags 0 f
    → s.first ≡ some slot
    → s.engine.datas s.engine.next_data ≡ none
    → s.completions ≡ request_done s.engine r ∷ cs
    → (e : Engine) × (run_call s (recv true fd buf len flags f)
        ≡ returned e s.task (as_returned r).0 (as_returned r).1)
      × ((q : ℕ) → q ≢ s.res → e.results q ≡ s.engine.results q)
      × ((d : ℕ) → e.datas d ≡ s.engine.datas d)
unfolding timespec_of
recv-returned s fd buf len flags slot f r cs served first unused done =
    let (e, returns, others, heap) =
      uring-returned s (Prep.recv (pos_part fd) buf len flags) (record { tv_sec = 0; tv_nsec = 0 })
        slot r cs first refl unused done in
    (e, ap (run_call s) (recv-route fd buf len flags 0 f served) ∙ returns, others, heap)

-- The engine once the request of a call with the timeout `us` has got both its entries.
abbrev pub timed_request : Setting → Prep → ℕ → (slot slot2 : ℕ) → Engine
timed_request s p us slot slot2 =
    (exec p s.res (record { tv_sec = us / 1000000; tv_nsec = us % 1000000 * 1000 }) (some slot)
      (some slot2) (prepared s)).0

timed_out_first :
    (s : Setting) (p : Prep) (us slot slot2 : ℕ)
    → 0 < us
    → let w =
        wait_result
          (request_done s.engine (neg ecanceled) ∷ [])
          (timed_request s p us slot slot2) in
      (w.0.results s.res).ret ≡ neg ecanceled
unfolding exec wait_result
timed_out_first s p us slot slot2 some_time = ground arith

-- A hooked `recv` in a coroutine, on a blocking socket with a receive timeout of `us` microseconds, not 0,
-- goes to io_uring with that timeout. If its request gets both its entries, and the timeout fires, the
-- kernel reports the request cancelled and then the timeout. Both completions wake the task. If it goes on
-- before the second is read, its call returns -1 with `errno` set to `ECANCELED`; if after, it returns
-- `EAGAIN`, as if so many bytes were received, and leaves `errno` unset.
pub recv-timed_out :
    (s : Setting) (fd : ℤ) (buf len flags us slot slot2 : ℕ) (f : Fds)
    → Served fd flags us f
    → 0 < us
    → let p = Prep.recv (pos_part fd) buf len flags in
      let w1 =
        wait_result
          (request_done s.engine (neg ecanceled) ∷ [])
          (timed_request s p us slot slot2) in
      let w2 = wait_result (timeout_done s.engine (neg etime) ∷ []) w1.0 in
      (recv true fd buf len flags f
        ≡ uring p (some (record { tv_sec = us / 1000000; tv_nsec = us % 1000000 * 1000 })))
      × (go_on s.res w1.0 w1.1 ≡ returned w1.0 s.task (negsuc 0) (some ecanceled))
      × (go_on s.res w2.0 w2.1 ≡ returned w2.0 s.task eagain none)
unfolding go_on io_result timespec_of
recv-timed_out s fd buf len flags us slot slot2 f served some_time =
    let p = Prep.recv (pos_part fd) buf len flags in
    let t : Timespec = record { tv_sec = us / 1000000; tv_nsec = us % 1000000 * 1000 } in
    let timed : has_timeout t ≡ true = ground (arith, some_time) in
    let (once, twice, late, _) = exec-timed_out p s.res t slot slot2 (prepared s) timed in
    let early = timed_out_first s p us slot slot2 some_time in
    let mine : ((prepared s).results s.res).user_data ≡ s.task =
      ap (λ (x : Result). x.user_data) (update-same s.engine.results s.res _) in
    let w1 =
      wait_result (request_done s.engine (neg ecanceled) ∷ []) (timed_request s p us slot slot2) in
    let w2 = wait_result (timeout_done s.engine (neg etime) ∷ []) (w1.0) in
    (
      recv-route fd buf len flags us f served,
      ap (go_on s.res (w1.0)) (once ∙ ap resumes mine)
          ∙ ap (λ (x : ℤ). returned (w1.0) s.task (io_result x).0 (io_result x).1) early,
      ap (go_on s.res (w2.0)) (twice ∙ ap resumes mine)
          ∙ ap (λ (x : ℤ). returned (w2.0) s.task (io_result x).0 (io_result x).1) late,
    )
