-- ===== src/Engine/Completion.antt =====
-- From a request to its completion.
use uring_fiber.Prelude.{
  ℕ, ◌+◌, ◌≡◌, ◌≢◌, refl, true, false, ◌||◌, Option, none, some, List, [], ◌∷◌, ℤ, pos, negsuc, neg,
  is_neg, ◌==ℤ◌, arith,
}
use uring_fiber.Engine.{
  timeout, Timespec, Prep, Cqe, Engine, exec, has_timeout, eagain, enoent, etime, ecanceled,
  resumes, wait_result,
}

-- The completion entry of the request that `e` made, and the one of its link timeout.
abbrev pub request_done : Engine → ℤ → Option Cqe
request_done e r = some (record { user_data = e.next_data; res = r })

abbrev pub timeout_done : Engine → ℤ → Option Cqe
timeout_done e r = some (record { user_data = e.next_data + 1; res = r })

-- A request without a timeout that got its entry: `WaitResult` at its completion resumes the task that
-- the caller's `result` names, with the kernel's result in `ret`; all other `result`s stay, and the heap
-- of `ring_data` is as it was before the request.
pub exec-completes :
    (p : Prep) (res : ℕ) (t : Timespec) (slot : ℕ) (second : Option ℕ) (e : Engine) (r : ℤ)
    (cs : List (Option Cqe))
    → has_timeout t ≡ false
    → e.datas e.next_data ≡ none
    → let w = wait_result (request_done e r ∷ cs) (exec p res t (some slot) second e).0 in
      (w.1 ≡ resumes (e.results res).user_data)
      × ((w.0.results res).ret ≡ r)
      × ((q : ℕ) → q ≢ res → w.0.results q ≡ e.results q)
      × ((d : ℕ) → w.0.datas d ≡ e.datas d)
unfolding exec wait_result
exec-completes p res t slot second e r cs no_t unused =
    (ground arith, ground arith, λ q ne. ground arith, λ d. ground arith)

module _ (p : Prep) (res : ℕ) (t : Timespec) (slot slot2 : ℕ) (e : Engine)
    (timed : has_timeout t ≡ true) where
  -- The engine after a request with a timeout that got both its entries.
  abbrev requested : Engine
  requested = (exec p res t (some slot) (some slot2) e).0

  in_time_quiet :
      (late : ℤ)
      → (late ==ℤ neg enoent || late ==ℤ neg ecanceled) ≡ true
      → (late ==ℤ neg etime) ≡ false
  in_time_quiet (pos n) h = refl
  in_time_quiet (negsuc n) h = ground arith

  -- A request with a timeout that is done in time: its completion resumes the task once, with the
  -- kernel's result. The completion of the timeout, which the kernel then reports with -ENOENT or
  -- -ECANCELED, is passed over, and the `ring_data` of the timeout stays on the heap.
  pub exec-in_time :
      (r late : ℤ) (cs : List (Option Cqe))
      → (late ==ℤ neg enoent || late ==ℤ neg ecanceled) ≡ true
      → let w = wait_result (request_done e r ∷ []) requested in
        (w.1 ≡ resumes (e.results res).user_data)
        × ((w.0.results res).ret ≡ r)
        × (wait_result (timeout_done e late ∷ cs) w.0
            ≡ wait_result cs (record (w.0) { seen = w.0.seen + 1 }))
        × (w.0.datas (e.next_data + 1) ≡ some (record { type = timeout; res = res }))
  unfolding exec wait_result
  exec-in_time r late cs q =
      let not_fired = in_time_quiet late q in
      (ground arith, ground arith, ground arith, ground arith)

  -- A request whose timeout fires: the kernel cancels the request and reports -ETIME for the timeout.
  -- Both completions resume the task, so it is made runnable twice for one request, and the `ret` that it
  -- is left with, `EAGAIN`, is not negative.
  pub exec-timed_out :
      let w1 = wait_result (request_done e (neg ecanceled) ∷ []) requested in
      let w2 = wait_result (timeout_done e (neg etime) ∷ []) w1.0 in
      (w1.1 ≡ resumes (e.results res).user_data)
      × (w2.1 ≡ resumes (e.results res).user_data)
      × ((w2.0.results res).ret ≡ eagain)
      × (is_neg (w2.0.results res).ret ≡ false)
  unfolding exec wait_result
  exec-timed_out = (ground arith, ground arith, ground arith, ground arith)
