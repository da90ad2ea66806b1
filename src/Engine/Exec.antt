-- ===== src/Engine/Exec.antt =====
-- What `io_uring_engine::Exec` leaves behind, on every branch.
use uring_fiber.Prelude.{
  ℕ, ◌+◌, ◌<◌, ◌≡◌, refl, Bool, true, false, ◌||◌, ◌&&◌, not, Option, none, some, arith,
}
use uring_fiber.Engine.{RingData, Timespec, Prep, Engine, exec, has_timeout}

abbrev is_some {ℓ} : {A : Type ℓ} → Option A → Bool
is_some none = false
is_some (some a) = true

abbrev pub one_if : Bool → ℕ
one_if true = 1
one_if false = 0

-- `Exec` returns true exactly when the first entry was to be had and, for a request with a timeout, the
-- second one too. It submits once if it returns true, and else not at all. It changes no `result`, and
-- no `ring_data` that was there before; each one it makes refers to the caller's `result`.
pub exec_lem :
    (p : Prep) (res : ℕ) (t : Timespec) (first second : Option ℕ) (e : Engine)
    → let r = exec p res t first second e in
      (r.1 ≡ (is_some first && (not (has_timeout t) || is_some second)))
      × (r.0.submits ≡ e.submits + one_if r.1)
      × ((q : ℕ) → r.0.results q ≡ e.results q)
      × ((d : ℕ) → d < e.next_data → r.0.datas d ≡ e.datas d)
      × ((d : ℕ) (x : RingData)
          → e.next_data < d + 1
          → e.datas d ≡ none
          → r.0.datas d ≡ some x
          → x.res ≡ res)
unfolding exec
exec_lem p res t none second e = (refl, omega arith, λ q. refl, λ d h. refl, λ d x h n s. cc)
exec_lem p res t (some slot) none e =
    (ground arith, ground arith, λ q. ground arith, λ d h. ground arith, λ d x h n s. ground arith)
exec_lem p res t (some slot) (some slot2) e =
    (ground arith, ground arith, λ q. ground arith, λ d h. ground arith, λ d x h n s. ground arith)
