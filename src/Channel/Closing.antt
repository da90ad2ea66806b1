-- ===== src/Channel/Closing.antt =====
-- `Close` and the tasks that it wakes.
use uring_fiber.Prelude.{
  ℕ, ◌≡◌, ◌≢◌, refl, ap, ◌∙◌, Bool, true, false, List, [], ◌∷◌, ◌++◌, map, ◌||◌, ◌==◌, update,
  arith,
}
use uring_fiber.Channel.Body.{Chan, threw, tasks, fail_all, close_body}
use uring_fiber.Channel.Calls.{after_suspend, finish, resume}
use uring_fiber.Channel.Order.{close_open, fail_all-fields}
use uring_fiber.Channel.Fifo.{received}

-- Does the task stand in the list?
abbrev pub listed : ℕ → List ℕ → Bool
listed t [] = false
listed t (u ∷ us) = u == t || listed t us

module _ {ℓ} {T : Type ℓ} where
  fail_all-is_error :
      (ts : List ℕ) (c : Chan T) (t : ℕ)
      → (fail_all ts c).is_error t ≡ (listed t ts || c.is_error t)
  unfolding fail_all
  fail_all-is_error [] c t = refl
  fail_all-is_error (u ∷ us) c t =
      fail_all-is_error us
        (record c { is_error = update c.is_error u true; ready = c.ready ++ u ∷ [] }) t
      ∙ ground arith

  close_body-is_error :
      (c : Chan T) (t : ℕ)
      → c.closed ≡ false
      → (close_body c).0.is_error t
        ≡ (listed t c.recv_queue || (listed t (tasks c.send_queue) || c.is_error t))
  unfolding close_body
  close_body-is_error c t o =
      let c0 : Chan T = record c { closed = true } in
      let c1 = fail_all (tasks c.send_queue) c0 in
      let (_, _, _, _, r1, _, _) = fail_all-fields (tasks c.send_queue) c0 in
      rw o (
        fail_all-is_error c1.recv_queue (record c1 { send_queue = [] }) t
        ∙ ap (λ (l : List ℕ). listed t l || c1.is_error t) r1
        ∙ ap (λ (b : Bool). listed t c.recv_queue || b)
            (fail_all-is_error (tasks c.send_queue) c0 t))

  finish-ne-threw : (c : Chan T) (b : Bool) → (finish (c, after_suspend b)).1 ≢ threw
  unfolding finish
  finish-ne-threw c true e = ground arith
  finish-ne-threw c false e = ground arith

  -- `Close` on an open channel makes every parked task ready, senders first and each queue in its order,
  -- and sets exactly their `isError` flags (beside those set before); the buffer and what receivers have
  -- been given stay. A woken call returns or hangs in `unlock`, and never throws, whatever its flag says.
  pub close-wakes-all :
      (c : Chan T)
      → c.closed ≡ false
      → let d = (close_body c).0 in
        (d.ready ≡ c.ready ++ tasks c.send_queue ++ c.recv_queue)
        × ((t : ℕ)
            → d.is_error t
              ≡ (listed t c.recv_queue || (listed t (tasks c.send_queue) || c.is_error t)))
        × (d.buffer ≡ c.buffer)
        × (received d ≡ received c)
        × ((t : ℕ) (e : Chan T) → (resume t e).1 ≢ threw)
  unfolding resume
  close-wakes-all c o =
      let (_, _, b, _, _, w, q) = close_open c o in
      (
        q,
        λ t. close_body-is_error c t o,
        b,
        ap (map (λ x. x.1)) w,
        λ t e. finish-ne-threw e (e.is_error t),
      )
