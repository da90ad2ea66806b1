-- ===== src/LfQueue/Safe/Accesses.antt =====
-- Every access of `push` and of `pop` keeps the references sound.
use uring_fiber.Prelude.{ℕ, ◌^◌, ◌<◌, ◌≡◌, ◌≢◌, refl, sym, none, ◌==◌}
use uring_fiber.LfQueue.Packed.{get_ptr}
use uring_fiber.LfQueue.Node.{Memory}
use uring_fiber.LfQueue.Machine.{
  Choice, Pc, push_new, push_load, push_inc, push_data, next_won, next_lost, lost_new, tail_cas,
  free_load, free_cas, release_load, release_cas, push_counted, push_sized, pop_first, pop_second,
  pop_load, pop_inc, pop_tail, pop_next, pop_head, pop_take, pop_counted, pop_sized, pushed, popped,
  fault, step,
}
use uring_fiber.LfQueue.Safe.{Role, Ranks}
use uring_fiber.LfQueue.Safe.Sound.{Safe}
use uring_fiber.LfQueue.Safe.Views.{view, role, Told}
use uring_fiber.LfQueue.Safe.Kept.{Kept, if-Kept, same-Kept}
use uring_fiber.LfQueue.Safe.PushSteps.{
  push_new-Kept, push_inc-Kept, push_data-Kept, next_won-Kept, next_lost-Kept, lost_new-Kept,
}
use uring_fiber.LfQueue.Safe.TailSteps.{tail_cas-Kept}
use uring_fiber.LfQueue.Safe.LeaveSteps.{
  free_load-Kept, free_cas-Kept, release_load-Kept, release_cas-Kept,
}
use uring_fiber.LfQueue.Safe.PopSteps.{
  pop_inc-Kept, pop_tail-Kept, pop_next-Kept, pop_head-Kept, pop_take-Kept,
}

module _ (n : ℕ) (c : Choice) (m : Memory) (k : Ranks) (r : ℕ → Role) (i : ℕ) (few : i < n)
    (many : n < 2 ^ 16) (fresh : m.nodes c.address ≡ none) (some_address : c.address ≢ 0)
    (fits : c.address < 2 ^ 48) (s : Safe n (view m) k r) where
  pub step-Kept : (p : Pc) → r i ≡ role p → Told p → Kept n i r (step c m p)
  unfolding step
  step-Kept (push_new v) was t = push_new-Kept n c m k r i few fresh some_address fits s v was
  step-Kept (push_load v nn) was t =
      same-Kept n m k r i few s m (push_inc v nn m.tail) refl (sym was) t
  step-Kept (push_inc v nn ot) was t =
      push_inc-Kept n c m k r i few fresh some_address fits s v nn ot was t
  step-Kept (push_data v nn ot) was t =
      push_data-Kept n c m k r i few fresh some_address fits s v nn ot was t
  step-Kept (next_won nn ot) was t =
      next_won-Kept n c m k r i few fresh some_address fits s nn ot was t
  step-Kept (next_lost v nn ot) was t =
      next_lost-Kept n c m k r i few fresh some_address fits s v nn ot was t
  step-Kept (lost_new v nn ot) was t =
      lost_new-Kept n c m k r i few fresh some_address fits s v nn ot was t
  step-Kept (tail_cas after ot new current) was t =
      tail_cas-Kept n m k r i few s after ot new current was t c
  step-Kept (free_load kt cnp) was t = free_load-Kept n c m k r i few many s kt cnp was t
  step-Kept (free_cas kt cnp old) was t = free_cas-Kept n c m k r i few many s kt cnp old was t
  step-Kept (release_load kt p) was t = release_load-Kept n c m k r i few many s kt p was t
  step-Kept (release_cas kt p old) was t = release_cas-Kept n c m k r i few many s kt p old was t
  step-Kept push_counted was t = same-Kept n m k r i few s _ push_sized refl (sym was) tt
  step-Kept push_sized was t = same-Kept n m k r i few s _ pushed refl (sym was) tt
  step-Kept pop_first was t = same-Kept n m k r i few s m (pop_second m.head) refl (sym was) tt
  step-Kept (pop_second h) was t =
      if-Kept n i r (get_ptr h == get_ptr m.tail) (m, popped 0) (m, pop_load)
        (λ _. same-Kept n m k r i few s m (popped 0) refl (sym was) tt)
        (λ _. same-Kept n m k r i few s m pop_load refl (sym was) tt)
  step-Kept pop_load was t = same-Kept n m k r i few s m (pop_inc m.head) refl (sym was) tt
  step-Kept (pop_inc oh) was t = pop_inc-Kept n c m k r i few s oh was
  step-Kept (pop_tail oh) was t = pop_tail-Kept n c m k r i few s oh was t
  step-Kept (pop_next oh) was t = pop_next-Kept n c m k r i few s oh was t
  step-Kept (pop_head oh next) was t = pop_head-Kept n c m k r i few s oh next was t
  step-Kept (pop_take oh) was t = pop_take-Kept n c m k r i few s oh was t
  step-Kept (pop_counted res) was t = same-Kept n m k r i few s _ (pop_sized res) refl (sym was) tt
  step-Kept (pop_sized res) was t = same-Kept n m k r i few s _ (popped res) refl (sym was) tt
  step-Kept pushed was t = same-Kept n m k r i few s m pushed refl (sym was) tt
  step-Kept (popped res) was t = same-Kept n m k r i few s m (popped res) refl (sym was) tt
  step-Kept fault was t = absurd t
