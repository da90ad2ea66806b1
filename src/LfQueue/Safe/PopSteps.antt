-- ===== src/LfQueue/Safe/PopSteps.antt =====
-- The accesses of `pop` keep the references sound.
use uring_fiber.Prelude.{
  ℕ, ◌+◌, ◌%◌, ◌^◌, ◌<◌, ◌≡◌, ◌≢◌, refl, ap, ap₂, sym, ◌∙◌, subst, ◌==◌, ==_iff, arith,
}
use uring_fiber.LfQueue.Packed.{get_ptr, get_count}
use uring_fiber.LfQueue.Node.{Memory, set_node}
use uring_fiber.LfQueue.Machine.{
  Choice, pop_null, pop_ends, pop_again, pop_inc, pop_tail, pop_next, pop_head, pop_take, free_load,
  release_load, counted_up, step,
}
use uring_fiber.LfQueue.Safe.{Role, Ranks}
use uring_fiber.LfQueue.Safe.Moves.{head_moved, head_ranked}
use uring_fiber.LfQueue.Safe.Sound.{Safe}
use uring_fiber.LfQueue.Safe.Steps.{at_held, enter_head-Safe}
use uring_fiber.LfQueue.Safe.Moving.{has_moved, move_head-Safe}
use uring_fiber.LfQueue.Safe.Views.{
  next_of, view, role, Told, get_ptr-counted_up, get_count-counted_up,
}
use uring_fiber.LfQueue.Safe.Writes.{view_item}
use uring_fiber.LfQueue.Safe.Kept.{
  Kept, kept, if-Kept, same-Kept, learn-Kept, held_ranked, at_node-Kept,
}

module _ (n : ℕ) (c : Choice) (m : Memory) (k : Ranks) (r : ℕ → Role) (i : ℕ) (few : i < n)
    (s : Safe n (view m) k r) where
  pub pop_inc-Kept : (oh : ℕ) → r i ≡ role (pop_inc oh) → Kept n i r (step c m (pop_inc oh))
  unfolding step
  pop_inc-Kept oh was =
      if-Kept n i r (m.head == oh) (record m { head = counted_up oh }, pop_tail (counted_up oh))
        (m, pop_inc m.head)
        (λ e.
          let is : m.head ≡ oh = (==_iff m.head oh).0 e in
          let same : get_ptr (counted_up oh) ≡ get_ptr m.head =
            get_ptr-counted_up oh ∙ ap get_ptr (sym is) in
          let more : get_count (counted_up oh) ≡ (get_count m.head + 1) % 2 ^ 16 =
            get_count-counted_up oh ∙ ap (λ x. (get_count x + 1) % 2 ^ 16) (sym is) in
          kept n i r (record m { head = counted_up oh }) (pop_tail (counted_up oh)) k
            (record (view m) { head_count = (get_count m.head + 1) % 2 ^ 16 })
            (at_held (get_ptr m.head) 0)
            (ap₂ (λ a b. record (view m) { head = a; head_count = b }) same more)
            (ap (λ a. at_held a 0) same)
            (λ z. s.shape.positive (get_ptr m.head) s.shape.head_alive (sym same ∙ z))
            (enter_head-Safe n (view m) k r i 0 few was s))
        (λ e. same-Kept n m k r i few s m (pop_inc m.head) refl (sym was) tt)

  pub pop_tail-Kept :
      (oh : ℕ) → r i ≡ role (pop_tail oh) → get_ptr oh ≢ 0 → Kept n i r (step c m (pop_tail oh))
  unfolding step
  pop_tail-Kept oh was some_ptr =
      let a = get_ptr oh in
      let held : (r i).held ≡ a = ap (λ (q : Role). q.held) was in
      let (there, some_rank, most) = held_ranked n m k r i few s a held some_ptr in
      if-Kept n i r (a == get_ptr m.tail) (m, release_load pop_null a) (m, pop_next oh)
        (λ _. same-Kept n m k r i few s m (release_load pop_null a) refl (sym was) (some_ptr, tt))
        (λ e.
          let apart : k.rank a ≢ k.last = λ z.
            let same : a ≡ get_ptr m.tail =
              s.shape.unique a (get_ptr m.tail) there s.shape.tail_alive some_rank
                (z ∙ sym s.shape.tail_rank) in
            cc ((==_iff a (get_ptr m.tail)).1 same) in
          learn-Kept n m k r i few s (pop_next oh) (sym held)
            (ap (λ (q : Role). q.hands_in) (sym was)) (ap (λ (q : Role). q.share) (sym was))
            (ap (λ (q : Role). q.owns) (sym was)) (λ z. absurd (z refl))
            (λ _. (some_ptr, omega (arith, most, apart))) some_ptr)

  pub pop_next-Kept :
      (oh : ℕ) → r i ≡ role (pop_next oh) → get_ptr oh ≢ 0 → Kept n i r (step c m (pop_next oh))
  unfolding step
  pop_next-Kept oh was some_ptr =
      let a = get_ptr oh in
      let held : (r i).held ≡ a = ap (λ (q : Role). q.held) was in
      at_node-Kept n m k r i few s a _ held some_ptr λ nd at.
        let (there, some_rank, _) = held_ranked n m k r i few s a held some_ptr in
        let (_, low) = (s.sound.fine i).trails (ap (λ (q : Role). q.behind) was) in
        let lower : k.rank a < k.last = subst (λ x. k.rank x < k.last) held low in
        let next : (view m).next a ≡ nd.next = ap next_of at in
        learn-Kept n m k r i few s (pop_head oh nd.next) (sym held)
          (ap (λ (q : Role). q.hands_in) (sym was)) (ap (λ (q : Role). q.share) (sym was))
          (ap (λ (q : Role). q.owns) (sym was)) (λ _. (some_ptr, next)) (λ _. (some_ptr, lower))
          (some_ptr, λ z. s.shape.linked a there some_rank lower (next ∙ z))

  pub pop_head-Kept :
      (oh next : ℕ)
      → r i ≡ role (pop_head oh next)
      → Told (pop_head oh next)
      → Kept n i r (step c m (pop_head oh next))
  unfolding step
  pop_head-Kept oh next was (some_ptr, some_next) =
      let a = get_ptr oh in
      let held : (r i).held ≡ a = ap (λ (q : Role). q.held) was in
      if-Kept n i r (m.head == oh) (record m { head = next }, pop_take oh)
        (m, release_load (pop_again m.head) a)
        (λ e.
          let is : m.head ≡ oh = (==_iff m.head oh).0 e in
          let at_head : (r i).held ≡ get_ptr m.head = held ∙ ap get_ptr (sym is) in
          let successor : (r i).successor ≡ next = ap (λ (q : Role). q.successor) was in
          let (some_held, reads) = (s.sound.fine i).reads (λ z. some_next (sym successor ∙ z)) in
          let leads : (view m).next (get_ptr m.head) ≡ next =
            ap (view m).next (sym at_head) ∙ reads ∙ successor in
          let (_, low) = (s.sound.fine i).trails (ap (λ (q : Role). q.behind) was) in
          let lower : k.first < k.last = omega (arith, low, ap k.rank at_head, s.shape.head_rank) in
          kept n i r (record m { head = next }) (pop_take oh) (head_ranked k) (head_moved (view m))
            (has_moved (get_count m.head) (r i))
            (ap (λ w. record (view m) { head = get_ptr w; head_count = get_count w }) (sym leads))
            (ap₂ has_moved (ap get_count (sym is)) (sym was)) some_ptr
            (move_head-Safe n (view m) k r i few at_head (ap (λ (q : Role). q.hands_in) was) lower
              s))
        (λ e.
          learn-Kept n m k r i few s (release_load (pop_again m.head) a) (sym held)
            (ap (λ (q : Role). q.hands_in) (sym was)) (ap (λ (q : Role). q.share) (sym was))
            (ap (λ (q : Role). q.owns) (sym was)) (λ z. absurd (z refl)) (λ z. cc z) (some_ptr, tt))

  pub pop_take-Kept :
      (oh : ℕ) → r i ≡ role (pop_take oh) → get_ptr oh ≢ 0 → Kept n i r (step c m (pop_take oh))
  unfolding step
  pop_take-Kept oh was some_ptr =
      let a = get_ptr oh in
      at_node-Kept n m k r i few s a _ (ap (λ (q : Role). q.held) was) some_ptr λ nd at.
        same-Kept n m k r i few s (set_node a (record nd { item = 0 }) m)
          (free_load (pop_ends nd.item) oh) (view_item m a nd (record nd { item = 0 }) at refl refl)
          (sym was) (some_ptr, tt)
