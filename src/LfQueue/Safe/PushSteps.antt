-- ===== src/LfQueue/Safe/PushSteps.antt =====
-- The accesses of `push` keep the references sound.
use uring_fiber.Prelude.{
  ℕ, ◌+◌, ◌%◌, ◌^◌, ◌<◌, ◌≡◌, ◌≢◌, refl, ap, ap₂, sym, ◌∙◌, subst, none, some, update, ◌==◌, ==_iff,
  arith,
}
use uring_fiber.LfQueue.Packed.{get_ptr, get_count, set_ptr, get_ptr-pack, get_count-pack}
use uring_fiber.LfQueue.Words.{link_to_lem}
use uring_fiber.LfQueue.Node.{Node, Memory, set_node}
use uring_fiber.LfQueue.Machine.{
  Choice, won, lost, Pc, push_new, push_load, push_inc, push_data, next_won, next_lost, lost_new,
  tail_cas, counted_up, link_to, step,
}
use uring_fiber.LfQueue.Safe.{Role, Ranks}
use uring_fiber.LfQueue.Safe.Link.{with_next}
use uring_fiber.LfQueue.Safe.Sound.{Safe}
use uring_fiber.LfQueue.Safe.Steps.{at_held, enter_tail-Safe}
use uring_fiber.LfQueue.Safe.Nodes.{owns_none, drop-Safe}
use uring_fiber.LfQueue.Safe.Linking.{link-Safe}
use uring_fiber.LfQueue.Safe.Views.{
  next_of, view, role, Told, get_ptr-counted_up, get_count-counted_up, get_ptr-set_ptr,
  get_count-set_ptr,
}
use uring_fiber.LfQueue.Safe.Writes.{view_next, view_item, view-without-Safe}
use uring_fiber.LfQueue.Safe.Kept.{
  Kept, kept, if-Kept, same-Kept, learn-Kept, at_node-Kept, new-Kept,
}

pub nonzero_word : (w a : ℕ) → get_ptr w ≡ a → a ≢ 0 → w ≢ 0
unfolding get_ptr
nonzero_word w a is some_a z = some_a (sym is ∙ ap get_ptr z)

module _ (n : ℕ) (c : Choice) (m : Memory) (k : Ranks) (r : ℕ → Role) (i : ℕ) (few : i < n)
    (fresh : m.nodes c.address ≡ none) (some_address : c.address ≢ 0) (fits : c.address < 2 ^ 48)
    (s : Safe n (view m) k r) where
  pub push_new-Kept : (v : ℕ) → r i ≡ role (push_new v) → Kept n i r (step c m (push_new v))
  unfolding step
  push_new-Kept v was =
      let w = link_to c.local c.address in
      let is : get_ptr w ≡ c.address =
        ap get_ptr (link_to_lem c.local c.address fits) ∙ get_ptr-pack c.address 1 fits in
      let one : get_count w ≡ 1 =
        ap get_count (link_to_lem c.local c.address fits)
        ∙ get_count-pack c.address 1 fits (omega arith) in
      new-Kept n m k r i few s c.address c.garbage w (push_load v w) fresh some_address is one
        (ap (λ (q : Role). record q { owns = w }) (sym was))
        (nonzero_word w c.address is some_address)

  pub push_inc-Kept :
      (v nn ot : ℕ)
      → r i ≡ role (push_inc v nn ot)
      → nn ≢ 0
      → Kept n i r (step c m (push_inc v nn ot))
  unfolding step
  push_inc-Kept v nn ot was some_nn =
      if-Kept n i r (m.tail == ot)
        (record m { tail = counted_up ot }, push_data v nn (counted_up ot))
        (m, push_inc v nn m.tail)
        (λ e.
          let is : m.tail ≡ ot = (==_iff m.tail ot).0 e in
          let same : get_ptr (counted_up ot) ≡ get_ptr m.tail =
            get_ptr-counted_up ot ∙ ap get_ptr (sym is) in
          let more : get_count (counted_up ot) ≡ (get_count m.tail + 1) % 2 ^ 16 =
            get_count-counted_up ot ∙ ap (λ x. (get_count x + 1) % 2 ^ 16) (sym is) in
          kept n i r (record m { tail = counted_up ot }) (push_data v nn (counted_up ot)) k
            (record (view m) { tail_count = (get_count m.tail + 1) % 2 ^ 16 })
            (at_held (get_ptr m.tail) nn)
            (ap₂ (λ a b. record (view m) { tail = a; tail_count = b }) same more)
            (ap (λ a. at_held a nn) same)
            (some_nn, λ z. s.shape.positive (get_ptr m.tail) s.shape.tail_alive (sym same ∙ z))
            (enter_tail-Safe n (view m) k r i nn few was s))
        (λ e. same-Kept n m k r i few s m (push_inc v nn m.tail) refl (sym was) some_nn)

  pub push_data-Kept :
      (v nn ot : ℕ)
      → r i ≡ role (push_data v nn ot)
      → Told (push_data v nn ot)
      → Kept n i r (step c m (push_data v nn ot))
  unfolding step
  push_data-Kept v nn ot was (some_nn, some_ot) =
      at_node-Kept n m k r i few s (get_ptr ot) _ (ap (λ (q : Role). q.held) was) some_ot λ nd at.
        if-Kept n i r (nd.item == 0)
          (set_node (get_ptr ot) (record nd { item = v }) m, next_won nn ot) (m, next_lost v nn ot)
          (λ _.
            same-Kept n m k r i few s (set_node (get_ptr ot) (record nd { item = v }) m)
              (next_won nn ot) (view_item m (get_ptr ot) nd (record nd { item = v }) at refl refl)
              (sym was) (some_nn, some_ot))
          (λ _. same-Kept n m k r i few s m (next_lost v nn ot) refl (sym was) (some_nn, some_ot))

  -- The thread's node becomes the successor.
  linked-Kept :
      (w ot : ℕ) (nd : Node) (p : Pc)
      → r i ≡ at_held (get_ptr ot) w
      → w ≢ 0
      → get_ptr ot ≢ 0
      → m.nodes (get_ptr ot) ≡ some nd
      → nd.next ≡ 0
      → role p ≡ owns_none w (at_held (get_ptr ot) w)
      → Told p
      → Kept n i r (set_node (get_ptr ot) (record nd { next = w }) m, p)
  linked-Kept w ot nd p was some_w some_ot at silent is t =
      let held : (r i).held ≡ get_ptr ot = ap (λ (q : Role). q.held) was in
      let (k', safe) =
        link-Safe n (view m) k r i w few (ap (λ (q : Role). q.owns) was) some_w
          (λ z. some_ot (sym held ∙ z)) (ap (view m).next held ∙ ap next_of at ∙ silent) s in
      kept n i r (set_node (get_ptr ot) (record nd { next = w }) m) p k'
        (with_next (r i).held w (view m)) (owns_none w (r i))
        (view_next m (get_ptr ot) nd (record nd { next = w }) at refl
          ∙ ap (λ a. with_next a w (view m)) (sym held))
        (is ∙ ap (owns_none w) (sym was)) t safe

  pub next_won-Kept :
      (nn ot : ℕ)
      → r i ≡ role (next_won nn ot)
      → Told (next_won nn ot)
      → Kept n i r (step c m (next_won nn ot))
  unfolding step
  next_won-Kept nn ot was (some_nn, some_ot) =
      let a = get_ptr ot in
      let held : (r i).held ≡ a = ap (λ (q : Role). q.held) was in
      at_node-Kept n m k r i few s a _ held some_ot λ nd at.
        if-Kept n i r (nd.next == 0) (set_node a (record nd { next = nn }) m, tail_cas won ot nn a)
          (record m { nodes = update m.nodes (get_ptr nn) none }, tail_cas won ot nd.next a)
          (λ e.
            linked-Kept nn ot nd (tail_cas won ot nn a) was some_nn some_ot at
              ((==_iff nd.next 0).0 e) refl (some_nn, refl, some_ot, tt))
          (λ e.
            let m' = record m { nodes = update m.nodes (get_ptr nn) none } in
            let some_next : nd.next ≢ 0 = λ z. cc ((==_iff nd.next 0).1 z) in
            kept n i r m' (tail_cas won ot nd.next a) k (view m') (owns_none nd.next (r i)) refl
              (ap (owns_none nd.next) (sym was)) (some_next, refl, some_ot, tt)
              (view-without-Safe n m k (update r i (owns_none nd.next (r i))) (get_ptr nn) (
                drop-Safe n (view m) k r i nn nd.next few (ap (λ (q : Role). q.owns) was) some_nn
                  (λ _. (λ z. some_ot (sym held ∙ z), ap (view m).next held ∙ ap next_of at)) s)))

  pub next_lost-Kept :
      (v nn ot : ℕ)
      → r i ≡ role (next_lost v nn ot)
      → Told (next_lost v nn ot)
      → Kept n i r (step c m (next_lost v nn ot))
  unfolding step
  next_lost-Kept v nn ot was (some_nn, some_ot) =
      let a = get_ptr ot in
      at_node-Kept n m k r i few s a _ (ap (λ (q : Role). q.held) was) some_ot λ nd at.
        if-Kept n i r (nd.next == 0) (set_node a (record nd { next = nn }) m, lost_new v nn ot)
          (m, tail_cas (lost v nn) ot nd.next a)
          (λ e.
            linked-Kept nn ot nd (lost_new v nn ot) was some_nn some_ot at ((==_iff nd.next 0).0 e)
              refl (some_nn, some_ot))
          (λ e.
            let some_next : nd.next ≢ 0 = λ z. cc ((==_iff nd.next 0).1 z) in
            learn-Kept n m k r i few s (tail_cas (lost v nn) ot nd.next a)
              (ap (λ (q : Role). q.held) (sym was)) (ap (λ (q : Role). q.hands_in) (sym was))
              (ap (λ (q : Role). q.share) (sym was)) (ap (λ (q : Role). q.owns) (sym was))
              (λ _. (some_ot, ap next_of at)) (λ z. cc z) (some_next, refl, some_ot, some_nn))

  pub lost_new-Kept :
      (v nn ot : ℕ)
      → r i ≡ role (lost_new v nn ot)
      → Told (lost_new v nn ot)
      → Kept n i r (step c m (lost_new v nn ot))
  unfolding step
  lost_new-Kept v nn ot was (some_nn, some_ot) =
      let w = set_ptr nn c.address in
      let is = get_ptr-set_ptr nn c.address fits in
      let held : (r i).held ≡ get_ptr ot = ap (λ (q : Role). q.held) was in
      let successor : (r i).successor ≡ nn = ap (λ (q : Role). q.successor) was in
      let (some_held, reads) = (s.sound.fine i).reads (λ z. some_nn (sym successor ∙ z)) in
      let (there, _, _) = (s.sound.fine i).holds some_held in
      let next : (view m).next (r i).held ≡ nn = reads ∙ successor in
      let one : get_count nn ≡ 1 =
        subst (λ x. get_count x ≡ 1) next
          (s.shape.single (r i).held there (λ z. some_nn (sym next ∙ z))) in
      new-Kept n m k r i few s c.address c.garbage w (tail_cas (lost v w) ot nn (get_ptr ot)) fresh
        some_address is (get_count-set_ptr nn c.address fits ∙ one)
        (ap (λ (q : Role). record q { owns = w }) (sym was))
        (some_nn, refl, some_ot, nonzero_word w c.address is some_address)
