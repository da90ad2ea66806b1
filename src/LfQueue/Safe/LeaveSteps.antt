-- ===== src/LfQueue/Safe/LeaveSteps.antt =====
-- `free_external_counter` and `release_ref` keep the references sound.
use uring_fiber.Prelude.{
  ℕ, ◌+◌, ◌-◌, ◌%◌, ◌^◌, ◌<◌, ◌≤◌, ◌≡◌, refl, ap, sym, ◌∙◌, subst, true, update, arith,
}
use uring_fiber.LfQueue.Packed.{get_ptr, get_count}
use uring_fiber.LfQueue.Node.{Counter, Memory, same_counter, released, external_freed}
use uring_fiber.LfQueue.Machine.{
  Choice, Kont, free_load, free_cas, release_load, release_cas, count_set, step,
}
use uring_fiber.LfQueue.Safe.{Role, Ranks}
use uring_fiber.LfQueue.Safe.Sound.{Safe}
use uring_fiber.LfQueue.Safe.Moves.{with_counts}
use uring_fiber.LfQueue.Safe.Steps.{only_owns}
use uring_fiber.LfQueue.Safe.Leaving.{release-Safe, hand_in-Safe}
use uring_fiber.LfQueue.Safe.Views.{internal_of, external_of, view, role, Told}
use uring_fiber.LfQueue.Safe.Kept.{Kept, if-Kept, same-Kept, at_node-Kept, count_set-Kept}

same_counter-internal : (a b : Counter) → same_counter a b ≡ true → a.internal ≡ b.internal
same_counter-internal a b e = ground (arith, e)

same_counter-external : (a b : Counter) → same_counter a b ≡ true → a.external ≡ b.external
same_counter-external a b e = ground (arith, e)

-- The internal count after `free_external_counter`, without the wrap-around of 30 bits.
freed-internal :
    (x y c : ℕ) → x ≡ y → ((y + c + 2 ^ 30 - 2) % 2 ^ 30 + 2) % 2 ^ 16 ≡ (x + c) % 2 ^ 16
freed-internal x y c e = omega (arith, e)

released-internal : (x y : ℕ) → x ≡ y → ((y + 2 ^ 30 - 1) % 2 ^ 30 + 1) % 2 ^ 16 ≡ x % 2 ^ 16
released-internal x y e = omega (arith, e)

freed-external : (x y : ℕ) → x ≡ y → 1 ≤ x → x ≤ 2 → (y + 3) % 4 + 1 ≡ x
freed-external x y e low high = omega (arith, e, low, high)

module _ (n : ℕ) (c : Choice) (m : Memory) (k : Ranks) (r : ℕ → Role) (i : ℕ) (few : i < n)
    (many : n < 2 ^ 16) (s : Safe n (view m) k r) (kt : Kont) where
  pub free_load-Kept :
      (cnp : ℕ)
      → r i ≡ role (free_load kt cnp)
      → Told (free_load kt cnp)
      → Kept n i r (step c m (free_load kt cnp))
  unfolding step
  free_load-Kept cnp was (some_ptr, told) =
      at_node-Kept n m k r i few s (get_ptr cnp) _ (ap (λ (q : Role). q.held) was) some_ptr λ nd at.
        same-Kept n m k r i few s m (free_cas kt cnp nd.count) refl (sym was) (some_ptr, told)

  pub free_cas-Kept :
      (cnp : ℕ) (old : Counter)
      → r i ≡ role (free_cas kt cnp old)
      → Told (free_cas kt cnp old)
      → Kept n i r (step c m (free_cas kt cnp old))
  unfolding step external_freed
  free_cas-Kept cnp old was (some_ptr, told) =
      let a = get_ptr cnp in
      let held : (r i).held ≡ a = ap (λ (q : Role). q.held) was in
      at_node-Kept n m k r i few s a _ held some_ptr λ nd at.
        if-Kept n i r (same_counter nd.count old) (count_set kt a nd (external_freed cnp old) m)
          (m, free_cas kt cnp nd.count)
          (λ e.
            let now = external_freed cnp old in
            let internal : (view m).internal a ≡ old.internal =
              ap internal_of at ∙ same_counter-internal nd.count old e in
            let external : (view m).external a ≡ old.external =
              ap external_of at ∙ same_counter-external nd.count old e in
            let share : (r i).share ≡ get_count cnp = ap (λ (q : Role). q.share) was in
            count_set-Kept n m k r i few s kt a nd now many at held some_ptr
              (ap (λ (q : Role). q.owns) was) told
              (hand_in-Safe n (view m) k r i a few held some_ptr s now.internal now.external
                (ap (λ (q : Role). q.hands_in) was)
                (freed-internal ((view m).internal a) old.internal (get_count cnp) internal
                  ∙ ap (λ x. ((view m).internal a + x) % 2 ^ 16) (sym share))
                (freed-external ((view m).external a) old.external external)))
          (λ _.
            same-Kept n m k r i few s m (free_cas kt cnp nd.count) refl (sym was) (some_ptr, told))

  pub release_load-Kept :
      (p : ℕ)
      → r i ≡ role (release_load kt p)
      → Told (release_load kt p)
      → Kept n i r (step c m (release_load kt p))
  unfolding step
  release_load-Kept p was (some_ptr, told) =
      at_node-Kept n m k r i few s p _ (ap (λ (q : Role). q.held) was) some_ptr λ nd at.
        same-Kept n m k r i few s m (release_cas kt p nd.count) refl (sym was) (some_ptr, told)

  pub release_cas-Kept :
      (p : ℕ) (old : Counter)
      → r i ≡ role (release_cas kt p old)
      → Told (release_cas kt p old)
      → Kept n i r (step c m (release_cas kt p old))
  unfolding step released
  release_cas-Kept p old was (some_ptr, told) =
      let held : (r i).held ≡ p = ap (λ (q : Role). q.held) was in
      at_node-Kept n m k r i few s p _ held some_ptr λ nd at.
        if-Kept n i r (same_counter nd.count old) (count_set kt p nd (released old) m)
          (m, release_cas kt p nd.count)
          (λ e.
            let now = released old in
            let internal : (view m).internal p ≡ old.internal =
              ap internal_of at ∙ same_counter-internal nd.count old e in
            let external : (view m).external p ≡ old.external =
              ap external_of at ∙ same_counter-external nd.count old e in
            count_set-Kept n m k r i few s kt p nd now many at held some_ptr
              (ap (λ (q : Role). q.owns) was) told
              (subst
                (λ x.
                  Safe n (with_counts p now.internal x (view m)) k
                    (update r i (only_owns (r i).owns)))
                external
                (release-Safe n (view m) k r i p few held some_ptr s now.internal
                  (ap (λ (q : Role). q.hands_in) was)
                  (released-internal ((view m).internal p) old.internal internal))))
          (λ _.
            same-Kept n m k r i few s m (release_cas kt p nd.count) refl (sym was) (some_ptr, told))
