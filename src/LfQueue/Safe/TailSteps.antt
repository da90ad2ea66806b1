-- ===== src/LfQueue/Safe/TailSteps.antt =====
-- `set_new_tail` keeps the references sound.
use uring_fiber.Prelude.{ℕ, ◌<◌, ◌≡◌, refl, ap, ap₂, sym, ◌∙◌, ◌==◌, ==_iff, Bool-cases, inl, inr}
use uring_fiber.LfQueue.Packed.{get_ptr, get_count}
use uring_fiber.LfQueue.Node.{Memory}
use uring_fiber.LfQueue.Machine.{
  Choice, After, won, lost, tail_cas, free_load, release_load, kont_of, tail_set, step,
}
use uring_fiber.LfQueue.Safe.{Role, Ranks}
use uring_fiber.LfQueue.Safe.Moves.{tail_moved, tail_ranked}
use uring_fiber.LfQueue.Safe.Sound.{Safe}
use uring_fiber.LfQueue.Safe.Steps.{at_held}
use uring_fiber.LfQueue.Safe.Moving.{has_moved, move_tail-Safe}
use uring_fiber.LfQueue.Safe.Views.{view, spare, handing_in, role, Told, AfterTold, SpareTold}
use uring_fiber.LfQueue.Safe.Kept.{Kept, kept, same-Kept, learn-Kept}

-- The word that a thread has for its next node, in `set_new_tail`.
abbrev word_of : After → ℕ
word_of won = 0
word_of (lost v nn) = nn

role-tail_cas :
    (after : After) (ot new current : ℕ)
    → role (tail_cas after ot new current)
      ≡ record (at_held current (word_of after)) { successor = new }
role-tail_cas won ot new current = refl
role-tail_cas (lost v nn) ot new current = refl

spare-kont_of : (after : After) (ot : ℕ) → spare (kont_of after ot) ≡ word_of after
spare-kont_of won ot = refl
spare-kont_of (lost v nn) ot = refl

SpareTold-kont_of : (after : After) (ot : ℕ) → AfterTold after → SpareTold (kont_of after ot)
SpareTold-kont_of won ot t = t
SpareTold-kont_of (lost v nn) ot t = t

module _ (n : ℕ) (m : Memory) (k : Ranks) (r : ℕ → Role) (i : ℕ) (few : i < n)
    (s : Safe n (view m) k r) (after : After) (ot new current : ℕ)
    (before : r i ≡ role (tail_cas after ot new current))
    (told : Told (tail_cas after ot new current)) where
  was : r i ≡ record (at_held current (word_of after)) { successor = new }
  was = before ∙ role-tail_cas after ot new current

  held : (r i).held ≡ current
  held = ap (λ (q : Role). q.held) was

  -- Another round of the loop.
  again-Kept : get_ptr m.tail ≡ current → Kept n i r (m, tail_cas after m.tail new current)
  again-Kept leads =
      let (some_new, _, some_current, rest) = told in
      same-Kept n m k r i few s m (tail_cas after m.tail new current) refl
        (role-tail_cas after m.tail new current ∙ sym was) (some_new, leads, some_current, rest)

  -- The tail moves on.
  moved-Kept : m.tail ≡ ot → Kept n i r (record m { tail = new }, free_load (kont_of after ot) ot)
  moved-Kept is =
      let (some_new, leads, some_current, rest) = told in
      let at_tail : (r i).held ≡ get_ptr m.tail = held ∙ sym leads ∙ ap get_ptr (sym is) in
      let successor : (r i).successor ≡ new = ap (λ (q : Role). q.successor) was in
      let (some_held, reads) = (s.sound.fine i).reads (λ z. some_new (sym successor ∙ z)) in
      let next : (view m).next (get_ptr m.tail) ≡ new =
        ap (view m).next (sym at_tail) ∙ reads ∙ successor in
      kept n i r (record m { tail = new }) (free_load (kont_of after ot) ot) (tail_ranked k)
        (tail_moved (view m)) (has_moved (get_count m.tail) (r i))
        (ap (λ w. record (view m) { tail = get_ptr w; tail_count = get_count w }) (sym next))
        (ap (handing_in ot) (spare-kont_of after ot)
          ∙ ap (λ x. has_moved (get_count ot) (at_held x (word_of after))) leads
          ∙ ap₂ has_moved (ap get_count (sym is)) (sym was))
        (λ z. some_current (sym leads ∙ z), SpareTold-kont_of after ot rest)
        (move_tail-Safe n (view m) k r i few at_tail (ap (λ (q : Role). q.hands_in) was)
          (λ z. some_new (sym next ∙ z)) s)

  -- Another thread has moved it.
  overtaken-Kept : Kept n i r (m, release_load (kont_of after m.tail) current)
  overtaken-Kept =
      let (_, _, some_current, rest) = told in
      learn-Kept n m k r i few s (release_load (kont_of after m.tail) current) (sym held)
        (ap (λ (q : Role). q.hands_in) (sym was)) (ap (λ (q : Role). q.share) (sym was))
        (spare-kont_of after m.tail ∙ ap (λ (q : Role). q.owns) (sym was)) (λ z. absurd (z refl))
        (λ z. cc z) (some_current, SpareTold-kont_of after m.tail rest)

  pub tail_cas-Kept : (c : Choice) → Kept n i r (step c m (tail_cas after ot new current))
  unfolding step tail_set
  tail_cas-Kept c =
      let (_, leads, _, _) = told in
      elim (Bool-cases (m.tail == ot)) [
        | inl e ↦ elim (Bool-cases c.spurious) [
          | inl f ↦ rw (e, f) (again-Kept (ap get_ptr ((==_iff m.tail ot).0 e) ∙ leads))
          | inr f ↦
              rw (e, f, (==_iff (get_ptr ot) current).1 leads) (moved-Kept ((==_iff m.tail ot).0 e))
        ]
        | inr e ↦ elim (Bool-cases (get_ptr m.tail == current)) [
          | inl f ↦ rw (e, f) (again-Kept ((==_iff (get_ptr m.tail) current).0 f))
          | inr f ↦ rw (e, f) overtaken-Kept
        ]
      ]
