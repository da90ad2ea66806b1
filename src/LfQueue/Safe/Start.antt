-- ===== src/LfQueue/Safe/Start.antt =====
-- A new `LFQueue`, with every thread outside of it: the references are sound.
use uring_fiber.Prelude.{
  ℕ, zero, suc, ◌+◌, ◌%◌, ◌^◌, ◌<◌, ◌≤◌, ◌≡◌, ◌≢◌, refl, ap, ap₂, sym, ◌∙◌, subst, true, false,
  none, some, update, update-same, ◌==◌, ==_iff, Bool-cases, inl, inr, if◌then◌else◌, arith,
}
use uring_fiber.LfQueue.Packed.{get_ptr, get_count, get_ptr-pack, get_count-pack}
use uring_fiber.LfQueue.Words.{link_to_lem}
use uring_fiber.LfQueue.Node.{new_node}
use uring_fiber.LfQueue.Machine.{Choice, link_to, make}
use uring_fiber.LfQueue.Safe.{
  Role, away, View, Ranks, tally, refers, handing, shares, anchors, counts_at, words_at,
}
use uring_fiber.LfQueue.Safe.Shape.{Shape, update-eq}
use uring_fiber.LfQueue.Safe.Sound.{Counted, Safe}
use uring_fiber.LfQueue.Safe.Views.{is_there, next_of, internal_of, external_of, view, map_update}

-- One node, the first in rank, is head and tail.
abbrev first_view : ℕ → View
first_view a = record {
  tail = a;
  tail_count = 1;
  head = a;
  head_count = 1;
  alive = update (λ _. false) a true;
  next = update (λ _. 0) a 0;
  internal = update (λ _. 0) a 0;
  external = update (λ _. 0) a 2;
}

abbrev first_ranks : ℕ → Ranks
first_ranks a = record { rank = update (λ _. 0) a 1; last = 1; first = 1 }

only : (a p : ℕ) → update (λ _. false) a true p ≡ true → (a == p) ≡ true
only a p l = elim (Bool-cases (a == p)) [
  | inl e ↦ e
  | inr e ↦ cc (sym (subst (λ b. (if b then true else false) ≡ true) e l))
]

update-zero : (a p : ℕ) → ◌≡◌ {A = ℕ} (update (λ _. 0) a 0 p) 0
update-zero a p = elim (Bool-cases (a == p)) [ inl e ↦ rw e refl | inr e ↦ rw e refl ]

first-Shape : (a : ℕ) → a ≢ 0 → Shape (first_view a) (first_ranks a)
first-Shape a some_a =
    let v = first_view a in
    let k = first_ranks a in
    let one : (p : ℕ) → v.alive p ≡ true → k.rank p ≡ 1 =
      λ p l. update-eq (λ _. 0) a p 1 (only a p l) in
    record {
      tail_alive = update-same (λ _. false) a true;
      tail_rank = update-same (λ _. 0) a 1;
      head_alive = update-same (λ _. false) a true;
      head_rank = update-same (λ _. 0) a 1;
      order = (omega arith, omega arith);
      positive = λ p l z. some_a ((==_iff a p).0 (only a p l) ∙ z);
      unique = λ p q l l' _ _. sym ((==_iff a p).0 (only a p l)) ∙ (==_iff a q).0 (only a q l');
      limit = λ p l. omega (arith, one p l);
      beyond = λ p l e. absurd (omega (arith, one p l, e));
      linked = λ p l some_rank low. absurd (omega (arith, one p l, low));
      ends = λ p l high. update-zero a p;
      single = λ p l has. absurd (has (update-zero a p));
      succeeds = λ p l high has. absurd (has (update-zero a p));
      unlinked = λ p l e. absurd (omega (arith, one p l, e));
    }

tally-away : (n : ℕ) (f : Role → ℕ) → f away ≡ 0 → tally n f (λ _. away) ≡ 0
tally-away zero f e = refl
tally-away (suc n) f e = let rest = tally-away n f e in omega (arith, e, rest)

module _ (n a : ℕ) (some_a : a ≢ 0) where
  not_null : (0 == a) ≡ false
  not_null = ground (arith, some_a)

  nobody : (f : ℕ → Role → ℕ) → f a away ≡ 0 → tally n (f a) (λ _. away) ≡ 0
  nobody f e = tally-away n (f a) e

  first-Counted : Counted n (first_view a) (first_ranks a) (λ _. away)
  first-Counted =
      let v = first_view a in
      let k = first_ranks a in
      let r : ℕ → Role = λ _. away in
      let rank : k.rank a ≡ 1 = update-same (λ _. 0) a 1 in
      let hands : tally n (handing a) r ≡ 0 = tally-away n (handing a) (rw not_null refl) in
      let given : tally n (shares a) r ≡ 0 = tally-away n (shares a) (rw not_null refl) in
      let refer : tally n (refers a) r ≡ 0 = tally-away n (refers a) (rw not_null refl) in
      let two : v.external a ≡ 2 = update-same (λ _. 0) a 2 in
      let here : (a == a) ≡ true = (==_iff a a).1 refl in
      let is : (p : ℕ) → v.alive p ≡ true → a ≡ p = λ p l. (==_iff a p).0 (only a p l) in
      record {
        externals = λ p l _.
            subst (λ x. v.external x ≡ anchors k x + tally n (handing x) r) (is p l)
              (two ∙ sym (rw (hands, rank) refl));
        bounded = λ p l _. subst (λ x. v.external x ≤ 2) (is p l) (omega (arith, two));
        internals = λ p l _.
            subst
              (λ x.
                (counts_at v x + tally n (shares x) r) % 2 ^ 16
                ≡ (tally n (refers x) r + words_at v x + tally n (handing x) r) % 2 ^ 16)
              (is p l) (rw (hands, given, refer, here) refl);
      }

  first-Safe : Safe n (first_view a) (first_ranks a) (λ _. away)
  first-Safe = record {
    shape = first-Shape a some_a;
    sound = record {
      fine = λ i. record {
        holds = λ z. absurd (z refl);
        owning = λ z. absurd (z refl);
        reads = λ z. absurd (z refl);
        trails = λ z. cc z;
      };
      apart = λ i j own _ _. absurd (own refl);
      idle = λ i _. refl;
    };
    counted = first-Counted;
  }

view-make : (c : Choice) → c.address < 2 ^ 48 → view (make c) ≡ first_view c.address
unfolding make new_node
view-make c fits =
    let w = link_to c.local c.address in
    let a = c.address in
    let is : get_ptr w ≡ a = ap get_ptr (link_to_lem c.local a fits) ∙ get_ptr-pack a 1 fits in
    let one : get_count w ≡ 1 =
      ap get_count (link_to_lem c.local a fits) ∙ get_count-pack a 1 fits (omega arith) in
    let nd = some (new_node c.garbage) in
    ap₂ (λ x y. record (view (make c)) { tail = x; tail_count = y; head = x; head_count = y }) is
      one
    ∙ ap₂
        (λ x y. record (first_view a) {
          alive = x;
          next = y;
          internal = λ p. internal_of (update (λ _. none) a nd p);
          external = λ p. external_of (update (λ _. none) a nd p);
        })
        (map_update is_there (λ _. none) a nd) (map_update next_of (λ _. none) a nd)
    ∙ ap₂ (λ x y. record (first_view a) { internal = x; external = y })
        (map_update internal_of (λ _. none) a nd) (map_update external_of (λ _. none) a nd)

pub make-Safe :
    (n : ℕ) (c : Choice)
    → c.address ≢ 0
    → c.address < 2 ^ 48
    → (k : Ranks) × Safe n (view (make c)) k (λ _. away)
make-Safe n c some_address fits = (
  first_ranks c.address,
  subst (λ v. Safe n v (first_ranks c.address) (λ _. away)) (sym (view-make c fits))
      (first-Safe n c.address some_address),
)
