-- ===== src/LfQueue/Safe/Leaving.antt =====
-- Accesses that keep the references sound: a thread takes its reference back, and deletes a node that is unused.
use uring_fiber.Prelude.{
  ℕ, ◌+◌, ◌%◌, ◌^◌, ◌<◌, ◌≤◌, ◌≡◌, ◌≢◌, refl, ap, sym, ◌∙◌, true, false, update, ◌==◌, ==_iff, leb,
  Bool-cases, inl, inr, arith,
}
use uring_fiber.LfQueue.Packed.{get_ptr}
use uring_fiber.LfQueue.Safe.{
  Role, View, Ranks, bit, tally, refers, handing, shares, counts_at, words_at,
}
use uring_fiber.LfQueue.Safe.Tally.{tally-part, tally-zero, tally-bound, tally-follows}
use uring_fiber.LfQueue.Safe.Shape.{update-eq, update-ne}
use uring_fiber.LfQueue.Safe.Moves.{with_counts, with_counts-Shape, without, without-Shape}
use uring_fiber.LfQueue.Safe.Sound.{Fine, Sound, update-Sound, Safe}
use uring_fiber.LfQueue.Safe.Delta.{externals-follow, internals-follow}
use uring_fiber.LfQueue.Safe.Steps.{only_owns}
use uring_fiber.LfQueue.Safe.Moving.{own_kept}

Fine-counts :
    (v : View) (k : Ranks) (p i e : ℕ) (q : Role) → Fine v k q → Fine (with_counts p i e v) k q
Fine-counts v k p i e q f = record {
  holds = f.holds;
  owning = f.owning;
  reads = f.reads;
  trails = f.trails;
}

module _ (n : ℕ) (v : View) (k : Ranks) (r : ℕ → Role) (t a : ℕ) (few : t < n)
    (holds : (r t).held ≡ a) (some_a : a ≢ 0) (s : Safe n v k r) where
  abbrev left : Role
  left = only_owns (r t).owns

  mine : Fine v k (r t)
  mine = s.sound.fine t

  held_ranked : (v.alive a ≡ true) × (0 < k.rank a)
  held_ranked =
      let (l, some_rank, _) = mine.holds (λ z. some_a (sym holds ∙ z)) in
      (sym (ap v.alive holds) ∙ l, omega (arith, some_rank, ap k.rank holds))

  left-Sound : (i e : ℕ) → Sound n (with_counts a i e v) k (update r t left)
  left-Sound i e =
      update-Sound n v (with_counts a i e v) k k r t left few
        (λ j ne f. Fine-counts v k a i e (r j) f)
        record {
          holds = λ z. absurd (z refl);
          owning = mine.owning;
          reads = λ z. absurd (z refl);
          trails = λ z. cc z;
        }
        (own_kept n v k r t s.sound) s.sound

  -- `release_ref`, but for the deletion.
  pub release-Safe :
      (i : ℕ)
      → (r t).hands_in ≡ false
      → (i + 1) % 2 ^ 16 ≡ v.internal a % 2 ^ 16
      → Safe n (with_counts a i (v.external a) v) k (update r t left)
  release-Safe i keeps less =
      let v' = with_counts a i (v.external a) v in
      record {
        shape = with_counts-Shape v k a i (v.external a) held_ranked.1 s.shape;
        sound = left-Sound i (v.external a);
        counted = record {
          externals = λ p l some_rank.
              let nonzero : (0 == p) ≡ false = ground (arith, s.shape.positive p l) in
              externals-follow n v v' k k r t left few s.counted p l some_rank
                (elim (Bool-cases (a == p)) [
                  | inl e ↦
                      let same = ap v.external ((==_iff a p).0 e) in
                      rw (holds, nonzero, e, keeps) (omega (arith, same))
                  | inr e ↦ rw (holds, nonzero, e) (omega arith)
                ]);
          bounded = λ p l some_rank. elim (Bool-cases (a == p)) [
            | inl e ↦ rw e (s.counted.bounded a held_ranked.0 held_ranked.1)
            | inr e ↦ rw e (s.counted.bounded p l some_rank)
          ];
          internals = λ p l some_rank.
              let nonzero : (0 == p) ≡ false = ground (arith, s.shape.positive p l) in
              internals-follow n v v' k k r t left few s.counted p l some_rank
                (elim (Bool-cases (a == p)) [
                  | inl e ↦
                      let same = ap v.internal ((==_iff a p).0 e) in
                      rw (holds, nonzero, e, keeps) (omega (arith, same, less))
                  | inr e ↦ rw (holds, nonzero, e) (omega arith)
                ]);
        };
      }

  handed_in : (r t).hands_in ≡ true → 1 ≤ v.external a
  handed_in hands =
      let part = tally-part n (handing a) r t few in
      let here : (a == a) ≡ true = (==_iff a a).1 refl in
      let one : handing a (r t) ≡ 1 = rw (holds, here, hands) refl in
      let all = s.counted.externals a held_ranked.0 held_ranked.1 in omega (arith, part, one, all)

  -- `free_external_counter`, but for the deletion.
  pub hand_in-Safe :
      (i e : ℕ)
      → (r t).hands_in ≡ true
      → (i + 2) % 2 ^ 16 ≡ (v.internal a + (r t).share) % 2 ^ 16
      → (1 ≤ v.external a → v.external a ≤ 2 → e + 1 ≡ v.external a)
      → Safe n (with_counts a i e v) k (update r t left)
  hand_in-Safe i e hands more fewer =
      let v' = with_counts a i e v in
      let most = s.counted.bounded a held_ranked.0 held_ranked.1 in
      let less = fewer (handed_in hands) most in
      record {
        shape = with_counts-Shape v k a i e held_ranked.1 s.shape;
        sound = left-Sound i e;
        counted = record {
          externals = λ p l some_rank.
              let nonzero : (0 == p) ≡ false = ground (arith, s.shape.positive p l) in
              externals-follow n v v' k k r t left few s.counted p l some_rank
                (elim (Bool-cases (a == p)) [
                  | inl z ↦
                      let same = ap v.external ((==_iff a p).0 z) in
                      rw (holds, nonzero, z, hands) (omega (arith, same, less))
                  | inr z ↦ rw (holds, nonzero, z) (omega arith)
                ]);
          bounded = λ p l some_rank. elim (Bool-cases (a == p)) [
            | inl z ↦ rw z (omega (arith, most, less))
            | inr z ↦ rw z (s.counted.bounded p l some_rank)
          ];
          internals = λ p l some_rank.
              let nonzero : (0 == p) ≡ false = ground (arith, s.shape.positive p l) in
              internals-follow n v v' k k r t left few s.counted p l some_rank
                (elim (Bool-cases (a == p)) [
                  | inl z ↦
                      let same = ap v.internal ((==_iff a p).0 z) in
                      rw (holds, nonzero, z, hands) (omega (arith, same, more))
                  | inr z ↦ rw (holds, nonzero, z) (omega arith)
                ]);
        };
      }

refers-bit : (p : ℕ) (q : Role) → refers p q ≤ 1
refers-bit p q = elim (Bool-cases (q.held == p)) [
  | inl e ↦ rw e (omega arith)
  | inr e ↦ rw e (omega arith)
]

handing-shares : (p : ℕ) (q : Role) → handing p q ≡ 0 → shares p q ≡ 0
handing-shares p q = elim (Bool-cases (q.held == p)) [
  | inl e ↦ elim (Bool-cases q.hands_in) [
    | inl f ↦ rw (e, f) (λ z. absurd (omega (arith, z)))
    | inr f ↦ rw (e, f) (λ _. refl)
  ]
  | inr e ↦ rw e (λ _. refl)
]

-- A node whose counts are 0 is referred to by no thread, if there are fewer than 2^16, and both words have
-- passed it.
pub unused-none :
    (n : ℕ) (v : View) (k : Ranks) (r : ℕ → Role) (a : ℕ)
    → n < 2 ^ 16
    → v.alive a ≡ true
    → 0 < k.rank a
    → v.internal a ≡ 0
    → v.external a ≡ 0
    → Safe n v k r
    → (k.rank a < k.first) × ((i : ℕ) → (r i).held ≢ a)
unused-none n v k r a few l some_rank no_internal no_external s =
    let all = s.counted.externals a l some_rank in
    let passed : k.rank a < k.first = elim (Bool-cases (leb k.first (k.rank a))) [
      | inl e ↦ absurd (omega (arith, all, no_external, ap bit e))
      | inr e ↦ ground (arith, e)
    ] in
    let none_hands : tally n (handing a) r ≡ 0 = omega (arith, all, no_external) in
    let none_shares = tally-follows n (handing a) (shares a) r (handing-shares a) none_hands in
    let tail_ne : (v.tail == a) ≡ false =
      ground (arith, s.shape.tail_rank, s.shape.order, passed) in
    let head_ne : (v.head == a) ≡ false = ground (arith, s.shape.head_rank, passed) in
    let known = s.counted.internals a l some_rank in
    let sum : counts_at v a + tally n (shares a) r ≡ 0 =
      rw (tail_ne, head_ne) (omega (arith, no_internal, none_shares)) in
    let words : words_at v a ≡ 0 = rw (tail_ne, head_ne) refl in
    let bound = tally-bound n (refers a) r (refers-bit a) in
    let none_refers : tally n (refers a) r ≡ 0 =
      omega (arith, known, sum, words, none_hands, bound, few) in
    (
      passed,
      λ i same. elim (Bool-cases (leb n i)) [
        | inl e ↦
            s.shape.positive a l
              (sym same ∙ ap (λ (q : Role). q.held) (s.sound.idle i (ground (arith, e))))
        | inr e ↦
            let zero_here = tally-zero n (refers a) r i none_refers (ground (arith, e)) in
            cc (zero_here, ap bit ((==_iff (r i).held a).1 same))
      ],
    )

pub delete-Safe :
    (n : ℕ) (v : View) (k : Ranks) (r : ℕ → Role) (a : ℕ)
    → n < 2 ^ 16
    → v.alive a ≡ true
    → 0 < k.rank a
    → v.internal a ≡ 0
    → v.external a ≡ 0
    → Safe n v k r
    → Safe n (without a v) k r
delete-Safe n v k r a few l some_rank no_internal no_external s =
    let (passed, nobody) = unused-none n v k r a few l some_rank no_internal no_external s in
    let was : (p : ℕ) → update v.alive a false p ≡ true → v.alive p ≡ true = λ p y.
      elim (Bool-cases (a == p)) [
        | inl e ↦ cc (update-eq v.alive a p false e)
        | inr e ↦ sym (update-ne v.alive a p false e) ∙ y
      ] in
    record {
      shape = without-Shape v k a passed s.shape;
      sound = record {
        fine = λ i.
            let f = s.sound.fine i in
            record {
              holds = λ h.
                  let (there, ranked, most) = f.holds h in
                  let ne : (a == (r i).held) ≡ false = ground (arith, nobody i) in
                  rw ne (there, ranked, most);
              owning = λ o.
                  let (there, none_yet, one) = f.owning o in
                  let ne : (a == get_ptr (r i).owns) ≡ false =
                    ground (arith, some_rank, none_yet) in
                  rw ne (there, none_yet, one);
              reads = f.reads;
              trails = f.trails;
            };
        apart = s.sound.apart;
        idle = s.sound.idle;
      };
      counted = record {
        externals = λ p y. s.counted.externals p (was p y);
        bounded = λ p y. s.counted.bounded p (was p y);
        internals = λ p y. s.counted.internals p (was p y);
      };
    }
