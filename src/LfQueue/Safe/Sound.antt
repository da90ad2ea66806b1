-- ===== src/LfQueue/Safe/Sound.antt =====
-- What is true of each thread, and of the counts of the nodes.
use uring_fiber.Prelude.{
  ℕ, ◌+◌, ◌%◌, ◌^◌, ◌<◌, ◌≤◌, ◌≡◌, ◌≢◌, sym, ◌∙◌, true, false, update, ◌==◌, ==_iff, Bool-cases,
  inl, inr, arith,
}
use uring_fiber.LfQueue.Packed.{get_ptr, get_count}
use uring_fiber.LfQueue.Safe.{
  Role, away, View, Ranks, tally, refers, handing, shares, anchors, counts_at, words_at,
}
use uring_fiber.LfQueue.Safe.Shape.{Shape}

-- What a thread has is there: the node that it refers to is linked, its own node is not.
pub record Fine (v : View) (k : Ranks) (q : Role) : Type 0 where
  pub holds : q.held ≢ 0 → (v.alive q.held ≡ true) × (0 < k.rank q.held) × (k.rank q.held ≤ k.last)
  pub owning :
      q.owns ≢ 0
      → (v.alive (get_ptr q.owns) ≡ true) × (k.rank (get_ptr q.owns) ≡ 0) × (get_count q.owns ≡ 1)
  pub reads : q.successor ≢ 0 → (q.held ≢ 0) × (v.next q.held ≡ q.successor)
  pub trails : q.behind ≡ true → (q.held ≢ 0) × (k.rank q.held < k.last)

pub record Sound (n : ℕ) (v : View) (k : Ranks) (r : ℕ → Role) : Type 0 where
  pub fine : (i : ℕ) → Fine v k (r i)
  pub apart :
      (i j : ℕ) → (r i).owns ≢ 0 → (r j).owns ≢ 0 → get_ptr (r i).owns ≡ get_ptr (r j).owns → i ≡ j
  pub idle : (i : ℕ) → n ≤ i → r i ≡ away

-- One thread moves on.
pub update-Sound :
    (n : ℕ) (v v' : View) (k k' : Ranks) (r : ℕ → Role) (i : ℕ) (q : Role)
    → i < n
    → ((j : ℕ) → i ≢ j → Fine v k (r j) → Fine v' k' (r j))
    → Fine v' k' q
    → (q.owns ≢ 0 → (j : ℕ) → i ≢ j → (r j).owns ≢ 0 → get_ptr q.owns ≢ get_ptr (r j).owns)
    → Sound n v k r
    → Sound n v' k' (update r i q)
update-Sound n v v' k k' r i q few others mine own s = record {
  fine = λ j. elim (Bool-cases (i == j)) [
    | inl e ↦ rw e mine
    | inr e ↦ rw e (others j (λ z. cc ((==_iff i j).1 z)) (s.fine j))
  ];
  apart = λ j l. elim (Bool-cases (i == j)) [
    | inl e ↦ elim (Bool-cases (i == l)) [
      | inl f ↦ λ _ _ _. sym ((==_iff i j).0 e) ∙ (==_iff i l).0 f
      | inr f ↦ rw (e, f) (λ a b same. absurd (own a l (λ z. cc ((==_iff i l).1 z)) b same))
    ]
    | inr e ↦ elim (Bool-cases (i == l)) [
      | inl f ↦ rw (e, f) (λ a b same. absurd (own b j (λ z. cc ((==_iff i j).1 z)) a (sym same)))
      | inr f ↦ rw (e, f) (s.apart j l)
    ]
  ];
  idle = λ j high. let ne : (i == j) ≡ false = ground (arith, few, high) in rw ne (s.idle j high);
}

-- The counts of the linked nodes, `external` exactly, `internal` with the counts of the words up to 2^16.
pub record Counted (n : ℕ) (v : View) (k : Ranks) (r : ℕ → Role) : Type 0 where
  pub externals :
      (p : ℕ) → v.alive p ≡ true → 0 < k.rank p → v.external p ≡ anchors k p + tally n (handing p) r
  pub bounded : (p : ℕ) → v.alive p ≡ true → 0 < k.rank p → v.external p ≤ 2
  pub internals :
      (p : ℕ)
      → v.alive p ≡ true
      → 0 < k.rank p
      → (counts_at v p + tally n (shares p) r) % 2 ^ 16
        ≡ (tally n (refers p) r + words_at v p + tally n (handing p) r) % 2 ^ 16

pub record Safe (n : ℕ) (v : View) (k : Ranks) (r : ℕ → Role) : Type 0 where
  pub shape : Shape v k
  pub sound : Sound n v k r
  pub counted : Counted n v k r
