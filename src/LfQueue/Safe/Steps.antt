-- ===== src/LfQueue/Safe/Steps.antt =====
-- Accesses that keep the references sound: what a thread does with the two words, and with its own node.
use uring_fiber.Prelude.{
  ℕ, ◌+◌, ◌%◌, ◌^◌, ◌<◌, ◌≡◌, ◌≢◌, refl, ap, sym, ◌∙◌, false, update, ◌==◌, Bool-cases, inl, inr,
  arith,
}
use uring_fiber.LfQueue.Packed.{get_ptr}
use uring_fiber.LfQueue.Safe.{Role, View, Ranks}
use uring_fiber.LfQueue.Safe.Moves.{counted-Shape}
use uring_fiber.LfQueue.Safe.Sound.{Fine, Sound, update-Sound, Safe}
use uring_fiber.LfQueue.Safe.Delta.{externals-follow, internals-follow}

-- A thread learns or forgets something, and the memory stays.
pub still-Safe :
    (n : ℕ) (v : View) (k : Ranks) (r : ℕ → Role) (i : ℕ) (q : Role)
    → i < n
    → q.held ≡ (r i).held
    → q.hands_in ≡ (r i).hands_in
    → q.share ≡ (r i).share
    → q.owns ≡ (r i).owns
    → Fine v k q
    → Safe n v k r
    → Safe n v k (update r i q)
still-Safe n v k r i q few held hands share owns mine s = record {
  shape = s.shape;
  sound =
      update-Sound n v v k k r i q few (λ j ne f. f) mine
        (λ own j ne other same.
          ne (s.sound.apart i j (λ z. own (owns ∙ z)) other (sym (ap get_ptr owns) ∙ same)))
        s.sound;
  counted = record {
    externals = λ p l some_rank.
        externals-follow n v v k k r i q few s.counted p l some_rank (rw (held, hands) refl);
    bounded = s.counted.bounded;
    internals = λ p l some_rank.
        internals-follow n v v k k r i q few s.counted p l some_rank (rw (held, hands, share) refl);
  };
}

-- A thread that refers to no node, and has at most a node of its own.
abbrev pub only_owns : ℕ → Role
only_owns w = record {
  held = 0;
  owns = w;
  hands_in = false;
  share = 0;
  successor = 0;
  behind = false;
}

-- The same, but for a reference to `p`.
abbrev pub at_held : ℕ → ℕ → Role
at_held p w = record (only_owns w) { held = p }

Fine-counted :
    (v : View) (k : Ranks) (t h : ℕ) (q : Role)
    → Fine v k q
    → Fine (record v { tail_count = t; head_count = h }) k q
Fine-counted v k t h q f = record {
  holds = f.holds;
  owning = f.owning;
  reads = f.reads;
  trails = f.trails;
}

same_owner :
    (n : ℕ) (v : View) (k : Ranks) (r : ℕ → Role) (i w : ℕ)
    → Sound n v k r
    → (r i).owns ≡ w
    → w ≢ 0
    → (j : ℕ) → i ≢ j
    → (r j).owns ≢ 0
    → get_ptr w ≢ get_ptr (r j).owns
same_owner n v k r i w s mine some_w j ne other same =
    ne (s.apart i j (λ z. some_w (sym mine ∙ z)) other (ap get_ptr mine ∙ same))

-- A thread counts itself in at the tail.
pub enter_tail-Safe :
    (n : ℕ) (v : View) (k : Ranks) (r : ℕ → Role) (i w : ℕ)
    → i < n
    → r i ≡ only_owns w
    → Safe n v k r
    → Safe n
        (record v { tail_count = (v.tail_count + 1) % 2 ^ 16 })
        k
        (update r i (at_held v.tail w))
enter_tail-Safe n v k r i w few was s =
    let q = at_held v.tail w in
    let v' : View = record v { tail_count = (v.tail_count + 1) % 2 ^ 16 } in
    let held : (r i).held ≡ 0 = ap (λ (x : Role). x.held) was in
    let owns : (r i).owns ≡ w = ap (λ (x : Role). x.owns) was in
    let mine = s.sound.fine i in
    record {
      shape = counted-Shape v k v'.tail_count v.head_count s.shape;
      sound =
          update-Sound n v v' k k r i q few
            (λ j ne f. Fine-counted v k v'.tail_count v.head_count (r j) f)
            record {
              holds = λ _. (
                s.shape.tail_alive,
                omega (arith, s.shape.tail_rank, s.shape.order),
                omega (arith, s.shape.tail_rank),
              );
              owning = λ own. rw (← owns) (mine.owning (λ z. own (sym owns ∙ z)));
              reads = λ z. absurd (z refl);
              trails = λ z. cc z;
            }
            (λ own. same_owner n v k r i w s.sound owns own) s.sound;
      counted = record {
        externals = λ p l some_rank.
            let nonzero : (0 == p) ≡ false = ground (arith, s.shape.positive p l) in
            externals-follow n v v' k k r i q few s.counted p l some_rank
              (rw (held, nonzero) (ground arith));
        bounded = s.counted.bounded;
        internals = λ p l some_rank.
            let nonzero : (0 == p) ≡ false = ground (arith, s.shape.positive p l) in
            internals-follow n v v' k k r i q few s.counted p l some_rank
              (elim (Bool-cases (v.tail == p)) [
                | inl e ↦ rw (held, nonzero, e) (omega arith)
                | inr e ↦ rw (held, nonzero, e) (omega arith)
              ]);
      };
    }

-- A thread counts itself in at the head.
pub enter_head-Safe :
    (n : ℕ) (v : View) (k : Ranks) (r : ℕ → Role) (i w : ℕ)
    → i < n
    → r i ≡ only_owns w
    → Safe n v k r
    → Safe n
        (record v { head_count = (v.head_count + 1) % 2 ^ 16 })
        k
        (update r i (at_held v.head w))
enter_head-Safe n v k r i w few was s =
    let q = at_held v.head w in
    let v' : View = record v { head_count = (v.head_count + 1) % 2 ^ 16 } in
    let held : (r i).held ≡ 0 = ap (λ (x : Role). x.held) was in
    let owns : (r i).owns ≡ w = ap (λ (x : Role). x.owns) was in
    let mine = s.sound.fine i in
    record {
      shape = counted-Shape v k v.tail_count v'.head_count s.shape;
      sound =
          update-Sound n v v' k k r i q few
            (λ j ne f. Fine-counted v k v.tail_count v'.head_count (r j) f)
            record {
              holds = λ _. (
                s.shape.head_alive,
                omega (arith, s.shape.head_rank, s.shape.order),
                omega (arith, s.shape.head_rank, s.shape.order),
              );
              owning = λ own. rw (← owns) (mine.owning (λ z. own (sym owns ∙ z)));
              reads = λ z. absurd (z refl);
              trails = λ z. cc z;
            }
            (λ own. same_owner n v k r i w s.sound owns own) s.sound;
      counted = record {
        externals = λ p l some_rank.
            let nonzero : (0 == p) ≡ false = ground (arith, s.shape.positive p l) in
            externals-follow n v v' k k r i q few s.counted p l some_rank
              (rw (held, nonzero) (ground arith));
        bounded = s.counted.bounded;
        internals = λ p l some_rank.
            let nonzero : (0 == p) ≡ false = ground (arith, s.shape.positive p l) in
            internals-follow n v v' k k r i q few s.counted p l some_rank
              (elim (Bool-cases (v.head == p)) [
                | inl e ↦ rw (held, nonzero, e) (omega arith)
                | inr e ↦ rw (held, nonzero, e) (omega arith)
              ]);
      };
    }
