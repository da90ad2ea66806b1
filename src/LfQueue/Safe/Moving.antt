-- ===== src/LfQueue/Safe/Moving.antt =====
-- Accesses that keep the references sound: a thread moves one of the words on, and has the old one to hand in.
use uring_fiber.Prelude.{
  ℕ, ◌<◌, ◌≡◌, ◌≢◌, refl, ap, sym, ◌∙◌, true, false, update, ◌==◌, ==_iff, Bool-cases, inl, inr,
  arith,
}
use uring_fiber.LfQueue.Packed.{get_ptr}
use uring_fiber.LfQueue.Safe.{Role, View, Ranks}
use uring_fiber.LfQueue.Safe.Moves.{
  tail_moved, tail_ranked, tail_moved-Shape, head_moved, head_ranked, head_moved-Shape,
}
use uring_fiber.LfQueue.Safe.Sound.{Fine, Sound, update-Sound, Safe}
use uring_fiber.LfQueue.Safe.Delta.{externals-follow, internals-follow}

-- The thread has moved a word whose count was `c`.
abbrev pub has_moved : ℕ → Role → Role
has_moved c q = record q { hands_in = true; share = c; successor = 0; behind = false }

pub own_kept :
    (n : ℕ) (v : View) (k : Ranks) (r : ℕ → Role) (i : ℕ)
    → Sound n v k r
    → (r i).owns ≢ 0
    → (j : ℕ) → i ≢ j
    → (r j).owns ≢ 0
    → get_ptr (r i).owns ≢ get_ptr (r j).owns
own_kept n v k r i s own j ne other same = ne (s.apart i j own other same)

pub move_tail-Safe :
    (n : ℕ) (v : View) (k : Ranks) (r : ℕ → Role) (i : ℕ)
    → i < n
    → (r i).held ≡ v.tail
    → (r i).hands_in ≡ false
    → v.next v.tail ≢ 0
    → Safe n v k r
    → Safe n (tail_moved v) (tail_ranked k) (update r i (has_moved v.tail_count (r i)))
move_tail-Safe n v k r i few at_tail not_yet has s =
    let q = has_moved v.tail_count (r i) in
    let v' = tail_moved v in
    let k' = tail_ranked k in
    let mine = s.sound.fine i in
    let top = s.shape.tail_rank in
    let (there, ranked) =
      s.shape.succeeds v.tail s.shape.tail_alive (omega (arith, top, s.shape.order)) has in
    let one = s.shape.single v.tail s.shape.tail_alive has in
    let next_ne : (v.tail == get_ptr (v.next v.tail)) ≡ false = ground (arith, ranked) in
    let Fine-moved : (x : Role) → Fine v k x → Fine v' k' x = λ x f. record {
      holds = λ h. let (l, some_rank, most) = f.holds h in (l, some_rank, omega (arith, most));
      owning = f.owning;
      reads = f.reads;
      trails = λ z. let (h, low) = f.trails z in (h, omega (arith, low));
    } in
    record {
      shape = tail_moved-Shape v k has s.shape;
      sound =
          update-Sound n v v' k k' r i q few (λ j ne f. Fine-moved (r j) f)
            record {
              holds = (Fine-moved (r i) mine).holds;
              owning = mine.owning;
              reads = λ z. absurd (z refl);
              trails = λ z. cc z;
            }
            (own_kept n v k r i s.sound) s.sound;
      counted = record {
        externals = λ p l some_rank.
            externals-follow n v v' k k' r i q few s.counted p l some_rank
              (elim (Bool-cases (v.tail == p)) [
                | inl e ↦
                    let same : k.rank p ≡ k.last = sym (ap k.rank ((==_iff v.tail p).0 e)) ∙ top in
                    rw (at_tail, not_yet, e, same) (ground arith)
                | inr e ↦
                    let other : k.rank p ≢ k.last = λ z. cc (
                      e,
                      (==_iff v.tail p).1 (
                          s.shape.unique v.tail p s.shape.tail_alive l
                            (omega (arith, top, s.shape.order)) (top ∙ sym z)),
                    ) in
                    rw (at_tail, e) (ground (arith, other))
              ]);
        bounded = s.counted.bounded;
        internals = λ p l some_rank.
            internals-follow n v v' k k' r i q few s.counted p l some_rank
              (elim (Bool-cases (v.tail == p)) [
                | inl e ↦
                    let ne : (get_ptr (v.next v.tail) == p) ≡ false =
                      ground (arith, next_ne, (==_iff v.tail p).0 e) in
                    rw (at_tail, not_yet, e, ne) (omega arith)
                | inr e ↦ elim (Bool-cases (get_ptr (v.next v.tail) == p)) [
                  | inl f ↦ rw (at_tail, e, f, one) (omega arith)
                  | inr f ↦ rw (at_tail, e, f) (omega arith)
                ]
              ]);
      };
    }

pub move_head-Safe :
    (n : ℕ) (v : View) (k : Ranks) (r : ℕ → Role) (i : ℕ)
    → i < n
    → (r i).held ≡ v.head
    → (r i).hands_in ≡ false
    → k.first < k.last
    → Safe n v k r
    → Safe n (head_moved v) (head_ranked k) (update r i (has_moved v.head_count (r i)))
move_head-Safe n v k r i few at_head not_yet behind s =
    let q = has_moved v.head_count (r i) in
    let v' = head_moved v in
    let k' = head_ranked k in
    let mine = s.sound.fine i in
    let low = s.shape.head_rank in
    let has =
      s.shape.linked v.head s.shape.head_alive (omega (arith, low, s.shape.order))
        (omega (arith, low, behind)) in
    let (there, ranked) = s.shape.succeeds v.head s.shape.head_alive (omega (arith, low)) has in
    let one = s.shape.single v.head s.shape.head_alive has in
    let next_ne : (v.head == get_ptr (v.next v.head)) ≡ false = ground (arith, ranked) in
    let Fine-moved : (x : Role) → Fine v k x → Fine v' k' x =
      λ x f. record { holds = f.holds; owning = f.owning; reads = f.reads; trails = f.trails } in
    record {
      shape = head_moved-Shape v k behind s.shape;
      sound =
          update-Sound n v v' k k' r i q few (λ j ne f. Fine-moved (r j) f)
            record {
              holds = mine.holds;
              owning = mine.owning;
              reads = λ z. absurd (z refl);
              trails = λ z. cc z;
            }
            (own_kept n v k r i s.sound) s.sound;
      counted = record {
        externals = λ p l some_rank.
            externals-follow n v v' k k' r i q few s.counted p l some_rank
              (elim (Bool-cases (v.head == p)) [
                | inl e ↦
                    let same : k.rank p ≡ k.first = sym (ap k.rank ((==_iff v.head p).0 e)) ∙ low in
                    rw (at_head, not_yet, e, same) (ground arith)
                | inr e ↦
                    let other : k.rank p ≢ k.first = λ z. cc (
                      e,
                      (==_iff v.head p).1 (
                          s.shape.unique v.head p s.shape.head_alive l
                            (omega (arith, low, s.shape.order)) (low ∙ sym z)),
                    ) in
                    rw (at_head, e) (ground (arith, other))
              ]);
        bounded = s.counted.bounded;
        internals = λ p l some_rank.
            internals-follow n v v' k k' r i q few s.counted p l some_rank
              (elim (Bool-cases (v.head == p)) [
                | inl e ↦
                    let ne : (get_ptr (v.next v.head) == p) ≡ false =
                      ground (arith, next_ne, (==_iff v.head p).0 e) in
                    rw (at_head, not_yet, e, ne) (omega arith)
                | inr e ↦ elim (Bool-cases (get_ptr (v.next v.head) == p)) [
                  | inl f ↦ rw (at_head, e, f, one) (omega arith)
                  | inr f ↦ rw (at_head, e, f) (omega arith)
                ]
              ]);
      };
    }
