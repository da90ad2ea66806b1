-- ===== src/LfQueue/Safe/Linking.antt =====
-- Accesses that keep the references sound: a thread links its node behind the one that it refers to.
use uring_fiber.Prelude.{
  ℕ, ◌+◌, ◌%◌, ◌^◌, ◌<◌, ◌≡◌, ◌≢◌, refl, ap, sym, ◌∙◌, subst, true, false, update, ◌==◌, ==_iff,
  Bool-cases, inl, inr, arith,
}
use uring_fiber.LfQueue.Packed.{get_ptr, get_count}
use uring_fiber.LfQueue.Safe.{
  Role, View, Ranks, tally, refers, handing, shares, anchors, counts_at, words_at,
}
use uring_fiber.LfQueue.Safe.Shape.{Shape, with_rank, update-ne}
use uring_fiber.LfQueue.Safe.Link.{with_next, link-Shape}
use uring_fiber.LfQueue.Safe.Sound.{Fine, update-Sound, Safe}
use uring_fiber.LfQueue.Safe.Delta.{externals-follow, internals-follow}
use uring_fiber.LfQueue.Safe.Nodes.{owns_none, tally-unlinked}

-- A node that a thread refers to and that has no successor is where the tail leads to.
pub held-last :
    (v : View) (k : Ranks) (q : Role)
    → q.held ≢ 0
    → v.next q.held ≡ 0
    → Shape v k
    → Fine v k q
    → q.held ≡ v.tail
held-last v k q h free s f =
    let (there, some_rank, most) = f.holds h in
    let not_low : (k.rank q.held < k.last) → ⊥ = λ low. s.linked q.held there some_rank low free in
    s.unique q.held v.tail there s.tail_alive some_rank (omega (arith, most, not_low, s.tail_rank))

module _ (v : View) (k : Ranks) (w : ℕ) (free : v.next v.tail ≡ 0)
    (private : k.rank (get_ptr w) ≡ 0) where
  abbrev linked_view : View
  linked_view = with_next v.tail w v

  abbrev linked_ranks : Ranks
  linked_ranks = with_rank (get_ptr w) (k.last + 1) k

  Fine-linked :
      (q : Role)
      → (q.owns ≢ 0 → get_ptr w ≢ get_ptr q.owns)
      → Fine v k q
      → Fine linked_view linked_ranks q
  Fine-linked q other f = record {
    holds = λ h.
        let (there, some_rank, most) = f.holds h in
        let ne : (get_ptr w == q.held) ≡ false = ground (arith, private, some_rank) in
        rw ne (there, some_rank, most);
    owning = λ o.
        let (there, none_yet, one) = f.owning o in
        let ne : (get_ptr w == get_ptr q.owns) ≡ false = ground (arith, other o) in
        rw ne (there, none_yet, one);
    reads = λ z.
        let (h, is) = f.reads z in
        elim (Bool-cases (v.tail == q.held)) [
          | inl e ↦ absurd (z (sym is ∙ sym (ap v.next ((==_iff v.tail q.held).0 e)) ∙ free))
          | inr e ↦ rw e (h, is)
        ];
    trails = λ z.
        let (h, low) = f.trails z in
        let (_, some_rank, _) = f.holds h in
        let ne : (get_ptr w == q.held) ≡ false = ground (arith, private, some_rank) in
        rw ne (h, low);
  }

-- The node that the thread refers to has no successor, and gets the thread's own node.
pub link-Safe :
    (n : ℕ) (v : View) (k : Ranks) (r : ℕ → Role) (i w : ℕ)
    → i < n
    → (r i).owns ≡ w
    → w ≢ 0
    → (r i).held ≢ 0
    → v.next (r i).held ≡ 0
    → Safe n v k r
    → (k' : Ranks) × Safe n (with_next (r i).held w v) k' (update r i (owns_none w (r i)))
link-Safe n v k r i w few owns some_w holds silent s =
    let a = get_ptr w in
    let q = owns_none w (r i) in
    let mine = s.sound.fine i in
    let at_tail = held-last v k (r i) holds silent s.shape mine in
    let free : v.next v.tail ≡ 0 = sym (ap v.next at_tail) ∙ silent in
    let owner : (r i).owns ≢ 0 = λ e. some_w (sym owns ∙ e) in
    let (there', private', one') = mine.owning owner in
    let there : v.alive a ≡ true = sym (ap (λ x. v.alive (get_ptr x)) owns) ∙ there' in
    let private : k.rank a ≡ 0 = sym (ap (λ x. k.rank (get_ptr x)) owns) ∙ private' in
    let one : get_count w ≡ 1 = sym (ap get_count owns) ∙ one' in
    let v' = with_next v.tail w v in
    let k' = with_rank a (k.last + 1) k in
    let tail_ne : (v.tail == a) ≡ false =
      ground (arith, private, s.shape.tail_rank, s.shape.order) in
    let head_ne : (v.head == a) ≡ false =
      ground (arith, private, s.shape.head_rank, s.shape.order) in
    let nonzero = s.shape.positive a there in
    let ranked : (j : ℕ) → (update r i q j).held ≢ 0 → 0 < k.rank (update r i q j).held = λ j.
      elim (Bool-cases (i == j)) [
        | inl e ↦ rw e (λ h. (mine.holds h).1)
        | inr e ↦ rw e (λ h. ((s.sound.fine j).holds h).1)
      ] in
    let none_for : (f : Role → ℕ)
        → ((x : Role) → (x.held == a) ≡ false → f x ≡ 0)
        → tally n f (update r i q) ≡ 0 =
      λ f none. tally-unlinked n k (update r i q) f a nonzero private none ranked in
    let result : Safe n v' k' (update r i q) = record {
      shape = link-Shape v k w free some_w one there private s.shape;
      sound =
          update-Sound n v v' k k' r i q few
            (λ j ne f.
              Fine-linked v k w free private (r j)
                (λ o same. ne (s.sound.apart i j owner o (ap get_ptr owns ∙ same))) f)
            record {
              holds = λ h.
                  let (l, some_rank, most) = mine.holds h in
                  let ne : (a == (r i).held) ≡ false = ground (arith, private, some_rank) in
                  rw ne (l, some_rank, most);
              owning = λ o. absurd (o refl);
              reads = λ z.
                  let here : (v.tail == (r i).held) ≡ true =
                    (==_iff v.tail (r i).held).1 (sym at_tail) in
                  (holds, rw here refl);
              trails = λ z.
                  let (_, low) = mine.trails z in
                  absurd (omega (arith, low, ap k.rank at_tail, s.shape.tail_rank));
            }
            (λ o. absurd (o refl)) s.sound;
      counted = record {
        externals = λ p l some_rank. elim (Bool-cases (a == p)) [
          | inl e ↦
              let here = (==_iff a p).0 e in
              subst (λ p. v.external p ≡ anchors k' p + tally n (handing p) (update r i q)) here
                (let same : (a == a) ≡ true = (==_iff a a).1 refl in
                  let nobody = none_for (handing a) (λ x ne. rw ne refl) in
                  let fresh = (s.shape.unlinked a there private).2 in
                  rw (same, nobody, fresh) (ground (arith, s.shape.order)))
          | inr e ↦
              externals-follow n v v' k k' r i q few s.counted p l
                (omega (arith, some_rank, update-ne k.rank a p (k.last + 1) e)) (rw e refl)
        ];
        bounded = λ p l some_rank. elim (Bool-cases (a == p)) [
          | inl e ↦
              let fresh = (s.shape.unlinked a there private).2 in
              omega (arith, fresh, ap v.external ((==_iff a p).0 e))
          | inr e ↦
              s.counted.bounded p l (omega (arith, some_rank, update-ne k.rank a p (k.last + 1) e))
        ];
        internals = λ p l some_rank. elim (Bool-cases (a == p)) [
          | inl e ↦
              let here = (==_iff a p).0 e in
              subst
                (λ p.
                  (counts_at v' p + tally n (shares p) (update r i q)) % 2 ^ 16
                  ≡ (tally n (refers p) (update r i q)
                      + words_at v' p
                      + tally n (handing p) (update r i q))
                    % 2 ^ 16)
                here
                (let fresh = (s.shape.unlinked a there private).1 in
                  rw
                    (
                      tail_ne,
                      head_ne,
                      fresh,
                      none_for (handing a) (λ x ne. rw ne refl),
                      none_for (shares a) (λ x ne. rw ne refl),
                      none_for (refers a) (λ x ne. rw ne refl),
                    )
                    refl)
          | inr e ↦
              internals-follow n v v' k k' r i q few s.counted p l
                (omega (arith, some_rank, update-ne k.rank a p (k.last + 1) e)) refl
        ];
      };
    } in
    (k', subst (λ p. Safe n (with_next p w v) k' (update r i q)) (sym at_tail) result)
