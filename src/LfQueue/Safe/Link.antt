-- ===== src/LfQueue/Safe/Link.antt =====
-- A new node is linked behind the node that the tail leads to.
use uring_fiber.Prelude.{
  ℕ, ◌+◌, ◌≤◌, ◌≡◌, ◌≢◌, refl, ap, sym, ◌∙◌, true, false, update, ◌==◌, ==_iff, Bool-cases, inl,
  inr, arith,
}
use uring_fiber.LfQueue.Packed.{get_ptr, get_count}
use uring_fiber.LfQueue.Safe.{View, Ranks}
use uring_fiber.LfQueue.Safe.Shape.{Shape, update-eq, update-ne, with_rank}

abbrev pub with_next : ℕ → ℕ → View → View
with_next p w v = record v { next = update v.next p w }

pub link-Shape :
    (v : View) (k : Ranks) (w : ℕ)
    → v.next v.tail ≡ 0
    → w ≢ 0
    → get_count w ≡ 1
    → v.alive (get_ptr w) ≡ true
    → k.rank (get_ptr w) ≡ 0
    → Shape v k
    → Shape (with_next v.tail w v) (with_rank (get_ptr w) (k.last + 1) k)
link-Shape v k w free some_w one there private s =
    let a = get_ptr w in
    let top = s.tail_rank in
    let low = s.head_rank in
    let tail_ne : (a == v.tail) ≡ false = ground (arith, private, top, s.order) in
    let head_ne : (a == v.head) ≡ false = ground (arith, private, low, s.order) in
    let not_over : (q : ℕ) → v.alive q ≡ true → k.rank q ≤ k.last = λ q l.
      let most = s.limit q l in
      let never : k.rank q ≢ k.last + 1 = λ z. s.beyond q l z free in omega (arith, most, never) in
    let silent = (s.unlinked a there private).0 in
    record {
      tail_alive = s.tail_alive;
      tail_rank = rw tail_ne top;
      head_alive = s.head_alive;
      head_rank = rw head_ne low;
      order = s.order;
      positive = s.positive;
      unique = λ p q l l' some_rank same. elim (Bool-cases (a == p)) [
        | inl e ↦ elim (Bool-cases (a == q)) [
          | inl f ↦ sym ((==_iff a p).0 e) ∙ (==_iff a q).0 f
          | inr f ↦ absurd (
              omega (
                arith,
                same,
                update-eq k.rank a p (k.last + 1) e,
                update-ne k.rank a q (k.last + 1) f,
                not_over q l',
              ))
        ]
        | inr e ↦ elim (Bool-cases (a == q)) [
          | inl f ↦ absurd (
              omega (
                arith,
                same,
                update-ne k.rank a p (k.last + 1) e,
                update-eq k.rank a q (k.last + 1) f,
                not_over p l,
              ))
          | inr f ↦
              s.unique p q l l' (omega (arith, some_rank, update-ne k.rank a p (k.last + 1) e)) (
                sym (update-ne k.rank a p (k.last + 1) e)
                ∙ same
                ∙ update-ne k.rank a q (k.last + 1) f)
        ]
      ];
      limit = λ p l. elim (Bool-cases (a == p)) [
        | inl e ↦ omega (arith, update-eq k.rank a p (k.last + 1) e)
        | inr e ↦ omega (arith, update-ne k.rank a p (k.last + 1) e, s.limit p l)
      ];
      beyond = λ p l high z.
          some_w (sym (update-eq v.next v.tail v.tail w ((==_iff v.tail v.tail).1 refl)) ∙ z);
      linked = λ p l some_rank lower. elim (Bool-cases (a == p)) [
        | inl e ↦ absurd (omega (arith, lower, update-eq k.rank a p (k.last + 1) e))
        | inr e ↦ elim (Bool-cases (v.tail == p)) [
          | inl f ↦ rw f some_w
          | inr f ↦ rw f (
              s.linked p l (omega (arith, some_rank, update-ne k.rank a p (k.last + 1) e))
                (omega (arith, lower, update-ne k.rank a p (k.last + 1) e)))
        ]
      ];
      ends = λ p l high. elim (Bool-cases (a == p)) [
        | inl e ↦
            let here = (==_iff a p).0 e in
            update-ne v.next v.tail p w (ground (arith, here, private, top, s.order))
            ∙ (sym (ap v.next here) ∙ silent)
        | inr e ↦ absurd (omega (arith, high, update-ne k.rank a p (k.last + 1) e, not_over p l))
      ];
      single = λ p l has. elim (Bool-cases (v.tail == p)) [
        | inl f ↦ rw f one
        | inr f ↦ rw f (s.single p l (λ z. has (update-ne v.next v.tail p w f ∙ z)))
      ];
      succeeds = λ p l high has. elim (Bool-cases (v.tail == p)) [
        | inl f ↦
            let here = (==_iff v.tail p).0 f in
            let not_new : (a == p) ≡ false = ground (arith, here, private, top, s.order) in
            let ranked : k.rank p ≡ k.last = sym (ap k.rank here) ∙ top in
            let same : (a == a) ≡ true = (==_iff a a).1 refl in
            rw (f, not_new, same) (there, omega (arith, ranked))
        | inr f ↦ elim (Bool-cases (a == p)) [
          | inl e ↦
              absurd (
                has (update-ne v.next v.tail p w f ∙ (sym (ap v.next ((==_iff a p).0 e)) ∙ silent)))
          | inr e ↦
              let (live, ranked) =
                s.succeeds p l (omega (arith, high, update-ne k.rank a p (k.last + 1) e))
                  (λ z. has (update-ne v.next v.tail p w f ∙ z)) in
              let other : (a == get_ptr (v.next p)) ≡ false = ground (arith, private, ranked) in
              rw (f, e, other) (live, ranked)
        ]
      ];
      unlinked = λ p l none_yet. elim (Bool-cases (a == p)) [
        | inl e ↦ absurd (omega (arith, none_yet, update-eq k.rank a p (k.last + 1) e))
        | inr e ↦
            let zero_rank : k.rank p ≡ 0 = sym (update-ne k.rank a p (k.last + 1) e) ∙ none_yet in
            let not_tail : (v.tail == p) ≡ false = ground (arith, zero_rank, top, s.order) in
            rw not_tail (s.unlinked p l zero_rank)
      ];
    }
