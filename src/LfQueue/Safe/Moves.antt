-- ===== src/LfQueue/Safe/Moves.antt =====
-- The words of `LFQueue` move on, and nodes are deleted.
use uring_fiber.Prelude.{
  ℕ, ◌+◌, ◌<◌, ◌≤◌, ◌≡◌, ◌≢◌, ap, sym, ◌∙◌, true, false, update, ◌==◌, ==_iff, Bool-cases, inl, inr,
  arith,
}
use uring_fiber.LfQueue.Packed.{get_ptr, get_count}
use uring_fiber.LfQueue.Safe.{View, Ranks}
use uring_fiber.LfQueue.Safe.Shape.{Shape, update-eq, update-ne}

-- The tail moves to the node behind it.
abbrev pub tail_moved : View → View
tail_moved v = record v { tail = get_ptr (v.next v.tail); tail_count = get_count (v.next v.tail) }

abbrev pub tail_ranked : Ranks → Ranks
tail_ranked k = record k { last = k.last + 1 }

pub tail_moved-Shape :
    (v : View) (k : Ranks) → v.next v.tail ≢ 0 → Shape v k → Shape (tail_moved v) (tail_ranked k)
tail_moved-Shape v k has s =
    let (there, ranked) =
      s.succeeds v.tail s.tail_alive (omega (arith, s.tail_rank, s.order)) has in
    let top = s.tail_rank in
    let is_tail : (p : ℕ) → v.alive p ≡ true → k.rank p ≡ k.last → p ≡ v.tail =
      λ p l e. s.unique p v.tail l s.tail_alive (omega (arith, e, s.order)) (e ∙ sym top) in
    record {
      tail_alive = there;
      tail_rank = omega (arith, ranked, top);
      head_alive = s.head_alive;
      head_rank = s.head_rank;
      order = omega (arith, s.order);
      positive = s.positive;
      unique = s.unique;
      limit = λ p l. omega (arith, s.limit p l);
      beyond = λ p l high. absurd (omega (arith, high, s.limit p l));
      linked = λ p l some_rank low. elim (Bool-cases (k.rank p == k.last)) [
        | inl e ↦
            let same = is_tail p l ((==_iff (k.rank p) k.last).0 e) in
            λ z. has (sym (ap v.next same) ∙ z)
        | inr e ↦
            let ne : k.rank p ≢ k.last = λ z. cc ((==_iff (k.rank p) k.last).1 z) in
            s.linked p l some_rank (omega (arith, low, ne))
      ];
      ends = λ p l high. absurd (omega (arith, high, s.limit p l));
      single = s.single;
      succeeds = s.succeeds;
      unlinked = s.unlinked;
    }

-- The head moves to the node behind it.
abbrev pub head_moved : View → View
head_moved v = record v { head = get_ptr (v.next v.head); head_count = get_count (v.next v.head) }

abbrev pub head_ranked : Ranks → Ranks
head_ranked k = record k { first = k.first + 1 }

pub head_moved-Shape :
    (v : View) (k : Ranks) → k.first < k.last → Shape v k → Shape (head_moved v) (head_ranked k)
head_moved-Shape v k behind s =
    let has =
      s.linked v.head s.head_alive (omega (arith, s.head_rank, s.order))
        (omega (arith, s.head_rank, behind)) in
    let (there, ranked) = s.succeeds v.head s.head_alive (omega (arith, s.head_rank)) has in
    record {
      tail_alive = s.tail_alive;
      tail_rank = s.tail_rank;
      head_alive = there;
      head_rank = omega (arith, ranked, s.head_rank);
      order = omega (arith, s.order, behind);
      positive = s.positive;
      unique = s.unique;
      limit = s.limit;
      beyond = s.beyond;
      linked = s.linked;
      ends = s.ends;
      single = s.single;
      succeeds = λ p l high. s.succeeds p l (omega (arith, high));
      unlinked = s.unlinked;
    }

-- Another reference is counted in a word.
pub counted-Shape :
    (v : View) (k : Ranks) (t h : ℕ)
    → Shape v k
    → Shape (record v { tail_count = t; head_count = h }) k
counted-Shape v k t h s = record {
  tail_alive = s.tail_alive;
  tail_rank = s.tail_rank;
  head_alive = s.head_alive;
  head_rank = s.head_rank;
  order = s.order;
  positive = s.positive;
  unique = s.unique;
  limit = s.limit;
  beyond = s.beyond;
  linked = s.linked;
  ends = s.ends;
  single = s.single;
  succeeds = s.succeeds;
  unlinked = s.unlinked;
}

abbrev pub with_counts : (p i e : ℕ) → View → View
with_counts p i e v = record v {
  internal = update v.internal p i;
  external = update v.external p e;
}

-- The counts of a linked node change.
pub with_counts-Shape :
    (v : View) (k : Ranks) (a i e : ℕ) → 0 < k.rank a → Shape v k → Shape (with_counts a i e v) k
with_counts-Shape v k a i e is_linked s = record {
  tail_alive = s.tail_alive;
  tail_rank = s.tail_rank;
  head_alive = s.head_alive;
  head_rank = s.head_rank;
  order = s.order;
  positive = s.positive;
  unique = s.unique;
  limit = s.limit;
  beyond = s.beyond;
  linked = s.linked;
  ends = s.ends;
  single = s.single;
  succeeds = s.succeeds;
  unlinked = λ p l none_yet.
      let other : (a == p) ≡ false = ground (arith, is_linked, none_yet) in
      rw other (s.unlinked p l none_yet);
}

abbrev pub without : ℕ → View → View
without a v = record v { alive = update v.alive a false }

-- A node is deleted that is in front of the head, or not linked.
pub without-Shape :
    (v : View) (k : Ranks) (a : ℕ) → k.rank a < k.first → Shape v k → Shape (without a v) k
without-Shape v k a passed s =
    let was : (p : ℕ) → update v.alive a false p ≡ true → v.alive p ≡ true = λ p l.
      elim (Bool-cases (a == p)) [
        | inl e ↦ cc (update-eq v.alive a p false e)
        | inr e ↦ sym (update-ne v.alive a p false e) ∙ l
      ] in
    let stays : (p : ℕ) → k.first ≤ k.rank p → v.alive p ≡ true → update v.alive a false p ≡ true =
      λ p high l.
        let other : (a == p) ≡ false = ground (arith, passed, high) in
        update-ne v.alive a p false other ∙ l in
    record {
      tail_alive = stays v.tail (omega (arith, s.tail_rank, s.order)) s.tail_alive;
      tail_rank = s.tail_rank;
      head_alive = stays v.head (omega (arith, s.head_rank)) s.head_alive;
      head_rank = s.head_rank;
      order = s.order;
      positive = λ p l. s.positive p (was p l);
      unique = λ p q l l'. s.unique p q (was p l) (was q l');
      limit = λ p l. s.limit p (was p l);
      beyond = λ p l. s.beyond p (was p l);
      linked = λ p l. s.linked p (was p l);
      ends = λ p l. s.ends p (was p l);
      single = λ p l. s.single p (was p l);
      succeeds = λ p l high has.
          let (there, ranked) = s.succeeds p (was p l) high has in
          (stays (get_ptr (v.next p)) (omega (arith, ranked, high)) there, ranked);
      unlinked = λ p l. s.unlinked p (was p l);
    }
