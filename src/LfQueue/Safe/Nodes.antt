-- ===== src/LfQueue/Safe/Nodes.antt =====
-- Accesses that keep the references sound: a thread makes a node of its own, deletes it, or links it.
use uring_fiber.Prelude.{
  ℕ, zero, suc, ◌<◌, ◌≡◌, ◌≢◌, refl, ap, sym, ◌∙◌, true, false, update, ◌==◌, ==_iff, Bool-cases,
  inl, inr, arith,
}
use uring_fiber.LfQueue.Packed.{get_ptr, get_count}
use uring_fiber.LfQueue.Safe.{Role, View, Ranks, tally}
use uring_fiber.LfQueue.Safe.Shape.{with_new, with_rank, new-Shape, update-eq, update-ne}
use uring_fiber.LfQueue.Safe.Moves.{without, without-Shape}
use uring_fiber.LfQueue.Safe.Sound.{Fine, update-Sound, Safe}
use uring_fiber.LfQueue.Safe.Delta.{externals-follow, internals-follow}

Fine-new :
    (v : View) (k : Ranks) (a : ℕ) (q : Role)
    → v.alive a ≡ false
    → Fine v k q
    → Fine (with_new a v) (with_rank a 0 k) q
Fine-new v k a q fresh f = record {
  holds = λ h.
      let (there, some_rank, most) = f.holds h in
      let other : (a == q.held) ≡ false = ground (arith, fresh, there) in
      rw other (there, some_rank, most);
  owning = λ o.
      let (there, none_yet, one) = f.owning o in
      let other : (a == get_ptr q.owns) ≡ false = ground (arith, fresh, there) in
      rw other (there, none_yet, one);
  reads = λ z.
      let (h, is) = f.reads z in
      let other : (a == q.held) ≡ false = ground (arith, fresh, (f.holds h).0) in rw other (h, is);
  trails = λ z.
      let (h, low) = f.trails z in
      let other : (a == q.held) ≡ false = ground (arith, fresh, (f.holds h).0) in rw other (h, low);
}

-- A thread without a node of its own makes one.
pub new-Safe :
    (n : ℕ) (v : View) (k : Ranks) (r : ℕ → Role) (i w : ℕ)
    → i < n
    → v.alive (get_ptr w) ≡ false
    → get_ptr w ≢ 0
    → get_count w ≡ 1
    → Safe n v k r
    → Safe n
        (with_new (get_ptr w) v)
        (with_rank (get_ptr w) 0 k)
        (update r i (record (r i) { owns = w }))
new-Safe n v k r i w few fresh nonzero one s =
    let a = get_ptr w in
    let q : Role = record (r i) { owns = w } in
    let v' = with_new a v in
    let k' = with_rank a 0 k in
    let mine = Fine-new v k a (r i) fresh (s.sound.fine i) in
    record {
      shape = new-Shape v k a fresh nonzero s.shape;
      sound =
          update-Sound n v v' k k' r i q few (λ j ne f. Fine-new v k a (r j) fresh f)
            record {
              holds = mine.holds;
              owning = λ o.
                  let same : (a == a) ≡ true = (==_iff a a).1 refl in rw same (refl, refl, one);
              reads = mine.reads;
              trails = mine.trails;
            }
            (λ own j ne other same.
              let (there, _, _) = (s.sound.fine j).owning other in
              cc (fresh, ap v.alive same, there))
            s.sound;
      counted = record {
        externals = λ p l some_rank. elim (Bool-cases (a == p)) [
          | inl e ↦ absurd (omega (arith, some_rank, update-eq k.rank a p 0 e))
          | inr e ↦
              externals-follow n v v' k k' r i q few s.counted p
                (sym (update-ne v.alive a p true e) ∙ l)
                (omega (arith, some_rank, update-ne k.rank a p 0 e)) (rw e refl)
        ];
        bounded = λ p l some_rank. elim (Bool-cases (a == p)) [
          | inl e ↦ absurd (omega (arith, some_rank, update-eq k.rank a p 0 e))
          | inr e ↦ rw e (
              s.counted.bounded p (sym (update-ne v.alive a p true e) ∙ l)
                (omega (arith, some_rank, update-ne k.rank a p 0 e)))
        ];
        internals = λ p l some_rank. elim (Bool-cases (a == p)) [
          | inl e ↦ absurd (omega (arith, some_rank, update-eq k.rank a p 0 e))
          | inr e ↦
              internals-follow n v v' k k' r i q few s.counted p
                (sym (update-ne v.alive a p true e) ∙ l)
                (omega (arith, some_rank, update-ne k.rank a p 0 e)) (rw e refl)
        ];
      };
    }

-- A thread that gives up its node, having read `z` behind the node that it refers to, or nothing.
abbrev pub owns_none : ℕ → Role → Role
owns_none z q = record q { owns = 0; successor = z }

Fine-without :
    (v : View) (k : Ranks) (a : ℕ) (q : Role)
    → k.rank a ≡ 0
    → (q.owns ≢ 0 → a ≢ get_ptr q.owns)
    → Fine v k q
    → Fine (without a v) k q
Fine-without v k a q private other f = record {
  holds = λ h.
      let (there, some_rank, most) = f.holds h in
      let ne : (a == q.held) ≡ false = ground (arith, private, some_rank) in
      rw ne (there, some_rank, most);
  owning = λ o.
      let (there, none_yet, one) = f.owning o in
      let ne : (a == get_ptr q.owns) ≡ false = ground (arith, other o) in
      rw ne (there, none_yet, one);
  reads = f.reads;
  trails = f.trails;
}

-- A thread deletes its own node.
pub drop-Safe :
    (n : ℕ) (v : View) (k : Ranks) (r : ℕ → Role) (i w z : ℕ)
    → i < n
    → (r i).owns ≡ w
    → w ≢ 0
    → (z ≢ 0 → ((r i).held ≢ 0) × (v.next (r i).held ≡ z))
    → Safe n v k r
    → Safe n (without (get_ptr w) v) k (update r i (owns_none z (r i)))
drop-Safe n v k r i w z few owns some_w read s =
    let a = get_ptr w in
    let q = owns_none z (r i) in
    let v' = without a v in
    let owner : (r i).owns ≢ 0 = λ e. some_w (sym owns ∙ e) in
    let (there, private, _) = (s.sound.fine i).owning owner in
    let low : k.rank a ≡ 0 = sym (ap (λ x. k.rank (get_ptr x)) owns) ∙ private in
    let mine : Fine v k q = record {
      holds = (s.sound.fine i).holds;
      owning = λ o. absurd (o refl);
      reads = read;
      trails = (s.sound.fine i).trails;
    } in
    record {
      shape = without-Shape v k a (omega (arith, low, s.shape.order)) s.shape;
      sound =
          update-Sound n v v' k k r i q few
            (λ j ne f.
              Fine-without v k a (r j) low
                (λ o same. ne (s.sound.apart i j owner o (ap get_ptr owns ∙ same))) f)
            (Fine-without v k a q low (λ o. absurd (o refl)) mine) (λ o. absurd (o refl)) s.sound;
      counted = record {
        externals = λ p l some_rank.
            let ne : (a == p) ≡ false = ground (arith, low, some_rank) in
            externals-follow n v v' k k r i q few s.counted p
              (sym (update-ne v.alive a p false ne) ∙ l) some_rank refl;
        bounded = λ p l some_rank.
            let ne : (a == p) ≡ false = ground (arith, low, some_rank) in
            s.counted.bounded p (sym (update-ne v.alive a p false ne) ∙ l) some_rank;
        internals = λ p l some_rank.
            let ne : (a == p) ≡ false = ground (arith, low, some_rank) in
            internals-follow n v v' k k r i q few s.counted p
              (sym (update-ne v.alive a p false ne) ∙ l) some_rank refl;
      };
    }

-- Nobody refers to a node that is not linked.
pub tally-unlinked :
    (n : ℕ) (k : Ranks) (r : ℕ → Role) (f : Role → ℕ) (a : ℕ)
    → a ≢ 0
    → k.rank a ≡ 0
    → ((q : Role) → (q.held == a) ≡ false → f q ≡ 0)
    → ((i : ℕ) → (r i).held ≢ 0 → 0 < k.rank (r i).held)
    → tally n f r ≡ 0
tally-unlinked zero k r f a nonzero low none_for ranked = refl
tally-unlinked (suc n) k r f a nonzero low none_for ranked =
    let ne : ((r n).held == a) ≡ false = elim (Bool-cases ((r n).held == a)) [
      | inl e ↦
          let same = (==_iff (r n).held a).0 e in
          let some_rank = ranked n (λ z. nonzero (sym same ∙ z)) in
          absurd (omega (arith, some_rank, ap k.rank same, low))
      | inr e ↦ e
    ] in
    let here = none_for (r n) ne in
    let rest = tally-unlinked n k r f a nonzero low none_for ranked in omega (arith, here, rest)
