-- ===== src/LfQueue/Safe/Shape.antt =====
-- The nodes of `LFQueue` as a queue, while threads work on it.
use uring_fiber.Prelude.{
  ℕ, ◌+◌, ◌<◌, ◌≤◌, ◌≡◌, ◌≢◌, refl, sym, ◌∙◌, true, false, update, ◌==◌, ==_iff, Bool-cases, inl,
  inr, arith,
}
use uring_fiber.LfQueue.Packed.{get_ptr, get_count}
use uring_fiber.LfQueue.Safe.{View, Ranks}

-- The nodes that are linked are ranked without a gap from the head on, and the tail leads to the last but one
-- of them or to the last.
pub record Shape (v : View) (k : Ranks) : Type 0 where
  pub tail_alive : v.alive v.tail ≡ true
  pub tail_rank : k.rank v.tail ≡ k.last
  pub head_alive : v.alive v.head ≡ true
  pub head_rank : k.rank v.head ≡ k.first
  pub order : (0 < k.first) × (k.first ≤ k.last)
  pub positive : (p : ℕ) → v.alive p ≡ true → p ≢ 0
  pub unique :
      (p q : ℕ) → v.alive p ≡ true → v.alive q ≡ true → 0 < k.rank p → k.rank p ≡ k.rank q → p ≡ q
  pub limit : (p : ℕ) → v.alive p ≡ true → k.rank p ≤ k.last + 1
  pub beyond : (p : ℕ) → v.alive p ≡ true → k.rank p ≡ k.last + 1 → v.next v.tail ≢ 0
  pub linked : (p : ℕ) → v.alive p ≡ true → 0 < k.rank p → k.rank p < k.last → v.next p ≢ 0
  pub ends : (p : ℕ) → v.alive p ≡ true → k.last < k.rank p → v.next p ≡ 0
  pub single : (p : ℕ) → v.alive p ≡ true → v.next p ≢ 0 → get_count (v.next p) ≡ 1
  pub succeeds :
      (p : ℕ)
      → v.alive p ≡ true
      → k.first ≤ k.rank p
      → v.next p ≢ 0
      → (v.alive (get_ptr (v.next p)) ≡ true) × (k.rank (get_ptr (v.next p)) ≡ k.rank p + 1)
  pub unlinked :
      (p : ℕ)
      → v.alive p ≡ true
      → k.rank p ≡ 0
      → (v.next p ≡ 0) × (v.internal p ≡ 0) × (v.external p ≡ 2)

pub update-eq : {A : Type 0} (f : ℕ → A) (a p : ℕ) (x : A) → (a == p) ≡ true → update f a x p ≡ x
update-eq f a p x e = rw e refl

pub update-ne : {A : Type 0} (f : ℕ → A) (a p : ℕ) (x : A) → (a == p) ≡ false → update f a x p ≡ f p
update-ne f a p x e = rw e refl

-- A new node, at an address where there was none.
abbrev pub with_new : ℕ → View → View
with_new a v = record v {
  alive = update v.alive a true;
  next = update v.next a 0;
  internal = update v.internal a 0;
  external = update v.external a 2;
}

abbrev pub with_rank : ℕ → ℕ → Ranks → Ranks
with_rank a n k = record k { rank = update k.rank a n }

pub new-Shape :
    (v : View) (k : Ranks) (a : ℕ)
    → v.alive a ≡ false
    → a ≢ 0
    → Shape v k
    → Shape (with_new a v) (with_rank a 0 k)
new-Shape v k a fresh nonzero s =
    let tail_ne : (a == v.tail) ≡ false = ground (arith, fresh, s.tail_alive) in
    let head_ne : (a == v.head) ≡ false = ground (arith, fresh, s.head_alive) in
    record {
      tail_alive = rw tail_ne s.tail_alive;
      tail_rank = rw tail_ne s.tail_rank;
      head_alive = rw head_ne s.head_alive;
      head_rank = rw head_ne s.head_rank;
      order = s.order;
      positive = λ p l. elim (Bool-cases (a == p)) [
        | inl e ↦ λ z. nonzero ((==_iff a p).0 e ∙ z)
        | inr e ↦ s.positive p (sym (update-ne v.alive a p true e) ∙ l)
      ];
      unique = λ p q l l' some_rank same. elim (Bool-cases (a == p)) [
        | inl e ↦ absurd (omega (arith, some_rank, update-eq k.rank a p 0 e))
        | inr e ↦ elim (Bool-cases (a == q)) [
          | inl f ↦ absurd (omega (arith, some_rank, same, update-eq k.rank a q 0 f))
          | inr f ↦
              s.unique p q (sym (update-ne v.alive a p true e) ∙ l)
                (sym (update-ne v.alive a q true f) ∙ l')
                (omega (arith, some_rank, update-ne k.rank a p 0 e))
                (sym (update-ne k.rank a p 0 e) ∙ same ∙ update-ne k.rank a q 0 f)
        ]
      ];
      limit = λ p l. elim (Bool-cases (a == p)) [
        | inl e ↦ omega (arith, update-eq k.rank a p 0 e)
        | inr e ↦ rw e (s.limit p (sym (update-ne v.alive a p true e) ∙ l))
      ];
      beyond = λ p l high. elim (Bool-cases (a == p)) [
        | inl e ↦ absurd (omega (arith, high, update-eq k.rank a p 0 e))
        | inr e ↦ rw tail_ne (
            s.beyond p (sym (update-ne v.alive a p true e) ∙ l)
              (sym (update-ne k.rank a p 0 e) ∙ high))
      ];
      linked = λ p l some_rank low. elim (Bool-cases (a == p)) [
        | inl e ↦ absurd (omega (arith, some_rank, update-eq k.rank a p 0 e))
        | inr e ↦ rw e (
            s.linked p (sym (update-ne v.alive a p true e) ∙ l)
              (omega (arith, some_rank, update-ne k.rank a p 0 e))
              (omega (arith, low, update-ne k.rank a p 0 e)))
      ];
      ends = λ p l high. elim (Bool-cases (a == p)) [
        | inl e ↦ rw e refl
        | inr e ↦ rw e (
            s.ends p (sym (update-ne v.alive a p true e) ∙ l)
              (omega (arith, high, update-ne k.rank a p 0 e)))
      ];
      single = λ p l has. elim (Bool-cases (a == p)) [
        | inl e ↦ absurd (has (update-eq v.next a p 0 e))
        | inr e ↦ rw e (
            s.single p (sym (update-ne v.alive a p true e) ∙ l)
              (λ z. has (update-ne v.next a p 0 e ∙ z)))
      ];
      succeeds = λ p l high has. elim (Bool-cases (a == p)) [
        | inl e ↦ absurd (has (update-eq v.next a p 0 e))
        | inr e ↦
            let l' = sym (update-ne v.alive a p true e) ∙ l in
            let (there, ranked) =
              s.succeeds p l' (omega (arith, high, update-ne k.rank a p 0 e))
                (λ z. has (update-ne v.next a p 0 e ∙ z)) in
            let other : (a == get_ptr (v.next p)) ≡ false = ground (arith, fresh, there) in
            rw (e, other) (there, ranked)
      ];
      unlinked = λ p l none_yet. elim (Bool-cases (a == p)) [
        | inl e ↦ rw e (refl, refl, refl)
        | inr e ↦ rw e (
            s.unlinked p (sym (update-ne v.alive a p true e) ∙ l)
              (sym (update-ne k.rank a p 0 e) ∙ none_yet))
      ];
    }
