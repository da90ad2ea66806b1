-- ===== src/LfQueue/Safe/Tally.antt =====
-- Sums over the threads.
use uring_fiber.Prelude.{
  ℕ, zero, suc, ◌+◌, ◌<◌, ◌≤◌, ◌≡◌, ◌≢◌, refl, ap, false, update, ◌==◌, ==_iff, Bool-cases, inl,
  inr, arith,
}
use uring_fiber.LfQueue.Safe.{Role, tally}

-- A thread at or above `n` does not count.
tally-above :
    (n : ℕ) (f : Role → ℕ) (r : ℕ → Role) (i : ℕ) (q : Role)
    → n ≤ i
    → tally n f (update r i q) ≡ tally n f r
tally-above zero f r i q h = refl
tally-above (suc n) f r i q h =
    let ne : (i == n) ≡ false = ground (arith, h) in
    let rest = tally-above n f r i q (omega (arith, h)) in rw ne (omega (arith, rest))

-- One thread changes its weight.
pub tally-update :
    (n : ℕ) (f : Role → ℕ) (r : ℕ → Role) (i : ℕ) (q : Role)
    → i < n
    → tally n f (update r i q) + f (r i) ≡ tally n f r + f q
tally-update zero f r i q h = absurd (omega (arith, h))
tally-update (suc n) f r i q h = elim (Bool-cases (i == n)) [
  | inl e ↦
      let same : i ≡ n = (==_iff i n).0 e in
      let rest = tally-above n f r i q (omega (arith, same)) in
      let here : f (r i) ≡ f (r n) = ap (λ j. f (r j)) same in rw e (omega (arith, rest, here))
  | inr e ↦
      let ne : i ≢ n = λ z. cc ((==_iff i n).1 z) in
      let rest = tally-update n f r i q (omega (arith, h, ne)) in rw e (omega (arith, rest))
]

pub tally-zero :
    (n : ℕ) (f : Role → ℕ) (r : ℕ → Role) (i : ℕ) → tally n f r ≡ 0 → i < n → f (r i) ≡ 0
tally-zero zero f r i e h = absurd (omega (arith, h))
tally-zero (suc n) f r i e h = elim (Bool-cases (i == n)) [
  | inl z ↦
      let here : f (r i) ≡ f (r n) = ap (λ j. f (r j)) ((==_iff i n).0 z) in omega (arith, e, here)
  | inr z ↦
      let ne : i ≢ n = λ y. cc ((==_iff i n).1 y) in
      tally-zero n f r i (omega (arith, e)) (omega (arith, h, ne))
]

-- Weights of at most 1.
pub tally-bound : (n : ℕ) (f : Role → ℕ) (r : ℕ → Role) → ((q : Role) → f q ≤ 1) → tally n f r ≤ n
tally-bound zero f r b = omega arith
tally-bound (suc n) f r b =
    let here = b (r n) in let rest = tally-bound n f r b in omega (arith, here, rest)

-- A weight that is 0 wherever another one is.
pub tally-follows :
    (n : ℕ) (f g : Role → ℕ) (r : ℕ → Role)
    → ((q : Role) → f q ≡ 0 → g q ≡ 0)
    → tally n f r ≡ 0
    → tally n g r ≡ 0
tally-follows zero f g r k e = refl
tally-follows (suc n) f g r k e =
    let here = k (r n) (omega (arith, e)) in
    let rest = tally-follows n f g r k (omega (arith, e)) in omega (arith, here, rest)

-- The weight of one thread is part of the sum.
pub tally-part : (n : ℕ) (f : Role → ℕ) (r : ℕ → Role) (i : ℕ) → i < n → f (r i) ≤ tally n f r
tally-part zero f r i h = absurd (omega (arith, h))
tally-part (suc n) f r i h = elim (Bool-cases (i == n)) [
  | inl z ↦
      let here : f (r i) ≡ f (r n) = ap (λ j. f (r j)) ((==_iff i n).0 z) in omega (arith, here)
  | inr z ↦
      let ne : i ≢ n = λ y. cc ((==_iff i n).1 y) in
      let rest = tally-part n f r i (omega (arith, h, ne)) in omega (arith, rest)
]
