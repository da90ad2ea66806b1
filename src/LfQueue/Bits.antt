-- ===== src/LfQueue/Bits.antt =====
-- `|` on numbers whose bits do not overlap is their sum.
use Prim.Native.Nat.{ℕ, zero, suc, ◌+◌, ◌*◌, ◌/◌, ◌^◌, ◌≤◌, ◌<◌, bit_or}
use mathlib.Core.Path.{◌≡◌, ap, ap₂, ◌∙◌}
use native.Mathlib.Nat.{pow-suc}
use uring_fiber.Prelude.Digits.{zero-bit_or, bit_or_halves}
use native.Mathlib.Omega.{arith}

bit_or-zero_fuel : (n a : ℕ) → a ≤ n → bit_or a 0 ≡ a
bit_or-zero_fuel n zero h = zero-bit_or 0
bit_or-zero_fuel zero (suc a) h = absurd (omega arith)
bit_or-zero_fuel (suc n) (suc a) h =
    omega (arith, bit_or_halves (suc a) 0, bit_or-zero_fuel n (suc a / 2) (omega arith))

module _ (k h : ℕ) where
  doubled : h * 2 ^ suc k ≡ h * 2 ^ k * 2
  doubled = omega (arith, ap (λ (t : ℕ). h * t) (pow-suc 2 k))

  doubled_half : h * 2 ^ suc k / 2 ≡ h * 2 ^ k
  doubled_half = omega (arith, doubled)

pub bit_or_disjoint : (k h p : ℕ) → p < 2 ^ k → bit_or p (h * 2 ^ k) ≡ h * 2 ^ k + p
bit_or_disjoint zero h p lt =
    let whole : h * 2 ^ 0 ≡ h = omega arith in
    let none_left : p ≡ 0 = omega arith in ap₂ bit_or none_left whole ∙ zero-bit_or h ∙ omega arith
bit_or_disjoint (suc k) h p lt = omega (
  arith,
  pow-suc 2 k,
  doubled k h,
  bit_or_halves p (h * 2 ^ suc k),
  ap (bit_or (p / 2)) (doubled_half k h),
  bit_or_disjoint k h (p / 2) (omega (arith, pow-suc 2 k)),
)

pub bit_or_disjoint_above : (k h p : ℕ) → p < 2 ^ k → bit_or (h * 2 ^ k) p ≡ h * 2 ^ k + p
bit_or_disjoint_above zero h p lt =
    let whole : h * 2 ^ 0 ≡ h = omega arith in
    let none_left : p ≡ 0 = omega arith in
    ap₂ bit_or whole none_left ∙ bit_or-zero_fuel h h (omega arith) ∙ omega arith
bit_or_disjoint_above (suc k) h p lt = omega (
  arith,
  pow-suc 2 k,
  doubled k h,
  bit_or_halves (h * 2 ^ suc k) p,
  ap (λ (x : ℕ). bit_or x (p / 2)) (doubled_half k h),
  bit_or_disjoint_above k h (p / 2) (omega (arith, pow-suc 2 k)),
)
