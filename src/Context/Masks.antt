-- ===== src/Context/Masks.antt =====
-- `&` with a mask of high bits rounds down.
use Prim.Native.Nat.{bit_and}
use uring_fiber.Prelude.Digits.{zero-bit_and, bit_and_halves}
use native.Mathlib.Nat.{pow-suc, div-div-eq-div-mul}
use uring_fiber.Prelude.{
  ℕ, zero, suc, ◌-◌, ◌*◌, ◌/◌, ◌%◌, ◌^◌, ◌≤◌, ◌<◌, ◌≡◌, ap, sym, subst, ◌∙◌, arith,
}

bit_and-zero_below : (n a : ℕ) → a ≤ n → bit_and a 0 ≡ 0
bit_and-zero_below n zero h = zero-bit_and 0
bit_and-zero_below zero (suc a) h = absurd (omega arith)
bit_and-zero_below (suc n) (suc a) h =
    omega (arith, bit_and_halves (suc a) 0, bit_and-zero_below n (suc a / 2) (omega arith))

pub bit_and-one : (b : ℕ) → bit_and b 1 ≡ b % 2
bit_and-one b = omega (arith, bit_and_halves b 1, bit_and-zero_below (b / 2) (b / 2) (omega arith))

-- A mask of all `m` bits keeps a number that has no more.
bit_and_all : (m x : ℕ) → x < 2 ^ m → bit_and x (2 ^ m - 1) ≡ x
bit_and_all zero x h = omega (arith, bit_and-zero_below x x (omega arith))
bit_and_all (suc m) x h =
    let p = pow-suc 2 m in
    let half : (2 ^ suc m - 1) / 2 ≡ 2 ^ m - 1 = omega (arith, p, h) in
    omega (
      arith,
      p,
      h,
      bit_and_halves x (2 ^ suc m - 1),
      ap (bit_and (x / 2)) half,
      bit_and_all m (x / 2) (omega (arith, p, h)),
    )

-- A mask of `m` high bits, above `k` low ones.
bit_and_high :
    (k m x : ℕ) → x < 2 ^ m * 2 ^ k → bit_and x (2 ^ m * 2 ^ k - 2 ^ k) ≡ x / 2 ^ k * 2 ^ k
bit_and_high zero m x h =
    ap (λ (t : ℕ). bit_and x (t - 1)) (omega arith)
    ∙ bit_and_all m x (omega (arith, h))
    ∙ omega arith
bit_and_high (suc k) m x h =
    let p = pow-suc 2 k in
    let whole : 2 ^ m * 2 ^ suc k ≡ 2 ^ m * 2 ^ k * 2 =
      omega (arith, ap (λ (t : ℕ). 2 ^ m * t) p) in
    let mask : (2 ^ m * 2 ^ suc k - 2 ^ suc k) / 2 ≡ 2 ^ m * 2 ^ k - 2 ^ k =
      omega (arith, p, whole) in
    let quotient : x / 2 / 2 ^ k ≡ x / 2 ^ suc k =
      div-div-eq-div-mul x 2 (2 ^ k) ∙ ap (λ (t : ℕ). x / t) (omega (arith, p)) in
    omega (
      arith,
      p,
      whole,
      h,
      bit_and_halves x (2 ^ m * 2 ^ suc k - 2 ^ suc k),
      ap (bit_and (x / 2)) mask,
      bit_and_high k m (x / 2) (omega (arith, h, whole)),
      ap (λ (t : ℕ). t * 2 ^ k) quotient,
      ap (λ (t : ℕ). x / 2 ^ suc k * t) p,
    )

-- The mask in 64 bits, for a page of `2 ^ k` bytes.
pub bit_and_page :
    (k m x : ℕ)
    → 2 ^ m * 2 ^ k ≡ 2 ^ 64
    → x < 2 ^ 64
    → bit_and x (2 ^ 64 - 2 ^ k) ≡ x / 2 ^ k * 2 ^ k
bit_and_page k m x whole h =
    ap (λ (t : ℕ). bit_and x (t - 2 ^ k)) (sym whole)
    ∙ bit_and_high k m x (subst (λ t. x < t) (sym whole) h)
