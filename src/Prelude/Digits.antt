-- ===== src/Prelude/Digits.antt =====
-- The bit operations by halves. The native ones are defined by a recursion on the count of digits to go.
use Prim.Native.Nat.{
  ℕ, zero, suc, ◌+◌, ◌-◌, ◌*◌, ◌/◌, ◌%◌, ◌≤◌, min, max, digits, bitwise, bit_and, bit_or,
  bit_and-bitwise, bit_or-bitwise,
}
use mathlib.Core.Path.{◌≡◌, refl, ap, sym, ◌∙◌}
use native.Mathlib.Omega.{arith}

module _ (z : ℕ → ℕ) (f : ℕ → ℕ → ℕ) where
  one_more_digit : (n a b : ℕ) → a ≤ n → digits z f (suc n) a b ≡ digits z f n a b
  one_more_digit zero zero b h = refl
  one_more_digit (suc n) zero b h = refl
  one_more_digit zero (suc a) b h = absurd (omega arith)
  one_more_digit (suc n) (suc a) b h =
      ap (λ (t : ℕ). t * 2 + f (suc a % 2) (b % 2))
        (one_more_digit n (suc a / 2) (b / 2) (omega (arith, h)))

  more_digits : (d n m a b : ℕ) → a ≤ n → m ≡ d + n → digits z f m a b ≡ digits z f n a b
  more_digits zero n m a b h e =
      let same : m ≡ n = omega (arith, e) in ap (λ k. digits z f k a b) same
  more_digits (suc d) n m a b h e =
      let one_less : m ≡ suc (d + n) = omega (arith, e) in
      ap (λ k. digits z f k a b) one_less
      ∙ one_more_digit (d + n) a b (omega (arith, h))
      ∙ more_digits d n (d + n) a b h refl

  bitwise_halves :
      (a b : ℕ)
      → bitwise z f (suc a) b ≡ bitwise z f (suc a / 2) (b / 2) * 2 + f (suc a % 2) (b % 2)
  bitwise_halves a b =
      ap (λ (t : ℕ). t * 2 + f (suc a % 2) (b % 2))
        (more_digits (a - suc a / 2) (suc a / 2) a (suc a / 2) (b / 2) (omega arith) (omega arith))

pub zero-bit_or : (b : ℕ) → bit_or 0 b ≡ b
zero-bit_or b = bit_or-bitwise 0 b

pub zero-bit_and : (b : ℕ) → bit_and 0 b ≡ 0
zero-bit_and b = bit_and-bitwise 0 b

pub bit_or_halves : (a b : ℕ) → bit_or a b ≡ bit_or (a / 2) (b / 2) * 2 + max (a % 2) (b % 2)
bit_or_halves zero b = omega (arith, zero-bit_or b, zero-bit_or (b / 2))
bit_or_halves (suc a) b =
    bit_or-bitwise (suc a) b
    ∙ bitwise_halves (λ c. c) max a b
    ∙ ap (λ (t : ℕ). t * 2 + max (suc a % 2) (b % 2)) (sym (bit_or-bitwise (suc a / 2) (b / 2)))

pub bit_and_halves : (a b : ℕ) → bit_and a b ≡ bit_and (a / 2) (b / 2) * 2 + min (a % 2) (b % 2)
bit_and_halves zero b = omega (arith, zero-bit_and b, zero-bit_and (b / 2))
bit_and_halves (suc a) b =
    bit_and-bitwise (suc a) b
    ∙ bitwise_halves (λ _. zero) min a b
    ∙ ap (λ (t : ℕ). t * 2 + min (suc a % 2) (b % 2)) (sym (bit_and-bitwise (suc a / 2) (b / 2)))
