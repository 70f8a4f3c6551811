-- ===== src/Prelude/Bits.antt =====
-- Binary digits: how `bit_and` and `bit_xor` of numbers follow from those of their halves.
use Prim.Native.Nat.{
  ℕ, zero, suc, ◌+◌, ◌*◌, ◌/◌, ◌%◌, ◌≤◌, ◌<◌, min, digits, bitwise, differ, bit_and, bit_xor,
  bit_and-bitwise, bit_xor-bitwise,
}
use mathlib.Core.Path.{◌≡◌, refl, sym, ap, ◌∙◌}
use native.Mathlib.Omega.{arith}

module _ (z : ℕ → ℕ) (f : ℕ → ℕ → ℕ) where
  -- A count of digits that is large enough does not matter.
  digits_count : (n m a b : ℕ) → a ≤ n → a ≤ m → digits z f n a b ≡ digits z f m a b
  digits_count zero zero a b h g = refl
  digits_count zero (suc m) zero b h g = refl
  digits_count (suc n) zero zero b h g = refl
  digits_count (suc n) (suc m) zero b h g = refl
  digits_count (suc n) (suc m) (suc a) b h g =
      ap (λ d. d * 2 + f (suc a % 2) (b % 2))
        (digits_count n m (suc a / 2) (b / 2) (omega arith) (omega arith))
  digits_count zero m (suc a) b h g = absurd (omega arith)
  digits_count n zero (suc a) b h g = absurd (omega arith)

  -- The lowest digit apart, for an operation that agrees with the end of the first number.
  bitwise_step :
      (a b : ℕ)
      → z b ≡ z (b / 2) * 2 + f 0 (b % 2)
      → bitwise z f a b ≡ bitwise z f (a / 2) (b / 2) * 2 + f (a % 2) (b % 2)
  bitwise_step zero b e = e
  bitwise_step (suc a) b e =
      ap (λ d. d * 2 + f (suc a % 2) (b % 2))
        (digits_count a (suc a / 2) (suc a / 2) (b / 2) (omega arith) (omega arith))

as_bitwise_and : (a b : ℕ) → bit_and a b ≡ bitwise (λ b. 0) min a b
as_bitwise_and a b = λ i. bit_and-bitwise a b i

as_bitwise_xor : (a b : ℕ) → bit_xor a b ≡ bitwise (λ b. b) differ a b
as_bitwise_xor a b = λ i. bit_xor-bitwise a b i

pub bit_and_step : (a b : ℕ) → bit_and a b ≡ bit_and (a / 2) (b / 2) * 2 + min (a % 2) (b % 2)
bit_and_step a b =
    as_bitwise_and a b
    ∙ bitwise_step (λ b. 0) min a b (omega arith)
    ∙ ap (λ d. d * 2 + min (a % 2) (b % 2)) (sym (as_bitwise_and (a / 2) (b / 2)))

differ_end : (b : ℕ) → b ≡ b / 2 * 2 + differ 0 (b % 2)
differ_end b = omega arith

differ_bit : (a b : ℕ) → a < 2 → b < 2 → differ a b ≡ (a + b) % 2
differ_bit zero b h g = omega arith
differ_bit (suc zero) zero h g = refl
differ_bit (suc zero) (suc zero) h g = refl
differ_bit (suc zero) (suc (suc b)) h g = absurd (omega arith)
differ_bit (suc (suc a)) b h g = absurd (omega arith)

pub bit_xor_step : (a b : ℕ) → bit_xor a b ≡ bit_xor (a / 2) (b / 2) * 2 + (a + b) % 2
bit_xor_step a b =
    as_bitwise_xor a b
    ∙ bitwise_step (λ b. b) differ a b (differ_end b)
    ∙ ap (λ d. d * 2 + differ (a % 2) (b % 2)) (sym (as_bitwise_xor (a / 2) (b / 2)))
    ∙ ap (λ d. bit_xor (a / 2) (b / 2) * 2 + d)
        (differ_bit (a % 2) (b % 2) (omega arith) (omega arith) ∙ omega arith)

-- `k` digits dropped
abbrev pub halve : ℕ → ℕ → ℕ
halve zero a = a
halve (suc k) a = halve k (a / 2)

-- A digit of an exclusive or.
pub bit_xor-digit : (k a b : ℕ) → halve k (bit_xor a b) % 2 ≡ (halve k a + halve k b) % 2
bit_xor-digit zero a b = omega (arith, bit_xor_step a b)
bit_xor-digit (suc k) a b =
    let e : bit_xor a b / 2 ≡ bit_xor (a / 2) (b / 2) = omega (arith, bit_xor_step a b) in
    ap (λ x. halve k x % 2) e ∙ bit_xor-digit k (a / 2) (b / 2)

-- A number of which a mask selects nothing has the digit 0 wherever the mask has 1.
pub bit_and-digit : (k a mask : ℕ) → bit_and a mask ≡ 0 → halve k mask % 2 ≡ 1 → halve k a % 2 ≡ 0
bit_and-digit zero a mask e one = omega (arith, bit_and_step a mask)
bit_and-digit (suc k) a mask e one =
    bit_and-digit k (a / 2) (mask / 2) (omega (arith, bit_and_step a mask)) one
