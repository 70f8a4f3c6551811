-- ===== src/Text/Words/ZeroByte.antt =====
-- The test that finds a zero byte in a word.
use fvploader.Prelude.{
  ℕ, ◌+◌, ◌-◌, ◌/◌, ◌%◌, ◌^◌, ◌<◌, ◌≡◌, ◌≢◌, refl, sym, ap, ap₂, ◌∙◌, arith, halve, bit_xor-digit,
  bit_and-digit, of_bytes,
}
use Prim.Native.Nat.{bit_xor}
use fvploader.Text.Words.{word_test, word_of}

-- A digit of the test is 0 where the mask selects it: the sum has the digit that the word has not.
digit_flipped :
    (k ch : ℕ)
    → word_test ch ≡ 0
    → halve k 0x81010100 % 2 ≡ 1
    → (halve k ((0x7EFEFEFF + ch) % 2 ^ 32) + (halve k ch + halve k (2 ^ 32 - 1))) % 2 ≡ 0
unfolding word_test
digit_flipped k ch e one =
    let sum = (0x7EFEFEFF + ch) % 2 ^ 32 in
    let flipped = bit_xor ch (2 ^ 32 - 1) in
    omega (
      arith,
      bit_and-digit k (bit_xor sum flipped) 0x81010100 e one,
      bit_xor-digit k sum flipped,
      bit_xor-digit k ch (2 ^ 32 - 1),
    )

-- the four bytes of a word
abbrev pub AreBytes : ℕ → ℕ → ℕ → ℕ → Type 0
AreBytes a b c d = (a < 256) × (b < 256) × (c < 256) × (d < 256)

low_bytes : (a b c d : ℕ) → AreBytes a b c d → word_test (word_of a b c d) ≡ 0 → (a ≢ 0) × (b ≢ 0)
unfolding of_bytes
low_bytes a b c d (ha, hb, hc, hd) e = (
  λ z. omega (arith, z, digit_flipped 8 (word_of a b c d) e refl),
  λ z. omega (arith, z, digit_flipped 16 (word_of a b c d) e refl),
)

halve16 : (x : ℕ) → halve 16 x ≡ x / 2 ^ 16
halve16 x = omega arith

halve15 : (x : ℕ) → halve 15 x ≡ x / 2 ^ 15
halve15 x = omega arith

halve31 : (x : ℕ) → halve 31 x ≡ x / 2 ^ 31
halve31 x = ap (halve 15) (halve16 x) ∙ halve15 (x / 2 ^ 16) ∙ omega arith

high_digit :
    (ch : ℕ) → word_test ch ≡ 0 → ((0x7EFEFEFF + ch) % 2 ^ 32 / 2 ^ 31 + (ch / 2 ^ 31 + 1)) % 2 ≡ 0
high_digit ch e =
    let sum = (0x7EFEFEFF + ch) % 2 ^ 32 in
    sym (ap₂ (λ x y. (x + (y + 1)) % 2) (halve31 sum) (halve31 ch)) ∙ digit_flipped 31 ch e refl

-- A word of bytes that passes the test has no zero byte.
pub word_test-nonzero :
    (a b c d : ℕ)
    → AreBytes a b c d
    → word_test (word_of a b c d) ≡ 0
    → (a ≢ 0) × (b ≢ 0) × (c ≢ 0) × (d ≢ 0)
unfolding of_bytes
word_test-nonzero a b c d (ha, hb, hc, hd) e = (
  (low_bytes a b c d (ha, hb, hc, hd) e).0,
  (low_bytes a b c d (ha, hb, hc, hd) e).1,
  λ z. omega (arith, z, digit_flipped 24 (word_of a b c d) e refl),
  λ z. omega (arith, z, high_digit (word_of a b c d) e),
)
