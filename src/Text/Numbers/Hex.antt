-- ===== src/Text/Numbers/Hex.antt =====
-- What the hexadecimal readers make of a text of digits, in either case of letters.
use fvploader.Prelude.{
  ℕ, ◌+◌, ◌-◌, ◌*◌, ◌%◌, ◌^◌, ◌<◌, ◌≡◌, refl, ap, ◌∙◌, Bool, true, false, ltb, if◌then◌else◌, some,
  List, [], ◌∷◌, ◌++◌, arith,
}
use fvploader.Text.Numbers.{hex_value, hex_loop, string_to_int32_hex_w, string_to_int64_hex_w}
use fvploader.Text.Numbers.Decimal.{AllBelow, value_from, step_value}

-- a hexadecimal digit as it is typed, with a capital or a small letter
abbrev pub hex_unit : Bool → ℕ → ℕ
hex_unit capital d = if ltb d 10 then b'0' + d else (if capital then b'A' else b'a') + (d - 10)

abbrev pub hex_text : Bool → List ℕ → List ℕ
hex_text capital [] = []
hex_text capital (d ∷ ds) = hex_unit capital d ∷ hex_text capital ds

hex_value-unit : (capital : Bool) (d : ℕ) → d < 16 → hex_value (hex_unit capital d) ≡ some d
unfolding hex_value
hex_value-unit true d h = ground arith
hex_value-unit false d h = ground arith

hex_step :
    (bits : ℕ) (capital : Bool) (m d : ℕ) (p : List ℕ)
    → d < 16
    → hex_loop bits m (hex_unit capital d ∷ p) ≡ hex_loop bits ((m * 16 + d) % 2 ^ bits) p
unfolding hex_loop
hex_step bits true m d p h = ground (arith, hex_value-unit true d h)
hex_step bits false m d p h = ground (arith, hex_value-unit false d h)

hex_digits :
    (bits : ℕ) (capital : Bool) (m n : ℕ) (ds p : List ℕ)
    → AllBelow 16 ds
    → m ≡ n % 2 ^ bits
    → hex_loop bits m (hex_text capital ds ++ p) ≡ hex_loop bits (value_from 16 n ds % 2 ^ bits) p
hex_digits bits capital m n [] p h e = ap (λ r. hex_loop bits r p) e
hex_digits bits capital m n (d ∷ ds) p (lt, h) e =
    hex_step bits capital m d (hex_text capital ds ++ p) lt
    ∙ hex_digits bits capital ((m * 16 + d) % 2 ^ bits) (n * 16 + d) ds p h
        (step_value (2 ^ bits) 16 m n d e)

-- A hexadecimal number that ends at a terminator, in capital or small letters, is read as its
-- value, as a word of 32 or 64 bits.
pub string_to_int_hex-digits :
    (capital : Bool) (ds rest : List ℕ)
    → AllBelow 16 ds
    → (string_to_int32_hex_w (hex_text capital ds ++ 0 ∷ rest) ≡ some (value_from 16 0 ds % 2 ^ 32))
      × (string_to_int64_hex_w (hex_text capital ds ++ 0 ∷ rest)
          ≡ some (value_from 16 0 ds % 2 ^ 64))
unfolding string_to_int32_hex_w string_to_int64_hex_w hex_loop
string_to_int_hex-digits capital ds rest h =
    (hex_digits 32 capital 0 0 ds (0 ∷ rest) h refl, hex_digits 64 capital 0 0 ds (0 ∷ rest) h refl)
