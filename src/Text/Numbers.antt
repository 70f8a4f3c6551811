-- ===== src/Text/Numbers.antt =====
-- The number readers of source/NativeLib/my.cpp: `StringToInt32A`, `StringToInt32W`,
-- `StringToInt64A`, `StringToInt64W`, and `StringToInt32HexW`, `StringToInt64HexW`. A result is a
-- word of `bits` bits in two's complement. A text is the units up to its end in memory; `none` is a
-- read behind it, or behind the table of digits.
pub mod Decimal
pub mod Hex
use fvploader.Prelude.{
  ℕ, zero, suc, ◌+◌, ◌-◌, ◌*◌, ◌/◌, ◌%◌, ◌^◌, Bool, true, false, ◌==◌, ◌&&◌, ltb, leb,
  if◌then◌else◌, Option, none, some, List, [], ◌∷◌, ◌++◌, replicate, get_elem?,
}

-- `DECL_NUMBER_TABLE32`, as bytes: `0xFF` where there is no digit
abbrev pub number_table : List ℕ
number_table =
    replicate 48 0xFF
    ++ (0 ∷ 1 ∷ 2 ∷ 3 ∷ 4 ∷ 5 ∷ 6 ∷ 7 ∷ 8 ∷ 9 ∷ [])
    ++ replicate 7 0xFF
    ++ (10 ∷ 11 ∷ 12 ∷ 13 ∷ 14 ∷ 15 ∷ 0xFF ∷ [])

-- `sizeof(NumberTable32)`
abbrev pub table_bytes : ℕ
table_bytes = 72

-- `IN_RANGE`
abbrev pub in_range : ℕ → ℕ → ℕ → Bool
in_range low c high = leb low c && leb c high

-- `ch &= 0xFFDF`, and `ch &= 0xDF` of a byte: the bit that makes a letter small is cleared.
abbrev pub clear_case : ℕ → ℕ
clear_case c = c - c / 32 % 2 * 32

-- `if (IN_RANGE('a', ch, 'z')) ch &= ...`
abbrev pub raised : ℕ → ℕ
raised c = if in_range b'a' c b'z' then clear_case c else c

-- `Result = -Result`
abbrev pub negated : ℕ → ℕ → ℕ
negated bits n = (2 ^ bits - n) % 2 ^ bits

-- what a unit is to a loop: a read behind the table, no digit, or the digit
pub data Unit16 : Type 0 where
  overread : Unit16
  no_digit : Unit16
  digit : ℕ → Unit16

-- `Temp = NumberTable[ch]; if ((Char)Temp == (Char)-1) break;`
unfoldable pub look_up : ℕ → Unit16
look_up c = elim (get_elem? number_table c) [
  | none ↦ overread
  | some v ↦ if v == 0xFF then no_digit else digit v
]

-- The loop, with `outside` for a unit that is greater than the table.
unfoldable pub decimal_loop : ℕ → (ℕ → ℕ) → ℕ → List ℕ → Option ℕ
unfolding look_up
decimal_loop bits outside result [] = none
decimal_loop bits outside result (c ∷ p) =
    let next : ℕ → Option ℕ = λ v. decimal_loop bits outside ((result * 10 + v) % 2 ^ bits) p in
    elim (c == 0) [
      | true ↦ some result
      | false ↦ elim (ltb table_bytes (raised c)) [
        | true ↦ some (outside result)
        | false ↦ elim (look_up (raised c)) [
          | overread ↦ none
          | no_digit ↦ some result
          | digit v ↦ next v
        ]
      ]
    ]

-- The sign in front of the loop, which is applied to its result.
unfoldable pub signed_number : ℕ → (ℕ → ℕ) → List ℕ → Option ℕ
unfolding decimal_loop
signed_number bits outside [] = none
signed_number bits outside (c ∷ p) =
    if c == b'-'
    then elim (decimal_loop bits outside 0 p) [ none ↦ none | some r ↦ some (negated bits r) ]
    else decimal_loop bits outside 0 (c ∷ p)

-- `StringToInt32A`: a byte behind the table makes it return 0.
unfoldable pub string_to_int32_a : List ℕ → Option ℕ
unfolding signed_number
string_to_int32_a text = signed_number 32 (λ r. 0) text

-- `StringToInt32W`: a unit behind the table ends the number.
unfoldable pub string_to_int32_w : List ℕ → Option ℕ
unfolding signed_number
string_to_int32_w text = signed_number 32 (λ r. r) text

-- `StringToInt64A`
unfoldable pub string_to_int64_a : List ℕ → Option ℕ
unfolding signed_number
string_to_int64_a text = signed_number 64 (λ r. 0) text

-- `StringToInt64W`
unfoldable pub string_to_int64_w : List ℕ → Option ℕ
unfolding signed_number
string_to_int64_w text = signed_number 64 (λ r. r) text

-- the value of a unit as a hexadecimal digit
unfoldable pub hex_value : ℕ → Option ℕ
hex_value c =
    if in_range b'0' c b'9'
    then some (c - b'0')
    else if in_range b'A' (clear_case c) b'F'
    then some (clear_case c - b'A' + 10)
    else none

-- `Result = (Result << 4) | ch`, whose low four bits are free
unfoldable pub hex_loop : ℕ → ℕ → List ℕ → Option ℕ
unfolding hex_value
hex_loop bits result [] = none
hex_loop bits result (c ∷ p) =
    let next : ℕ → Option ℕ = λ v. hex_loop bits ((result * 16 + v) % 2 ^ bits) p in
    elim (c == 0) [
      | true ↦ some result
      | false ↦ elim (hex_value c) [ none ↦ some result | some v ↦ next v ]
    ]

-- `StringToInt32HexW`
unfoldable pub string_to_int32_hex_w : List ℕ → Option ℕ
unfolding hex_loop
string_to_int32_hex_w text = hex_loop 32 0 text

-- `StringToInt64HexW`
unfoldable pub string_to_int64_hex_w : List ℕ → Option ℕ
unfolding hex_loop
string_to_int64_hex_w text = hex_loop 64 0 text
