-- ===== src/Text/Case/Characters.antt =====
-- Texts of characters of one and two bytes.
use fvploader.Prelude.{
  ℕ, ◌+◌, ◌-◌, ◌&&◌, ltb, if◌then◌else◌, ◌≤◌, ◌≡◌, refl, ap, some, List, [], ◌∷◌, ◌++◌, length, map,
  arith,
}
use fvploader.Text.Compare.{CaseConvert, keep, to_lower, to_upper, converted}
use fvploader.Text.Strings.ShiftJis.{
  Character, single, double, IsCharacter, AllCharacters, encoded, double_high, double_low,
}
use fvploader.Text.Case.{passing, string_convert_a}

-- `A` to `Z` and `a` to `z` in the other case
abbrev pub letter : CaseConvert → ℕ → ℕ
letter keep ch = ch
letter to_lower ch = if ltb 64 ch && ltb ch 91 then ch + 32 else ch
letter to_upper ch = if ltb 96 ch && ltb ch 123 then ch - 32 else ch

converted-letter : (c : CaseConvert) (ch : ℕ) → converted c ch ≡ letter c ch
unfolding converted
converted-letter keep ch = refl
converted-letter to_lower ch = ground arith
converted-letter to_upper ch = ground arith

-- a character with its letter converted; those of two bytes have none
abbrev pub converted_character : CaseConvert → Character → Character
converted_character c (single ch) = single (letter c ch)
converted_character c (double ch d) = double ch d

convert_end :
    (c : CaseConvert) (n : ℕ) (rest : List ℕ) → string_convert_a c n (0 ∷ rest) ≡ some (0 ∷ rest)
unfolding string_convert_a
convert_end c n [] = refl
convert_end c n (r ∷ rest) = refl

convert_single :
    (c : CaseConvert) (n ch d : ℕ) (text r : List ℕ)
    → IsCharacter (single ch)
    → 1 ≤ n
    → string_convert_a c (n - 1) (d ∷ text) ≡ some r
    → string_convert_a c n (ch ∷ d ∷ text) ≡ some (letter c ch ∷ r)
unfolding string_convert_a
convert_single c n ch d text r (low, high) le run =
    let step : passing (converted c ch ∷ []) (string_convert_a c (n - 1) (d ∷ text))
        ≡ some (converted c ch ∷ r) =
      ap (passing (converted c ch ∷ [])) run in
    ground (arith, converted-letter c ch)

convert_double :
    (c : CaseConvert) (n ch d : ℕ) (text r : List ℕ)
    → IsCharacter (double ch d)
    → 2 ≤ n
    → string_convert_a c (n - 2) text ≡ some r
    → string_convert_a c n (ch ∷ d ∷ text) ≡ some (ch ∷ d ∷ r)
unfolding string_convert_a
convert_double c n ch d text r (hc, hd, a) le run =
    let step : passing (ch ∷ d ∷ []) (string_convert_a c (n - 2) text) ≡ some (ch ∷ d ∷ r) =
      ap (passing (ch ∷ d ∷ [])) run in
    ground (arith, double_high ch d hc hd a, double_low ch d hc hd a)

-- On a text of characters of one byte below 128 and of two bytes of Shift JIS, `StringUpperA` and
-- `StringLowerA` put the letters A to Z or a to z among the characters of one byte into the other case,
-- and keep the characters of two bytes, also where the second byte is that of a letter. Half-width
-- katakana, of one byte above 127, are not among the characters. The length that they are
-- given is at least that of the text.
pub string_convert_a-characters :
    (c : CaseConvert) (n : ℕ) (xs : List Character) (rest : List ℕ)
    → AllCharacters xs
    → length (encoded xs) ≤ n
    → string_convert_a c n (encoded xs ++ 0 ∷ rest)
      ≡ some (encoded (map (converted_character c) xs) ++ 0 ∷ rest)
string_convert_a-characters c n [] rest h le = convert_end c n rest
string_convert_a-characters c n (single ch ∷ []) rest (a, h) le =
    convert_single c n ch 0 rest (0 ∷ rest) a (omega arith) (convert_end c (n - 1) rest)
string_convert_a-characters c n (single ch ∷ single d ∷ xs) rest (a, h) le =
    convert_single c n ch d (encoded xs ++ 0 ∷ rest) _ a (omega arith)
      (string_convert_a-characters c (n - 1) (single d ∷ xs) rest h (omega arith))
string_convert_a-characters c n (single ch ∷ double d e ∷ xs) rest (a, h) le =
    convert_single c n ch d (e ∷ (encoded xs ++ 0 ∷ rest)) _ a (omega arith)
      (string_convert_a-characters c (n - 1) (double d e ∷ xs) rest h (omega arith))
string_convert_a-characters c n (double ch d ∷ xs) rest (a, h) le =
    convert_double c n ch d (encoded xs ++ 0 ∷ rest) _ a (omega arith)
      (string_convert_a-characters c (n - 2) xs rest h (omega arith))
