-- ===== src/Text/Strings/ShiftJis.antt =====
-- `IsShiftJISString` on a text of characters of one and two bytes.
use fvploader.Prelude.{
  ℕ, ◌+◌, ◌-◌, ◌*◌, ◌≤◌, ◌<◌, ◌≡◌, ◌≢◌, refl, Bool, true, false, ◌||◌, some, List, [], ◌∷◌, length,
  arith, Bool-cases,
}
use fvploader.Text.Strings.{is_shift_jis_char, shift_jis_loop, is_shift_jis_string}

-- a character: one byte below 128, or two bytes
pub data Character : Type 0 where
  single : ℕ → Character
  double : ℕ → ℕ → Character

abbrev pub IsCharacter : Character → Type 0
IsCharacter (single c) = (0 < c) × (c < 128)
IsCharacter (double c d) = (c < 256) × (d < 256) × (is_shift_jis_char (c * 256 + d) ≡ true)

abbrev pub AllCharacters : List Character → Type 0
AllCharacters [] = Unit {0}
AllCharacters (x ∷ xs) = IsCharacter x × AllCharacters xs

abbrev pub encoded : List Character → List ℕ
encoded [] = []
encoded (single c ∷ xs) = c ∷ encoded xs
encoded (double c d ∷ xs) = c ∷ d ∷ encoded xs

abbrev pub has_double : List Character → Bool
has_double [] = false
has_double (single c ∷ xs) = has_double xs
has_double (double c d ∷ xs) = true

-- The first byte of a character of two bytes is above 127.
pub double_high : (c d : ℕ) → c < 256 → d < 256 → is_shift_jis_char (c * 256 + d) ≡ true → 128 ≤ c
unfolding is_shift_jis_char
double_high c d hc hd e = ground arith

-- The second is no terminator.
pub double_low : (c d : ℕ) → c < 256 → d < 256 → is_shift_jis_char (c * 256 + d) ≡ true → d ≢ 0
unfolding is_shift_jis_char
double_low c d hc hd e z = ground arith

loop_characters :
    (seen : Bool) (n : ℕ) (xs : List Character)
    → AllCharacters xs
    → n ≡ length (encoded xs)
    → shift_jis_loop seen n (encoded xs) ≡ some (seen || has_double xs)
unfolding shift_jis_loop
loop_characters seen n [] h e = ground (arith, Bool-cases seen)
loop_characters seen n (single c ∷ []) (a, h) e = ground (arith, Bool-cases seen)
loop_characters seen n (single c ∷ single d ∷ xs) (a, h) e =
    ground (arith, loop_characters seen (n - 1) (single d ∷ xs) h (omega arith))
loop_characters seen n (single c ∷ double d f ∷ xs) (a, h) e =
    ground (arith, loop_characters seen (n - 1) (double d f ∷ xs) h (omega arith))
loop_characters seen n (double c d ∷ xs) ((hc, hd, a), h) e =
    ground (arith, double_high c d hc hd a, a, loop_characters true (n - 2) xs h (omega arith))

-- A text of characters of one and two bytes is Shift JIS exactly when it has one of two bytes.
pub is_shift_jis_string-double :
    (xs : List Character)
    → AllCharacters xs
    → is_shift_jis_string (encoded xs) (length (encoded xs)) ≡ some (has_double xs)
unfolding is_shift_jis_string
is_shift_jis_string-double xs h = loop_characters false (length (encoded xs)) xs h refl
