-- ===== src/Tests/Cases.antt =====
-- Texts with characters whose second byte is that of a letter or of a backslash.
use fvploader.Prelude.{◌+◌, ◌-◌, ◌*◌, ◌^◌, ◌≡◌, refl, true, some, [], ◌∷◌, arith}
use fvploader.Text.Compare.{to_upper}
use fvploader.Text.Strings.{is_shift_jis_char}
use fvploader.Text.Strings.ShiftJis.{single, double}
use fvploader.Text.Paths.{findextw, findnamew}
use fvploader.Text.Paths.Narrow.{findexta, findnamea}
use fvploader.Text.Paths.Narrow.Masked.{findexta-masked}
use fvploader.Text.Case.{string_convert_a}
use fvploader.Text.Case.Characters.{string_convert_a-characters}

katakana : is_shift_jis_char (0x83 * 256 + b'a') ≡ true
unfolding is_shift_jis_char
katakana = refl

string_convert_a-characters_example :
    string_convert_a to_upper 3 (b'x' ∷ 0x83 ∷ b'a' ∷ 0 ∷ []) ≡ some (b'X' ∷ 0x83 ∷ b'a' ∷ 0 ∷ [])
string_convert_a-characters_example =
    string_convert_a-characters to_upper 3 (single b'x' ∷ double 0x83 b'a' ∷ []) []
      ((omega arith, omega arith), ((omega arith, omega arith, katakana), tt)) (omega arith)

so : is_shift_jis_char (0x83 * 256 + b'\\') ≡ true
unfolding is_shift_jis_char
so = refl

findexta-masked_example :
    (findexta (b'x' ∷ 0x83 ∷ b'\\' ∷ b'.' ∷ b'd' ∷ 0 ∷ [])
      ≡ findextw (b'x' ∷ b'x' ∷ b'x' ∷ b'.' ∷ b'd' ∷ 0 ∷ []))
    × (findnamea (b'x' ∷ 0x83 ∷ b'\\' ∷ b'.' ∷ b'd' ∷ 0 ∷ [])
        ≡ findnamew (b'x' ∷ b'x' ∷ b'x' ∷ b'.' ∷ b'd' ∷ 0 ∷ []) (2 ^ 32 - 1))
findexta-masked_example =
    findexta-masked (single b'x' ∷ double 0x83 b'\\' ∷ single b'.' ∷ single b'd' ∷ []) []
      (
        (omega arith, omega arith),
        (
          (omega arith, omega arith, so),
          ((omega arith, omega arith), ((omega arith, omega arith), tt)),
        ),
      )
      (omega arith)
