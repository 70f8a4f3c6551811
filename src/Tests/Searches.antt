-- ===== src/Tests/Searches.antt =====
-- Searches in short texts.
use fvploader.Prelude.{ℕ, ◌+◌, ◌*◌, ◌≡◌, refl, true, none, some, List, [], ◌∷◌, arith}
use fvploader.Text.Compare.{to_upper, Order, cleared, differs, compare_loop, str_n_i_compare_w}
use fvploader.Text.Compare.Folded.{same_folded, is_same, str_n_i_compare_w-same_folded}
use fvploader.Text.Strings.{find_last_loop, str_find_last_char, is_shift_jis_char}
use fvploader.Text.Strings.Search.{NoZero}

-- `x/y/`
abbrev some_path : List ℕ
some_path = b'x' ∷ b'/' ∷ b'y' ∷ b'/' ∷ []

some_path-NoZero : NoZero some_path
some_path-NoZero = (omega arith, (omega arith, (omega arith, (omega arith, tt))))

-- The first unit of a string is taken for no match.
first_unit_missed : str_find_last_char true (b'/' ∷ b'a' ∷ 0 ∷ []) b'/' ≡ some none
unfolding str_find_last_char find_last_loop
first_unit_missed = refl

one_double : is_shift_jis_char (0x82 * 256 + 0xA0) ≡ true
unfolding is_shift_jis_char
one_double = refl

-- `Fo` and `fO`
str_n_i_compare_w-same_folded_example :
    (o : Order) × (str_n_i_compare_w to_upper 9 (b'F' ∷ b'o' ∷ 0 ∷ []) (b'f' ∷ b'O' ∷ 0 ∷ [])
      ≡ some o)
    × (is_same o ≡ same_folded (b'F' ∷ b'o' ∷ []) (b'f' ∷ b'O' ∷ []))
str_n_i_compare_w-same_folded_example =
    str_n_i_compare_w-same_folded to_upper 9 (b'F' ∷ b'o' ∷ []) (b'f' ∷ b'O' ∷ []) [] []
      (omega arith, omega arith, (omega arith, omega arith, tt))
      (omega arith, omega arith, (omega arith, omega arith, tt)) (omega arith)

-- A space in the first text where the second ends leads behind the second.
space_overreads : str_n_i_compare_w to_upper 9 (b'a' ∷ 0x20 ∷ 0 ∷ []) (b'a' ∷ 0 ∷ []) ≡ none
unfolding str_n_i_compare_w compare_loop differs cleared
space_overreads = refl
