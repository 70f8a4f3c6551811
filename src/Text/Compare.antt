-- ===== src/Text/Compare.antt =====
-- `StrNICompareW` of source/NativeLib/my.cpp: texts compared without regard to the case of letters.
-- The texts are the units in memory from their starts; `none` is a read behind a list.
pub mod Folded
use fvploader.Prelude.{
  ℕ, zero, suc, ◌+◌, ◌-◌, ◌*◌, ◌/◌, ◌%◌, Bool, true, false, not, ◌==◌, ◌&&◌, ◌||◌, ltb, leb,
  if◌then◌else◌, Option, none, some, List, [], ◌∷◌,
}

-- `StrCmp_Keep`, `StrCmp_ToLower` and `StrCmp_ToUpper`
pub data CaseConvert : Type 0 where
  keep to_lower to_upper : CaseConvert

-- the results -1, 0 and 1
pub data Order : Type 0 where
  less same greater : Order

-- `CHAR_LOWER` and `CHAR_UPPER`
unfoldable pub converted : CaseConvert → ℕ → ℕ
converted keep ch = ch
converted to_lower ch = if leb b'A' ch && leb ch b'Z' then ch + 0x20 else ch
converted to_upper ch = if leb b'a' ch && leb ch b'z' then ch - 0x20 else ch

-- a unit with the bit 0x20 cleared
unfoldable pub cleared : ℕ → ℕ
cleared ch = ch % 0x20 + ch / 0x40 * 0x40

-- the two tests of the loop: whether it breaks off at these units
unfoldable pub differs : ℕ → ℕ → Bool
differs ch1 ch2 =
    if leb 0x80 ch1 || leb 0x80 ch2 then not (ch1 == ch2) else not (cleared ch1 == cleared ch2)

-- The loop, which is entered with a length that is not 0: whether the length ran out, and the last
-- two units.
unfoldable pub compare_loop : ℕ → List ℕ → List ℕ → Option (Bool × ℕ × ℕ)
compare_loop (suc n) (ch1 ∷ rest1) (ch2 ∷ rest2) =
    let rest = compare_loop n rest1 rest2 in
    if differs ch1 ch2
    then some (false, ch1, ch2)
    else if n == 0
    then some (true, ch1, ch2)
    else if ch1 == 0
    then some (false, ch1, ch2)
    else rest
compare_loop _ _ _ = none

unfoldable pub order_of : ℕ → ℕ → Order
order_of ch1 ch2 = if ltb ch1 ch2 then less else if ltb ch2 ch1 then greater else same

-- `StrNICompareW`, of pointers that are not null
unfoldable pub str_n_i_compare_w : CaseConvert → ℕ → List ℕ → List ℕ → Option Order
str_n_i_compare_w convert length_to_compare string1 string2 =
    if length_to_compare == 0
    then some same
    else elim (compare_loop length_to_compare string1 string2) [
      | none ↦ none
      | some (ran_out, ch1, ch2) ↦
          some (if ran_out then same else order_of (converted convert ch1) (converted convert ch2))
    ]
