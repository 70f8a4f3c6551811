-- ===== src/Text/Case.antt =====
-- `StringUpperA` and `StringLowerA` of source/NativeLib/my.cpp, which change a text in place. The text is the
-- bytes in memory from its start; `none` is a read behind them.
pub mod Characters
use fvploader.Prelude.{
  ℕ, ◌+◌, ◌-◌, Bool, ◌==◌, ◌||◌, leb, if◌then◌else◌, Option, none, some, List, [], ◌∷◌, ◌++◌,
}
use fvploader.Text.Compare.{CaseConvert, converted}

-- the bytes that are passed, and those of the rest
abbrev pub passing : List ℕ → Option (List ℕ) → Option (List ℕ)
passing bytes o = elim o [ none ↦ none | some r ↦ some (bytes ++ r) ]

-- `StringUpperA` for `to_upper`, and `StringLowerA` for `to_lower`, of a text and its length
unfoldable pub string_convert_a : CaseConvert → ℕ → List ℕ → Option (List ℕ)
unfolding converted
string_convert_a c length [] = none
string_convert_a c length (ch ∷ []) = if ch == 0 || length == 0 then some (ch ∷ []) else none
string_convert_a c length (ch ∷ d ∷ text) =
    let single : Option (List ℕ) =
      passing (converted c ch ∷ []) (string_convert_a c (length - 1) (d ∷ text)) in
    let double : Option (List ℕ) = passing (ch ∷ d ∷ []) (string_convert_a c (length - 2) text) in
    if ch == 0 || length == 0
    then some (ch ∷ d ∷ text)
    else if leb 128 ch
    then (if d == 0 || length == 1 then some (ch ∷ d ∷ text) else double)
    else single
