-- ===== src/Text/Paths.antt =====
-- `findextw` and `findnamew` of source/NativeLib/my.cpp: where the extension and the name begin in a path.
-- A pointer is an offset into the path, `none` for a null pointer; a result `none` is a read
-- behind the path.
pub mod Extension
pub mod Parts
pub mod Narrow
use fvploader.Prelude.{
  ℕ, zero, suc, ◌+◌, Bool, true, false, ◌==◌, ◌||◌, ltb, if◌then◌else◌, Option, none, some, List,
  [], ◌∷◌,
}

abbrev pub is_separator : ℕ → Bool
is_separator ch = ch == b'/' || ch == b'\\'

-- `MY_MAX` of pointers, and `<`
abbrev pub later : Option ℕ → Option ℕ → Option ℕ
later none q = q
later (some p) none = some p
later (some p) (some q) = if ltb p q then some q else some p

abbrev pub is_before : Option ℕ → Option ℕ → Bool
is_before none none = false
is_before none (some q) = true
is_before (some p) none = false
is_before (some p) (some q) = ltb p q

-- The loop of `findextw` from the offset `pos`: the offset of the terminator, `pDot` and `pSlash`.
unfoldable pub ext_loop : List ℕ → ℕ → Option ℕ → Option ℕ → Option (ℕ × Option ℕ × Option ℕ)
ext_loop [] pos dot slash = none
ext_loop (ch ∷ path) pos dot slash =
    let slash' : Option ℕ = if is_separator ch then some pos else slash in
    let dot' : Option ℕ = if is_separator ch then dot else if ch == b'.' then some pos else dot in
    let rest : Option (ℕ × Option ℕ × Option ℕ) = ext_loop path (pos + 1) dot' slash' in
    if ch == 0 then some (pos, dot, slash) else rest

-- the end of `findextw`
abbrev pub ext_of : ℕ → Option ℕ → Option ℕ → ℕ
ext_of end none slash = end
ext_of end (some p) slash = if is_before (some p) slash then end else p

unfoldable pub findextw : List ℕ → Option ℕ
findextw path = elim (ext_loop path 0 none none) [
  | none ↦ none
  | some (end, dot, slash) ↦ some (ext_of end dot slash)
]

-- The loop of `findnamew` over at most `fuel` units: `pSlash` and `pBackSlash`.
unfoldable pub name_loop : ℕ → List ℕ → ℕ → Option ℕ → Option ℕ → Option (Option ℕ × Option ℕ)
name_loop zero path pos slash back = some (slash, back)
name_loop (suc n) [] pos slash back = none
name_loop (suc n) (ch ∷ path) pos slash back =
    let slash' : Option ℕ = if ch == b'/' then some pos else slash in
    let back' : Option ℕ = if ch == b'/' then back else if ch == b'\\' then some pos else back in
    let rest : Option (Option ℕ × Option ℕ) = name_loop n path (pos + 1) slash' back' in
    if ch == 0 then some (slash, back) else rest

-- the end of `findnamew`
abbrev pub name_of : Option ℕ → ℕ
name_of none = 0
name_of (some p) = p + 1

-- `findnamew` of a path that is not NULL, with its length, which is 2 ^ 32 - 1 by default
unfoldable pub findnamew : List ℕ → ℕ → Option ℕ
findnamew path n = elim (name_loop n path 0 none none) [
  | none ↦ none
  | some (slash, back) ↦ some (name_of (later back slash))
]
