-- ===== src/Text/Paths/Narrow.antt =====
-- `findexta` and `findnamea` of source/NativeLib/my.cpp: the same for a path of bytes, in which a byte above
-- 127 takes the next one with it.
pub mod Masked
use fvploader.Prelude.{ℕ, ◌+◌, ◌==◌, leb, if◌then◌else◌, Option, none, some, List, [], ◌∷◌}
use fvploader.Text.Paths.{is_separator, later, ext_of, name_of}

-- The loop of `findexta` from the offset `pos`: the offset of the last byte that was read, `pDot`
-- and `pSlash`.
unfoldable pub ext_loop_a : List ℕ → ℕ → Option ℕ → Option ℕ → Option (ℕ × Option ℕ × Option ℕ)
ext_loop_a [] pos dot slash = none
ext_loop_a (ch ∷ []) pos dot slash = if ch == 0 then some (pos, dot, slash) else none
ext_loop_a (ch ∷ d ∷ path) pos dot slash =
    let slash' : Option ℕ = if is_separator ch then some pos else slash in
    let dot' : Option ℕ = if is_separator ch then dot else if ch == b'.' then some pos else dot in
    let double : Option (ℕ × Option ℕ × Option ℕ) = ext_loop_a path (pos + 2) dot slash in
    let single : Option (ℕ × Option ℕ × Option ℕ) = ext_loop_a (d ∷ path) (pos + 1) dot' slash' in
    if ch == 0
    then some (pos, dot, slash)
    else if leb 128 ch
    then (if d == 0 then some (pos, dot, slash) else double)
    else single

unfoldable pub findexta : List ℕ → Option ℕ
findexta path = elim (ext_loop_a path 0 none none) [
  | none ↦ none
  | some (end, dot, slash) ↦ some (ext_of end dot slash)
]

-- The loop of `findnamea`: `pSlash` and `pBackSlash`.
unfoldable pub name_loop_a : List ℕ → ℕ → Option ℕ → Option ℕ → Option (Option ℕ × Option ℕ)
name_loop_a [] pos slash back = none
name_loop_a (ch ∷ []) pos slash back = if ch == 0 then some (slash, back) else none
name_loop_a (ch ∷ d ∷ path) pos slash back =
    let slash' : Option ℕ = if ch == b'/' then some pos else slash in
    let back' : Option ℕ = if ch == b'/' then back else if ch == b'\\' then some pos else back in
    let double : Option (Option ℕ × Option ℕ) = name_loop_a path (pos + 2) slash back in
    let single : Option (Option ℕ × Option ℕ) = name_loop_a (d ∷ path) (pos + 1) slash' back' in
    if ch == 0
    then some (slash, back)
    else if leb 128 ch
    then (if d == 0 then some (slash, back) else double)
    else single

unfoldable pub findnamea : List ℕ → Option ℕ
findnamea path = elim (name_loop_a path 0 none none) [
  | none ↦ none
  | some (slash, back) ↦ some (name_of (later back slash))
]
