-- ===== src/Text/Paths/Narrow/Masked.antt =====
-- Paths of bytes against paths of units.
use fvploader.Prelude.{
  ℕ, zero, suc, ◌+◌, ◌-◌, ◌<◌, ◌≡◌, ◌==◌, if◌then◌else◌, refl, ap, ◌∙◌, sym, ◌^◌, Option, none,
  some, List, [], ◌∷◌, ◌++◌, length, arith,
}
use fvploader.Text.Strings.ShiftJis.{
  Character, single, double, IsCharacter, AllCharacters, encoded, double_high, double_low,
}
use fvploader.Text.Paths.{
  is_separator, ext_loop, ext_of, findextw, name_loop, name_of, later, findnamew,
}
use fvploader.Text.Paths.Narrow.{ext_loop_a, findexta, name_loop_a, findnamea}

-- The units of a text with a letter in place of each byte of the characters of two bytes.
abbrev pub masked : List Character → List ℕ
masked [] = []
masked (single c ∷ xs) = c ∷ masked xs
masked (double c d ∷ xs) = b'x' ∷ b'x' ∷ masked xs

ext_loop_a-single :
    (ch d pos : ℕ) (path : List ℕ) (dot slash : Option ℕ)
    → IsCharacter (single ch)
    → ext_loop_a (ch ∷ d ∷ path) pos dot slash
      ≡ ext_loop_a
          (d ∷ path)
          (pos + 1)
          (if is_separator ch then dot else if ch == b'.' then some pos else dot)
          (if is_separator ch then some pos else slash)
unfolding ext_loop_a
ext_loop_a-single ch d pos path dot slash (low, high) = ground arith

ext_loop_a-double :
    (ch d pos : ℕ) (path : List ℕ) (dot slash : Option ℕ)
    → IsCharacter (double ch d)
    → ext_loop_a (ch ∷ d ∷ path) pos dot slash ≡ ext_loop_a path (pos + 2) dot slash
unfolding ext_loop_a
ext_loop_a-double ch d pos path dot slash (hc, hd, a) =
    ground (arith, double_high ch d hc hd a, double_low ch d hc hd a)

ext_loop-single :
    (ch pos : ℕ) (path : List ℕ) (dot slash : Option ℕ)
    → IsCharacter (single ch)
    → ext_loop (ch ∷ path) pos dot slash
      ≡ ext_loop path
          (pos + 1)
          (if is_separator ch then dot else if ch == b'.' then some pos else dot)
          (if is_separator ch then some pos else slash)
unfolding ext_loop
ext_loop-single ch pos path dot slash (low, high) = ground arith

ext_loop-mask :
    (pos : ℕ) (path : List ℕ) (dot slash : Option ℕ)
    → ext_loop (b'x' ∷ b'x' ∷ path) pos dot slash ≡ ext_loop path (pos + 2) dot slash
unfolding ext_loop
ext_loop-mask pos path dot slash = ap (λ p. ext_loop path p dot slash) (omega arith)

ext_loop_a-end :
    (rest : List ℕ) (pos : ℕ) (dot slash : Option ℕ)
    → ext_loop_a (0 ∷ rest) pos dot slash ≡ some (pos, dot, slash)
unfolding ext_loop_a
ext_loop_a-end [] pos dot slash = refl
ext_loop_a-end (r ∷ rest) pos dot slash = refl

ext_loop-end :
    (rest : List ℕ) (pos : ℕ) (dot slash : Option ℕ)
    → ext_loop (0 ∷ rest) pos dot slash ≡ some (pos, dot, slash)
unfolding ext_loop
ext_loop-end rest pos dot slash = refl

-- The first byte of a text, with the terminator behind it, and the others.
first_byte :
    (xs : List Character) (rest : List ℕ)
    → (d : ℕ) × (t : List ℕ) × (encoded xs ++ 0 ∷ rest ≡ d ∷ t)
first_byte [] rest = (0, rest, refl)
first_byte (single c ∷ xs) rest = (c, encoded xs ++ 0 ∷ rest, refl)
first_byte (double c d ∷ xs) rest = (c, d ∷ (encoded xs ++ 0 ∷ rest), refl)

ext_loop_a-masked :
    (xs : List Character) (rest : List ℕ) (pos : ℕ) (dot slash : Option ℕ)
    → AllCharacters xs
    → ext_loop_a (encoded xs ++ 0 ∷ rest) pos dot slash
      ≡ ext_loop (masked xs ++ 0 ∷ rest) pos dot slash
ext_loop_a-masked [] rest pos dot slash h =
    ext_loop_a-end rest pos dot slash ∙ sym (ext_loop-end rest pos dot slash)
ext_loop_a-masked (single ch ∷ xs) rest pos dot slash (a, h) =
    let dot1 : Option ℕ = if is_separator ch then dot else if ch == b'.' then some pos else dot in
    let slash1 : Option ℕ = if is_separator ch then some pos else slash in
    let (d, t, e) = first_byte xs rest in
    ap (λ u. ext_loop_a (ch ∷ u) pos dot slash) e
    ∙ ext_loop_a-single ch d pos t dot slash a
    ∙ ap (λ u. ext_loop_a u (pos + 1) dot1 slash1) (sym e)
    ∙ ext_loop_a-masked xs rest (pos + 1) dot1 slash1 h
    ∙ sym (ext_loop-single ch pos (masked xs ++ 0 ∷ rest) dot slash a)
ext_loop_a-masked (double ch d ∷ xs) rest pos dot slash (a, h) =
    ext_loop_a-double ch d pos (encoded xs ++ 0 ∷ rest) dot slash a
    ∙ ext_loop_a-masked xs rest (pos + 2) dot slash h
    ∙ sym (ext_loop-mask pos (masked xs ++ 0 ∷ rest) dot slash)

name_loop_a-single :
    (ch d pos : ℕ) (path : List ℕ) (slash back : Option ℕ)
    → IsCharacter (single ch)
    → name_loop_a (ch ∷ d ∷ path) pos slash back
      ≡ name_loop_a
          (d ∷ path)
          (pos + 1)
          (if ch == b'/' then some pos else slash)
          (if ch == b'/' then back else if ch == b'\\' then some pos else back)
unfolding name_loop_a
name_loop_a-single ch d pos path slash back (low, high) = ground arith

name_loop_a-double :
    (ch d pos : ℕ) (path : List ℕ) (slash back : Option ℕ)
    → IsCharacter (double ch d)
    → name_loop_a (ch ∷ d ∷ path) pos slash back ≡ name_loop_a path (pos + 2) slash back
unfolding name_loop_a
name_loop_a-double ch d pos path slash back (hc, hd, a) =
    ground (arith, double_high ch d hc hd a, double_low ch d hc hd a)

name_loop-single :
    (fuel ch pos : ℕ) (path : List ℕ) (slash back : Option ℕ)
    → IsCharacter (single ch)
    → name_loop (suc fuel) (ch ∷ path) pos slash back
      ≡ name_loop fuel path
          (pos + 1)
          (if ch == b'/' then some pos else slash)
          (if ch == b'/' then back else if ch == b'\\' then some pos else back)
unfolding name_loop
name_loop-single fuel ch pos path slash back (low, high) = ground arith

name_loop-mask :
    (fuel pos : ℕ) (path : List ℕ) (slash back : Option ℕ)
    → name_loop (suc (suc fuel)) (b'x' ∷ b'x' ∷ path) pos slash back
      ≡ name_loop fuel path (pos + 2) slash back
unfolding name_loop
name_loop-mask fuel pos path slash back = ap (λ p. name_loop fuel path p slash back) (omega arith)

name_loop_a-end :
    (rest : List ℕ) (pos : ℕ) (slash back : Option ℕ)
    → name_loop_a (0 ∷ rest) pos slash back ≡ some (slash, back)
unfolding name_loop_a
name_loop_a-end [] pos slash back = refl
name_loop_a-end (r ∷ rest) pos slash back = refl

name_loop-end :
    (fuel : ℕ) (rest : List ℕ) (pos : ℕ) (slash back : Option ℕ)
    → name_loop (suc fuel) (0 ∷ rest) pos slash back ≡ some (slash, back)
unfolding name_loop
name_loop-end fuel rest pos slash back = refl

name_loop_a-masked :
    (xs : List Character) (rest : List ℕ) (fuel pos : ℕ) (slash back : Option ℕ)
    → AllCharacters xs
    → length (encoded xs) < fuel
    → name_loop_a (encoded xs ++ 0 ∷ rest) pos slash back
      ≡ name_loop fuel (masked xs ++ 0 ∷ rest) pos slash back
name_loop_a-masked xs rest zero pos slash back h lt = absurd (omega arith)
name_loop_a-masked [] rest (suc fuel) pos slash back h lt =
    name_loop_a-end rest pos slash back ∙ sym (name_loop-end fuel rest pos slash back)
name_loop_a-masked (single ch ∷ xs) rest (suc fuel) pos slash back (a, h) lt =
    let slash1 : Option ℕ = if ch == b'/' then some pos else slash in
    let back1 : Option ℕ = if ch == b'/' then back else if ch == b'\\' then some pos else back in
    let (d, t, e) = first_byte xs rest in
    ap (λ u. name_loop_a (ch ∷ u) pos slash back) e
    ∙ name_loop_a-single ch d pos t slash back a
    ∙ ap (λ u. name_loop_a u (pos + 1) slash1 back1) (sym e)
    ∙ name_loop_a-masked xs rest fuel (pos + 1) slash1 back1 h (omega arith)
    ∙ sym (name_loop-single fuel ch pos (masked xs ++ 0 ∷ rest) slash back a)
name_loop_a-masked (double ch d ∷ xs) rest (suc zero) pos slash back (a, h) lt =
    absurd (omega arith)
name_loop_a-masked (double ch d ∷ xs) rest (suc (suc fuel)) pos slash back (a, h) lt =
    name_loop_a-double ch d pos (encoded xs ++ 0 ∷ rest) slash back a
    ∙ name_loop_a-masked xs rest fuel (pos + 2) slash back h (omega arith)
    ∙ sym (name_loop-mask fuel pos (masked xs ++ 0 ∷ rest) slash back)

-- On a path of characters of one byte below 128 and of two bytes of Shift JIS, so without half-width
-- katakana of one byte, `findexta` and `findnamea` give what `findextw` and
-- `findnamew` give for the path with a letter in place of each byte of the characters of two bytes: a
-- second byte that is a separator or a dot is not taken for one. The path has less than 2 ^ 32 - 1 bytes.
pub findexta-masked :
    (xs : List Character) (rest : List ℕ)
    → AllCharacters xs
    → length (encoded xs) < 2 ^ 32 - 1
    → (findexta (encoded xs ++ 0 ∷ rest) ≡ findextw (masked xs ++ 0 ∷ rest))
      × (findnamea (encoded xs ++ 0 ∷ rest) ≡ findnamew (masked xs ++ 0 ∷ rest) (2 ^ 32 - 1))
unfolding findexta findextw findnamea findnamew
findexta-masked xs rest h lt =
    let ext = ext_loop_a-masked xs rest 0 none none h in
    let name = name_loop_a-masked xs rest (2 ^ 32 - 1) 0 none none h lt in
    (
      ap (λ o. elim o [ none ↦ none | some (end, dot, slash) ↦ some (ext_of end dot slash) ]) ext,
      ap (λ o. elim o [ none ↦ none | some (slash, back) ↦ some (name_of (later back slash)) ])
          name,
    )
