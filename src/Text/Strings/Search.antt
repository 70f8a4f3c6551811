-- ===== src/Text/Strings/Search.antt =====
-- The searches against the string that a text holds.
use fvploader.Prelude.{
  ℕ, ◌+◌, ◌≡◌, ◌≢◌, refl, Bool, true, false, ◌==◌, if◌then◌else◌, Option, none, some, List, [], ◌∷◌,
  ◌++◌, length, arith, ℕ_discrete, ne→==_false,
}
use fvploader.Text.Strings.{
  pair_loop, str_length, find_loop, str_find_char, find_last_loop, str_find_last_char,
}

abbrev pub NoZero : List ℕ → Type 0
NoZero [] = Unit {0}
NoZero (c ∷ cs) = (c ≢ 0) × NoZero cs

pair_loop-length : (cs rest : List ℕ) → NoZero cs → pair_loop (cs ++ 0 ∷ rest) ≡ some (length cs)
unfolding pair_loop
pair_loop-length [] [] h = refl
pair_loop-length [] (c ∷ rest) h = refl
pair_loop-length (c ∷ []) rest (a, h) = ground arith
pair_loop-length (c ∷ d ∷ cs) rest (a, (b, h)) = ground (arith, pair_loop-length cs rest h)

-- `StrLengthW`, which reads two units at a time, counts the units before the terminator, at every
-- alignment.
pub str_length-length :
    (aligned : Bool) (cs rest : List ℕ)
    → NoZero cs
    → str_length aligned (cs ++ 0 ∷ rest) ≡ some (length cs)
unfolding str_length
str_length-length true cs rest h = pair_loop-length cs rest h
str_length-length false [] rest h = refl
str_length-length false (c ∷ cs) rest (a, h) = ground (arith, pair_loop-length cs rest h)

-- the first and the last offset of a unit in a string that starts at `i`
abbrev pub first_offset : ℕ → ℕ → List ℕ → Option ℕ
first_offset c i [] = none
first_offset c i (x ∷ xs) = if x == c then some i else first_offset c (i + 1) xs

abbrev pub last_offset : ℕ → ℕ → List ℕ → Option ℕ
last_offset c i [] = none
last_offset c i (x ∷ xs) = elim (last_offset c (i + 1) xs) [
  | none ↦ (if x == c then some i else none)
  | some j ↦ some j
]

find_loop-first :
    (c i : ℕ) (cs rest : List ℕ)
    → NoZero cs
    → find_loop c i (cs ++ 0 ∷ rest) ≡ some (first_offset c i cs)
unfolding find_loop
find_loop-first c i [] rest h = refl
find_loop-first c i (x ∷ cs) rest (a, h) = elim (ℕ_discrete x c) [
  | yes p ↦ ground arith
  | no p ↦ ground (arith, find_loop-first c (i + 1) cs rest h)
]

-- what `CurPos` is after the loop
abbrev pub last_or : ℕ → Option ℕ → ℕ
last_or cur r = elim r [ none ↦ cur | some j ↦ j ]

find_last-last :
    (c pos cur : ℕ) (cs rest : List ℕ)
    → c ≢ 0
    → NoZero cs
    → find_last_loop c pos cur (cs ++ 0 ∷ rest) ≡ some (last_or cur (last_offset c pos cs))
unfolding find_last_loop
find_last-last c pos cur [] rest nz h = ground arith
find_last-last c pos cur (x ∷ cs) rest nz (a, h) = elim (ℕ_discrete x c) [
  | yes p ↦ ground (arith, find_last-last c (pos + 1) pos cs rest nz h)
  | no p ↦ ground (arith, find_last-last c (pos + 1) cur cs rest nz h)
]

-- `StrFindCharW` gives the first offset of a unit in a string, or NULL where there is none; for the
-- unit 0 it gives the terminator.
pub str_find_char-first :
    (aligned : Bool) (c : ℕ) (cs rest : List ℕ)
    → NoZero cs
    → str_find_char aligned (cs ++ 0 ∷ rest) c
      ≡ some (if c == 0 then some (length cs) else first_offset c 0 cs)
unfolding str_find_char
str_find_char-first aligned c cs rest h = elim (ℕ_discrete c 0) [
  | yes p ↦ ground (arith, str_length-length aligned cs rest h)
  | no p ↦ ground (arith, find_loop-first c 0 cs rest h)
]

last_run :
    (aligned : Bool) (c : ℕ) (text : List ℕ) (o : Option ℕ)
    → c ≢ 0
    → find_last_loop c 0 0 text ≡ some (last_or 0 o)
    → str_find_last_char aligned text c ≡ some (if last_or 0 o == 0 then none else o)
unfolding str_find_last_char
last_run aligned c text none nz e = rw (ne→==_false c 0 nz, e)
last_run aligned c text (some j) nz e = rw (ne→==_false c 0 nz, e)

-- `StrFindLastCharW` gives the last offset of a unit in a string, but NULL where that is the
-- first unit, as where there is none.
pub str_find_last_char-last :
    (aligned : Bool) (c : ℕ) (cs rest : List ℕ)
    → c ≢ 0
    → NoZero cs
    → str_find_last_char aligned (cs ++ 0 ∷ rest) c
      ≡ some (if last_or 0 (last_offset c 0 cs) == 0 then none else last_offset c 0 cs)
str_find_last_char-last aligned c cs rest nz h =
    last_run aligned c (cs ++ 0 ∷ rest) (last_offset c 0 cs) nz (find_last-last c 0 0 cs rest nz h)
