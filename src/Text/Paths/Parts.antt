-- ===== src/Text/Paths/Parts.antt =====
-- A path cut into its directory, its name and its extension.
use fvploader.Prelude.{
  ℕ, zero, suc, ◌+◌, ◌-◌, ◌≤◌, ◌<◌, ◌≡◌, ◌≢◌, refl, ap, ◌∙◌, true, ◌==◌, if◌then◌else◌, Option,
  none, some, List, [], ◌∷◌, ◌++◌, length, length-append, ◌^◌, sym, arith,
}
use mathlib.Core.List.{append_assoc}
use fvploader.Text.Paths.Extension.{
  IsPath, IsPlain, IsExtension, IsBelow, IsBelow-step, IsBelow-choice, IsBelow-second, findextw-dot,
}
use fvploader.Text.Paths.{is_separator, later, findextw, name_loop, name_of, findnamew}

-- The loop of `findnamew` over a part of the path.
name_loop_part :
    (us rest : List ℕ) (fuel k pos q : ℕ) (slash back : Option ℕ)
    → fuel ≡ length us + k
    → q ≡ pos + length us
    → IsPath us
    → IsBelow slash pos
    → IsBelow back pos
    → (slash' : Option ℕ) × (back' : Option ℕ) × (name_loop fuel (us ++ rest) pos slash back
        ≡ name_loop k rest q slash' back')
      × IsBelow slash' q
      × IsBelow back' q
unfolding name_loop
name_loop_part [] rest fuel k pos q slash back ek e h hs hb =
    let ek' : fuel ≡ k = omega arith in
    let e' : pos ≡ q = omega arith in
    (
      slash,
      back,
      ap (λ f. name_loop f rest pos slash back) ek' ∙ ap (λ p. name_loop k rest p slash back) e',
      IsBelow-step slash hs (omega arith),
      IsBelow-step back hb (omega arith),
    )
name_loop_part (ch ∷ us) rest zero k pos q slash back ek e h hs hb = absurd (omega arith)
name_loop_part (ch ∷ us) rest (suc fuel) k pos q slash back ek e (nz, h) hs hb =
    let slash1 : Option ℕ = if ch == b'/' then some pos else slash in
    let back1 : Option ℕ = if ch == b'/' then back else if ch == b'\\' then some pos else back in
    let (slash2, back2, run, bs, bb) =
      name_loop_part us rest fuel k (pos + 1) q slash1 back1 (omega arith) (omega arith) h
        (IsBelow-choice (ch == b'/') slash pos hs)
        (IsBelow-second (ch == b'/') (ch == b'\\') back pos hb) in
    (slash2, back2, ground (arith, run), bs, bb)

-- Over a name it keeps both.
name_loop_plain :
    (us rest : List ℕ) (fuel pos : ℕ) (slash back : Option ℕ)
    → length us < fuel
    → IsPlain us
    → name_loop fuel (us ++ 0 ∷ rest) pos slash back ≡ some (slash, back)
unfolding name_loop
name_loop_plain [] rest (suc fuel) pos slash back lt h = refl
name_loop_plain (ch ∷ us) rest (suc fuel) pos slash back lt ((nz, ns), h) =
    ground (arith, name_loop_plain us rest fuel (pos + 1) slash back (omega arith) h)
name_loop_plain us rest zero pos slash back lt h = absurd (omega arith)

later_end :
    (n sep : ℕ) (slash back : Option ℕ)
    → is_separator sep ≡ true
    → IsBelow slash n
    → IsBelow back n
    → name_of (
        later
          (if sep == b'/' then back else if sep == b'\\' then some n else back)
          (if sep == b'/' then some n else slash))
      ≡ n + 1
later_end n sep none none hs a b = ground arith
later_end n sep none (some q) hs a b = ground arith
later_end n sep (some p) none hs a b = ground arith
later_end n sep (some p) (some q) hs a b = ground arith

-- The last separator, with the name behind it.
name_loop_separator :
    (name rest : List ℕ) (fuel n sep : ℕ) (slash back : Option ℕ)
    → length name < fuel
    → sep ≢ 0
    → IsPlain name
    → name_loop (suc fuel) (sep ∷ (name ++ 0 ∷ rest)) n slash back
      ≡ some (
        if sep == b'/' then some n else slash,
        if sep == b'/' then back else if sep == b'\\' then some n else back,
      )
unfolding name_loop
name_loop_separator name rest fuel n sep slash back lt nz h = ground (
  arith,
  name_loop_plain name rest fuel (n + 1) (if sep == b'/' then some n else slash)
      (if sep == b'/' then back else if sep == b'\\' then some n else back) lt h,
)

-- The name begins behind the last separator.
findnamew-separator :
    (us name rest : List ℕ) (sep fuel : ℕ)
    → IsPath us
    → sep ≢ 0
    → is_separator sep ≡ true
    → IsPlain name
    → length us + length name + 2 ≤ fuel
    → findnamew (us ++ (sep ∷ (name ++ 0 ∷ rest))) fuel ≡ some (length us + 1)
unfolding findnamew
findnamew-separator us name rest sep fuel h nz hs hn le =
    let n = length us in
    let k = fuel - n - 1 in
    let (slash, back, run, bs, bb) =
      name_loop_part us (sep ∷ (name ++ 0 ∷ rest)) fuel (suc k) 0 n none none (omega arith)
        (omega arith) h tt tt in
    ground (
      arith,
      run,
      name_loop_separator name rest k n sep slash back (omega arith) nz hn,
      later_end n sep slash back hs bs bb,
    )

extension-IsPlain : (us : List ℕ) → IsExtension us → IsPlain us
extension-IsPlain [] h = tt
extension-IsPlain (ch ∷ us) ((nz, ns, nd), h) = ((nz, ns), extension-IsPlain us h)

append-IsPlain : (us vs : List ℕ) → IsPlain us → IsPlain vs → IsPlain (us ++ vs)
append-IsPlain [] vs h g = g
append-IsPlain (ch ∷ us) vs (h1, h) g = (h1, append-IsPlain us vs h g)

append-IsPath :
    (us name : List ℕ) (sep : ℕ) → IsPath us → sep ≢ 0 → IsPlain name → IsPath (us ++ sep ∷ name)
append-IsPath [] [] sep h nz g = (nz, tt)
append-IsPath [] (ch ∷ name) sep h nz ((cz, ns), g) = (nz, append-IsPath [] name ch tt cz g)
append-IsPath (ch ∷ us) name sep (h1, h) nz g = (h1, append-IsPath us name sep h nz g)

-- In a path of a directory, a separator, a name, a dot and an extension, `findnamew` gives the start of
-- the name and `findextw` the dot. The name has no separator, and the extension neither a
-- separator nor a dot; the path with its terminator has less than 2 ^ 32 units.
pub findnamew-findextw :
    (dir base ext rest : List ℕ) (sep : ℕ)
    → IsPath dir
    → sep ≢ 0
    → is_separator sep ≡ true
    → IsPlain base
    → IsExtension ext
    → length dir + length base + length ext + 3 < 2 ^ 32
    → (findnamew (dir ++ (sep ∷ ((base ++ b'.' ∷ ext) ++ 0 ∷ rest))) (2 ^ 32 - 1)
        ≡ some (length dir + 1))
      × (findextw (dir ++ (sep ∷ ((base ++ b'.' ∷ ext) ++ 0 ∷ rest)))
          ≡ some (length dir + 1 + length base))
findnamew-findextw dir base ext rest sep hd nz hs hb he small =
    let name = base ++ b'.' ∷ ext in
    let tail : List ℕ = b'.' ∷ (ext ++ 0 ∷ rest) in
    let plain : IsPlain name =
      append-IsPlain base (b'.' ∷ ext) hb (((λ e. omega arith), refl), extension-IsPlain ext he) in
    let grouped : dir ++ (sep ∷ ((base ++ b'.' ∷ ext) ++ 0 ∷ rest)) ≡ (dir ++ sep ∷ base) ++ tail =
      ap (λ t. dir ++ (sep ∷ t)) (append_assoc base (b'.' ∷ ext) (0 ∷ rest))
      ∙ sym (append_assoc dir (sep ∷ base) tail) in
    (
      findnamew-separator dir name rest sep (2 ^ 32 - 1) hd nz hs plain
          (omega (arith, length-append base (b'.' ∷ ext))),
      ap findextw grouped
          ∙ findextw-dot (dir ++ sep ∷ base) ext rest (append-IsPath dir base sep hd nz hb) he
          ∙ ap some (omega (arith, length-append dir (sep ∷ base))),
    )
