-- ===== src/Text/Paths/Extension.antt =====
-- Where the extension of a path begins.
use fvploader.Prelude.{
  ℕ, ◌+◌, ◌≤◌, ◌<◌, ◌≡◌, ◌≢◌, refl, ap, Bool, true, false, ◌==◌, if◌then◌else◌, Option, none, some,
  List, [], ◌∷◌, ◌++◌, length, arith,
}
use fvploader.Text.Paths.{is_separator, ext_loop, ext_of, findextw}

-- Units before the terminator.
abbrev pub IsPath : List ℕ → Type 0
IsPath [] = Unit {0}
IsPath (ch ∷ path) = (ch ≢ 0) × IsPath path

-- No unit is a separator.
abbrev pub IsPlain : List ℕ → Type 0
IsPlain [] = Unit {0}
IsPlain (ch ∷ path) = ((ch ≢ 0) × (is_separator ch ≡ false)) × IsPlain path

-- Nor a dot.
abbrev pub IsExtension : List ℕ → Type 0
IsExtension [] = Unit {0}
IsExtension (ch ∷ path) = ((ch ≢ 0) × (is_separator ch ≡ false) × (ch ≢ b'.')) × IsExtension path

-- A pointer lies before an offset, if it is not null.
abbrev pub IsBelow : Option ℕ → ℕ → Type 0
IsBelow none n = Unit {0}
IsBelow (some p) n = p < n

pub IsBelow-step : (o : Option ℕ) {m n : ℕ} → IsBelow o m → m ≤ n → IsBelow o n
IsBelow-step none h le = tt
IsBelow-step (some p) h le = omega arith

pub IsBelow-choice :
    (b : Bool) (o : Option ℕ) (pos : ℕ)
    → IsBelow o pos
    → IsBelow (if b then some pos else o) (pos + 1)
IsBelow-choice true o pos h = omega arith
IsBelow-choice false o pos h = IsBelow-step o h (omega arith)

pub IsBelow-second :
    (a b : Bool) (o : Option ℕ) (pos : ℕ)
    → IsBelow o pos
    → IsBelow (if a then o else if b then some pos else o) (pos + 1)
IsBelow-second true b o pos h = IsBelow-step o h (omega arith)
IsBelow-second false b o pos h = IsBelow-choice b o pos h

-- The loop of `findextw` over a part of the path leaves both pointers inside of the part.
ext_loop_part :
    (us rest : List ℕ) (pos q : ℕ) (dot slash : Option ℕ)
    → q ≡ pos + length us
    → IsPath us
    → IsBelow dot pos
    → IsBelow slash pos
    → (dot' : Option ℕ) × (slash' : Option ℕ) × (ext_loop (us ++ rest) pos dot slash
        ≡ ext_loop rest q dot' slash')
      × IsBelow dot' q
      × IsBelow slash' q
unfolding ext_loop
ext_loop_part [] rest pos q dot slash e h hd hs = (
  dot,
  slash,
  ap (λ p. ext_loop rest p dot slash) (omega arith),
  IsBelow-step dot hd (omega arith),
  IsBelow-step slash hs (omega arith),
)
ext_loop_part (ch ∷ us) rest pos q dot slash e (nz, h) hd hs =
    let slash1 : Option ℕ = if is_separator ch then some pos else slash in
    let dot1 : Option ℕ = if is_separator ch then dot else if ch == b'.' then some pos else dot in
    let (dot2, slash2, run, bd, bs) =
      ext_loop_part us rest (pos + 1) q dot1 slash1 (omega arith) h
        (IsBelow-second (is_separator ch) (ch == b'.') dot pos hd)
        (IsBelow-choice (is_separator ch) slash pos hs) in
    (dot2, slash2, ground (arith, run), bd, bs)

-- Over an extension it keeps them.
ext_loop_extension :
    (us rest : List ℕ) (pos q : ℕ) (dot slash : Option ℕ)
    → q ≡ pos + length us
    → IsExtension us
    → ext_loop (us ++ 0 ∷ rest) pos dot slash ≡ some (q, dot, slash)
unfolding ext_loop
ext_loop_extension [] rest pos q dot slash e h = ap (λ p. some (p, dot, slash)) (omega arith)
ext_loop_extension (ch ∷ us) rest pos q dot slash e ((nz, ns, nd), h) =
    ground (arith, ext_loop_extension us rest (pos + 1) q dot slash (omega arith) h)

-- The last dot, and the last separator, with what follows them.
ext_loop_dot :
    (ext rest : List ℕ) (n : ℕ) (dot slash : Option ℕ)
    → IsExtension ext
    → ext_loop (b'.' ∷ (ext ++ 0 ∷ rest)) n dot slash ≡ some (n + 1 + length ext, some n, slash)
unfolding ext_loop
ext_loop_dot ext rest n dot slash h =
    ext_loop_extension ext rest (n + 1) (n + 1 + length ext) (some n) slash refl h

ext_loop_separator :
    (name rest : List ℕ) (n sep : ℕ) (dot slash : Option ℕ)
    → sep ≢ 0
    → is_separator sep ≡ true
    → IsExtension name
    → ext_loop (sep ∷ (name ++ 0 ∷ rest)) n dot slash ≡ some (n + 1 + length name, dot, some n)
unfolding ext_loop
ext_loop_separator name rest n sep dot slash nz hs h =
    ground (arith, ext_loop_extension name rest (n + 1) (n + 1 + length name) dot (some n) refl h)

ext_of_below : (end p : ℕ) (slash : Option ℕ) → IsBelow slash p → ext_of end (some p) slash ≡ p
ext_of_below end p none h = refl
ext_of_below end p (some s) h = ground arith

ext_of_above : (end p : ℕ) (dot : Option ℕ) → IsBelow dot p → ext_of end dot (some p) ≡ end
ext_of_above end p none h = refl
ext_of_above end p (some d) h = ground arith

-- The extension begins at the last dot, if no separator follows it.
pub findextw-dot :
    (us ext rest : List ℕ)
    → IsPath us
    → IsExtension ext
    → findextw (us ++ (b'.' ∷ (ext ++ 0 ∷ rest))) ≡ some (length us)
unfolding findextw
findextw-dot us ext rest h he =
    let n = length us in
    let (dot, slash, run, bd, bs) =
      ext_loop_part us (b'.' ∷ (ext ++ 0 ∷ rest)) 0 n none none (omega arith) h tt tt in
    ground (
      arith,
      run,
      ext_loop_dot ext rest n dot slash he,
      ext_of_below (n + 1 + length ext) n slash bs,
    )

-- The end of the path, if no dot follows the last separator.
findextw-end :
    (us name rest : List ℕ) (sep : ℕ)
    → IsPath us
    → sep ≢ 0
    → is_separator sep ≡ true
    → IsExtension name
    → findextw (us ++ (sep ∷ (name ++ 0 ∷ rest))) ≡ some (length us + 1 + length name)
unfolding findextw
findextw-end us name rest sep h nz hs hn =
    let n = length us in
    let (dot, slash, run, bd, bs) =
      ext_loop_part us (sep ∷ (name ++ 0 ∷ rest)) 0 n none none (omega arith) h tt tt in
    ground (
      arith,
      run,
      ext_loop_separator name rest n sep dot slash nz hs hn,
      ext_of_above (n + 1 + length name) n dot bd,
    )
