-- ===== src/Gdi/FontNames/Localized.antt =====
-- What the names of a font are after `AdjustFontDataInternal` replaced them.
use fvploader.Prelude.{
  ◌⊎◌, inl, inr, true, ◌≢◌, ap₂, ℕ_discrete, ℕ, ◌+◌, ◌-◌, ◌*◌, ◌/◌, ◌%◌, ◌≤◌, ◌<◌, ◌≡◌, refl, sym,
  ap, subst, ◌∙◌, ltb, if◌then◌else◌, some, List, [], ◌∷◌, ◌++◌, take, drop, length, arith,
  length-append, length-take, length-drop, take-append, drop-append, take-append-drop,
}
use mathlib.Core.List.{append_assoc}
use fvploader.Container.Hash.{bytes_of_units}
use fvploader.Gdi.NameTable.{name_found, get_name_record}
use fvploader.Gdi.FontNames.{
  font_success, name_id_face, name_id_full, units_of_bytes, write_at, put_name, vertical,
  face_bytes, full_bytes, localize, EnumLogFont, matches_face, adjust_names,
}

length-bytes_of_units : (us : List ℕ) → length (bytes_of_units us) ≡ 2 * length us
unfolding bytes_of_units
length-bytes_of_units [] = refl
length-bytes_of_units (u ∷ us) = omega (arith, length-bytes_of_units us)

-- Sixteen-bit units.
abbrev pub IsUnits : List ℕ → Type 0
IsUnits [] = Unit
IsUnits (u ∷ us) = (u < 65536) × IsUnits us

-- Units written as bytes are read back.
units_of_bytes-bytes_of_units :
    (us : List ℕ) (rest : List ℕ)
    → IsUnits us
    → units_of_bytes (bytes_of_units us ++ rest) ≡ us ++ units_of_bytes rest
unfolding bytes_of_units units_of_bytes
units_of_bytes-bytes_of_units [] rest h = refl
units_of_bytes-bytes_of_units (u ∷ us) rest (lt, h) =
    let e : u % 256 + u / 256 % 256 * 256 ≡ u = omega arith in
    rw (e, units_of_bytes-bytes_of_units us rest h)

bytes_of_units-append :
    (us vs : List ℕ) → bytes_of_units (us ++ vs) ≡ bytes_of_units us ++ bytes_of_units vs
unfolding bytes_of_units
bytes_of_units-append [] vs = refl
bytes_of_units-append (u ∷ us) vs = rw (bytes_of_units-append us vs) refl

-- A list cut at a place inside of it.
cut :
    (k : ℕ) (xs : List ℕ)
    → k ≤ length xs
    → (a : List ℕ) × (b : List ℕ) × (xs ≡ a ++ b) × (length a ≡ k) × (length b ≡ length xs - k)
cut k xs h = (
  take k xs,
  drop k xs,
  sym (take-append-drop k xs),
  omega (arith, length-take k xs),
  length-drop k xs,
)

-- A write inside of memory.
write_at_parts :
    (a b c new : List ℕ) (i : ℕ)
    → length a ≡ i
    → length b ≡ length new
    → write_at (a ++ (b ++ c)) i new ≡ a ++ (new ++ c)
unfolding write_at
write_at_parts a b c new i ea eb =
    rw (take-append a (b ++ c) i ea, drop-append a (b ++ c) i ea, drop-append b c (length new) eb)
      refl

-- A name that fits is written with a terminator.
put_name_parts :
    (offset size v : ℕ) (us more p b c q : List ℕ)
    → length p ≡ offset + v * 2
    → length b ≡ 2 * length us
    → length c ≡ 2
    → 2 * length us ≤ size - v
    → put_name offset size v (2 * length us) (us ++ more) (p ++ (b ++ (c ++ q)))
      ≡ p ++ (bytes_of_units us ++ (0 ∷ 0 ∷ q))
unfolding put_name
put_name_parts offset size v us more p b c q ep eb ec fits =
    let bytes = bytes_of_units us in
    let eq : length bytes ≡ 2 * length us = length-bytes_of_units us in
    let n = 2 * length us in
    let start = offset + v * 2 in
    let end : List ℕ = 0 ∷ 0 ∷ [] in
    let not_cut : (if ltb (size - v) n then size - v else n) ≡ n = ground arith in
    let taken : take (2 * length us) (bytes_of_units (us ++ more)) ≡ bytes =
      rw (bytes_of_units-append us more)
        (take-append bytes (bytes_of_units more) (2 * length us) eq) in
    let one : write_at (p ++ (b ++ (c ++ q))) (offset + v * 2) bytes ≡ p ++ (bytes ++ (c ++ q)) =
      write_at_parts p b (c ++ q) bytes (offset + v * 2) ep (eb ∙ sym eq) in
    let two : write_at ((p ++ bytes) ++ (c ++ q)) (offset + v * 2 + 2 * length us) (0 ∷ 0 ∷ [])
        ≡ (p ++ bytes) ++ (0 ∷ 0 ∷ q) =
      write_at_parts (p ++ bytes) c q (0 ∷ 0 ∷ []) (offset + v * 2 + 2 * length us)
        (omega (arith, length-append p bytes)) ec in
    ap
      (λ l.
        write_at (write_at (p ++ (b ++ (c ++ q))) start (take l (bytes_of_units (us ++ more))))
          (start + l) end)
      not_cut
    ∙ ap (λ t. write_at (write_at (p ++ (b ++ (c ++ q))) start t) (start + n) end) taken
    ∙ ap (λ t. write_at t (start + n) end) (one ∙ sym (append_assoc p bytes (c ++ q)))
    ∙ two
    ∙ append_assoc p bytes (0 ∷ 0 ∷ q)

-- bytes that start with a text and its terminator
abbrev pub IsText : List ℕ → List ℕ → Type 0
IsText us bytes = (rest : List ℕ) × (units_of_bytes bytes ≡ us ++ 0 ∷ rest)

bytes_of_units-IsText :
    (us rest : List ℕ) → IsUnits us → IsText us (bytes_of_units us ++ (0 ∷ 0 ∷ rest))
unfolding units_of_bytes
bytes_of_units-IsText us rest h =
    (units_of_bytes rest, units_of_bytes-bytes_of_units us (0 ∷ 0 ∷ rest) h)

-- a place for a text of `n` bytes behind `k` bytes
place_for :
    (k n : ℕ) (xs : List ℕ)
    → k + n + 2 ≤ length xs
    → (p : List ℕ) × (b : List ℕ) × (c : List ℕ) × (q : List ℕ) × (xs ≡ p ++ (b ++ (c ++ q)))
      × (length p ≡ k)
      × (length b ≡ n)
      × (length c ≡ 2)
      × (length q ≡ length xs - (k + n + 2))
place_for k n xs h =
    let (p, r, e1, lp, lr) = cut k xs (omega arith) in
    let (b, r2, e2, lb, lr2) = cut n r (omega arith) in
    let (c, q, e3, lc, lq) = cut 2 r2 (omega arith) in
    (p, b, c, q, e1 ∙ ap (λ t. p ++ t) (e2 ∙ ap (λ t. b ++ t) e3), lp, lb, lc, omega arith)

regroup : (p b g x : List ℕ) → (p ++ (b ++ (0 ∷ 0 ∷ g))) ++ x ≡ p ++ (b ++ (0 ∷ 0 ∷ (g ++ x)))
regroup p b g x =
    append_assoc p (b ++ (0 ∷ 0 ∷ g)) x ∙ ap (λ t. p ++ t) (append_assoc b (0 ∷ 0 ∷ g) x)

-- Both names are written, each with its terminator, and the bytes before the first are kept.
two_names :
    (v : ℕ) (face face_more full full_more names : List ℕ)
    → 192 + v * 2 ≤ length names
    → v * 2 + 2 * length face + 2 ≤ face_bytes
    → v * 2 + 2 * length full + 2 ≤ full_bytes
    → (p : List ℕ) × (g : List ℕ) × (r : List ℕ) × (put_name face_bytes full_bytes v
          (2 * length full)
          (full ++ full_more)
          (put_name 0 face_bytes v (2 * length face) (face ++ face_more) names)
        ≡ (p ++ (bytes_of_units face ++ (0 ∷ 0 ∷ g))) ++ (bytes_of_units full ++ (0 ∷ 0 ∷ r)))
      × (length p ≡ v * 2)
      × (length (p ++ (bytes_of_units face ++ (0 ∷ 0 ∷ g))) ≡ face_bytes + v * 2)
      × (p ≡ take (v * 2) names)
two_names v face face_more full full_more names long ff fu =
    let n = 2 * length face in
    let m = 2 * length full in
    let (p, b, c, q, e, lp, lb, lc, lq) = place_for (v * 2) n names (omega arith) in
    let (g, d, x, r, e2, lg, ld, lx, lr) = place_for (62 - n) m q (omega arith) in
    let face_b = bytes_of_units face in
    let whole : length (p ++ (face_b ++ (0 ∷ 0 ∷ g))) ≡ face_bytes + v * 2 = omega (
      arith,
      length-append p (face_b ++ (0 ∷ 0 ∷ g)),
      length-append face_b (0 ∷ 0 ∷ g),
      length-bytes_of_units face,
    ) in
    let first : put_name 0 face_bytes v n (face ++ face_more) names
        ≡ (p ++ (face_b ++ (0 ∷ 0 ∷ g))) ++ (d ++ (x ++ r)) =
      ap (put_name 0 face_bytes v n (face ++ face_more)) e
      ∙ put_name_parts 0 face_bytes v face face_more p b c q (omega arith) lb lc (omega arith)
      ∙ ap (λ t. p ++ (face_b ++ (0 ∷ 0 ∷ t))) e2
      ∙ sym (regroup p face_b g (d ++ (x ++ r))) in
    (
      p,
      g,
      r,
      ap (put_name face_bytes full_bytes v m (full ++ full_more)) first
          ∙ put_name_parts face_bytes full_bytes v full full_more (p ++ (face_b ++ (0 ∷ 0 ∷ g))) d x
              r whole ld lx (omega arith),
      lp,
      whole,
      sym (ap (take (v * 2)) e ∙ take-append p (b ++ (c ++ q)) (v * 2) lp),
    )

-- `v` is 1 where the face name of the font begins with '@', as for vertical writing, and 0 elsewhere.
abbrev pub IsVertical : List ℕ → ℕ → Type 0
IsVertical names v =
    ((v ≡ 1) × (take 2 names ≡ b'@' ∷ 0 ∷ [])) ⊎ ((v ≡ 0) × (take 2 names ≢ b'@' ∷ 0 ∷ []))

IsVertical-vertical :
    (names : List ℕ) (v : ℕ) → 2 ≤ length names → IsVertical names v → vertical names ≡ v
unfolding vertical units_of_bytes
IsVertical-vertical [] v long h = absurd (omega arith)
IsVertical-vertical (a ∷ []) v long h = absurd (omega arith)
IsVertical-vertical (a ∷ b ∷ rest) v long (inl (e, at)) = ground arith
IsVertical-vertical (a ∷ b ∷ rest) v long (inr (e, ne)) = elim (ℕ_discrete (a + b * 256) b'@') [
  | yes y ↦
      let low : a ≡ b'@' = omega arith in
      let high : b ≡ 0 = omega arith in absurd (ne (ap₂ (λ x y. x ∷ y ∷ []) low high))
  | no n ↦ ground arith
]

-- Where the face name of the font is that of the table in the original language, and the table has both names in the
-- language of the hooks, `AdjustFontDataInternal` succeeds and puts these into the font: `lfFaceName`,
-- and `elfFullName`, read up to a terminator, are then the names. If `lfFaceName` begins with '@' its first
-- unit is kept, and both names are put behind the first unit of their fields. The names and their terminators fit their
-- fields, and are units of 16 bits.
pub adjust_names-IsText :
    (table : List ℕ) (table_size original_locale_id locale_id v : ℕ)
    (face face_more full full_more : List ℕ) (lf : EnumLogFont)
    → IsVertical lf.names v
    → matches_face table table_size original_locale_id lf.names ≡ some true
    → get_name_record table table_size name_id_face locale_id face_bytes
      ≡ some (name_found (2 * length face) (face ++ face_more))
    → get_name_record table table_size name_id_full locale_id full_bytes
      ≡ some (name_found (2 * length full) (full ++ full_more))
    → 192 + v * 2 ≤ length lf.names
    → v * 2 + 2 * length face + 2 ≤ face_bytes
    → v * 2 + 2 * length full + 2 ≤ full_bytes
    → IsUnits face
    → IsUnits full
    → (names' : List ℕ) × (adjust_names table table_size original_locale_id locale_id lf
        ≡ some (font_success, record lf { names = names' }))
      × (take (v * 2) names' ≡ take (v * 2) lf.names)
      × IsText face (drop (v * 2) names')
      × IsText full (drop (face_bytes + v * 2) names')
unfolding adjust_names localize
adjust_names-IsText table table_size original_locale_id locale_id v face face_more full full_more lf
      is_v matched found_face found_full long ff fu uface ufull =
    let names = lf.names in
    let ev : vertical lf.names ≡ v = IsVertical-vertical lf.names v (omega arith) is_v in
    let (p, g, r, e, lp, whole, kept) =
      two_names v face face_more full full_more names long ff fu in
    let face_b = bytes_of_units face in
    let full_b = bytes_of_units full in
    let tail : List ℕ = full_b ++ (0 ∷ 0 ∷ r) in
    let e2 = e ∙ regroup p face_b g tail in
    (
      put_name face_bytes full_bytes v (2 * length full) (full ++ full_more)
          (put_name 0 face_bytes v (2 * length face) (face ++ face_more) names),
      ground (arith, matched, found_face, found_full, ev),
      ap (take (v * 2)) e2 ∙ take-append p (face_b ++ (0 ∷ 0 ∷ (g ++ tail))) (v * 2) lp ∙ kept,
      subst (IsText face)
          (sym (ap (drop (v * 2)) e2 ∙ drop-append p (face_b ++ (0 ∷ 0 ∷ (g ++ tail))) (v * 2) lp))
          (bytes_of_units-IsText face (g ++ tail) uface),
      subst (IsText full)
          (sym (
            ap (drop (face_bytes + v * 2)) e
            ∙ drop-append (p ++ (face_b ++ (0 ∷ 0 ∷ g))) tail (face_bytes + v * 2) whole))
          (bytes_of_units-IsText full r ufull),
    )
