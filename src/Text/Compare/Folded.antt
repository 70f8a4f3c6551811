-- ===== src/Text/Compare/Folded.antt =====
-- Which texts compare as the same.
use fvploader.Prelude.{
  ℕ, zero, suc, ◌+◌, ◌<◌, ◌≡◌, ◌≢◌, ◌∙◌, Bool, true, false, not, ◌&&◌, ◌||◌, ◌==◌, ltb, ◌/◌, ◌%◌,
  some, List, [], ◌∷◌, ◌++◌, length, arith, Bool-cases, inl, inr,
}
use fvploader.Text.Compare.{
  CaseConvert, keep, to_lower, to_upper, Order, same, converted, cleared, differs, compare_loop,
  order_of, str_n_i_compare_w,
}

-- the same unit, or two below 0x80 that differ in the bit 0x20
abbrev pub same_unit : ℕ → ℕ → Bool
same_unit x y =
    x == y
    || (ltb x 0x80
        && ltb y 0x80
        && (x == y + 0x20 && y / 0x20 % 2 == 0 || y == x + 0x20 && x / 0x20 % 2 == 0))

-- whether the texts have the same units but for the bit 0x20 of those below 0x80
abbrev pub same_folded : List ℕ → List ℕ → Bool
same_folded [] [] = true
same_folded (x ∷ xs) (y ∷ ys) = same_unit x y && same_folded xs ys
same_folded _ _ = false

abbrev pub is_same : Order → Bool
is_same same = true
is_same _ = false

-- No unit is a terminator or a space.
abbrev pub IsSolid : List ℕ → Type 0
IsSolid [] = Unit
IsSolid (x ∷ xs) = (x ≢ 0) × (x ≢ 0x20) × IsSolid xs

-- Units at which the loop breaks off are not the same when they are converted.
differs-order_of :
    (c : CaseConvert) (a b : ℕ)
    → differs a b ≡ true
    → is_same (order_of (converted c a) (converted c b)) ≡ false
unfolding differs order_of converted cleared
differs-order_of keep a b e = ground arith
differs-order_of to_lower a b e = ground arith
differs-order_of to_upper a b e = ground arith

differs-same_unit : (x y : ℕ) → not (differs x y) ≡ same_unit x y
unfolding differs cleared
differs-same_unit x y = ground arith

order_of_self : (a : ℕ) → is_same (order_of a a) ≡ true
unfolding order_of
order_of_self a = ground arith

differs_end : (y : ℕ) → y ≢ 0 → y ≢ 0x20 → (differs 0 y ≡ true) × (differs y 0 ≡ true)
unfolding differs cleared
differs_end y nz ns = (ground arith, ground arith)

same_ends : differs 0 0 ≡ false
unfolding differs
same_ends = ground arith

-- Where the loop stops.
abbrev IsStopped : CaseConvert → ℕ → List ℕ → List ℕ → List ℕ → List ℕ → Type 0
IsStopped c n xs ys r t =
    (a : ℕ) × (b : ℕ) × (compare_loop n (xs ++ 0 ∷ r) (ys ++ 0 ∷ t) ≡ some (false, a, b))
    × (is_same (order_of (converted c a) (converted c b)) ≡ same_folded xs ys)

compare_loop-IsStopped :
    (c : CaseConvert) (n : ℕ) (xs ys r t : List ℕ)
    → IsSolid xs
    → IsSolid ys
    → length xs + 1 < n
    → IsStopped c n xs ys r t
unfolding compare_loop
compare_loop-IsStopped c zero xs ys r t hx hy long = absurd (omega arith)
compare_loop-IsStopped c (suc n) [] [] r t hx hy long =
    let end : differs 0 0 ≡ false = same_ends in
    (0, 0, ground (arith, end), order_of_self (converted c 0))
compare_loop-IsStopped c (suc n) [] (y ∷ ys) r t hx (nz, ns, hy) long =
    let (e, f) = differs_end y nz ns in (0, y, ground (arith, e), differs-order_of c 0 y e)
compare_loop-IsStopped c (suc n) (x ∷ xs) [] r t (nz, ns, hx) hy long =
    let (e, f) = differs_end x nz ns in (x, 0, ground (arith, f), differs-order_of c x 0 f)
compare_loop-IsStopped c (suc n) (x ∷ xs) (y ∷ ys) r t (nx, sx, hx) (ny, sy, hy) long =
    elim (Bool-cases (differs x y)) [
      | inl e ↦ (
        x,
        y,
        ground (arith, e),
        differs-order_of c x y e ∙ ground (arith, e, differs-same_unit x y),
      )
      | inr e ↦
          let (a, b, stops, fits) = compare_loop-IsStopped c n xs ys r t hx hy (omega arith) in
          (a, b, ground (arith, e, stops), fits ∙ ground (arith, e, differs-same_unit x y))
    ]

-- Two texts without spaces, of which the first has fewer units than the length to compare by at least
-- two, are compared as the same, with any conversion of the case, exactly when they have the same
-- units but for the bit 0x20 of the units below 0x80.
pub str_n_i_compare_w-same_folded :
    (c : CaseConvert) (n : ℕ) (xs ys r t : List ℕ)
    → IsSolid xs
    → IsSolid ys
    → length xs + 1 < n
    → (o : Order) × (str_n_i_compare_w c n (xs ++ 0 ∷ r) (ys ++ 0 ∷ t) ≡ some o)
      × (is_same o ≡ same_folded xs ys)
unfolding str_n_i_compare_w
str_n_i_compare_w-same_folded c n xs ys r t hx hy long =
    let (a, b, stops, fits) = compare_loop-IsStopped c n xs ys r t hx hy long in
    (order_of (converted c a) (converted c b), ground (arith, stops), fits)
