-- ===== src/Container/GrowableArray/Search.antt =====
-- The searches of `GrowableArray` on the elements that an array holds.
use fvploader.Prelude.{
  ℕ, ◌+◌, ◌-◌, ◌%◌, ◌^◌, ◌<◌, ◌≡◌, Bool, if◌then◌else◌, Option, none, some, List, [], ◌∷◌, ◌++◌,
  length, arith, Bool-cases, inl, inr,
}
use fvploader.Container.GrowableArray.{
  Array, scan_up, index_of, index_of_value, last_index_of, last_index_of_value, last_index_of_from,
}
use fvploader.Container.GrowableArray.Widened.{Holds}

module _ {ℓ} {V : Type ℓ} (equal : V → V → Bool) where
  -- the first place of a value in a list that starts at `index`
  abbrev pub position : V → ℕ → List V → Option ℕ
  position v index [] = none
  position v index (x ∷ xs) = if equal x v then some index else position v (index + 1) xs

  scan_up-position :
      (v : V) (index : ℕ) (xs slack : List V) (count : ℕ)
      → count ≡ length xs
      → scan_up equal v count index (xs ++ slack) ≡ some (position v index xs)
  unfolding scan_up
  scan_up-position v index [] [] count e = ground arith
  scan_up-position v index [] (y ∷ ys) count e = ground arith
  scan_up-position v index (x ∷ xs) slack count e = elim (Bool-cases (equal x v)) [
    | inl y ↦ ground (arith, y)
    | inr y ↦
        ground (arith, y, scan_up-position v (index + 1) xs slack (count - 1) (omega (arith, e)))
  ]

  -- `IndexOf(Value)` on an array that holds fewer than 2 ^ 32 elements gives the place of the
  -- first one that is equal, or `kInvalidIndex`, and reads no memory behind them.
  pub index_of_value_lem :
      (v : V) (xs : List V) (a : Array V)
      → Holds a xs
      → length xs < 2 ^ 32
      → index_of_value equal v a ≡ some (position v 0 xs)
  unfolding index_of
  index_of_value_lem v [] a h small = ground (arith, h.size)
  index_of_value_lem v (x ∷ xs) a h small =
      let size : a.size ≡ length (x ∷ xs) = h.size in
      let count : (a.size + 2 ^ 32 - 0) % 2 ^ 32 ≡ length (x ∷ xs) = omega (arith, size) in
      let scan = scan_up-position v 0 (x ∷ xs) h.slack ((a.size + 2 ^ 32 - 0) % 2 ^ 32) count in
      ground (arith, h.cells, size, scan)

  -- `LastIndexOf` without a number of elements never finds one, for sizes and indices whose
  -- successor is no wrap of 32 bits: its own check of the number of elements refuses every
  -- array.
  pub last_index_of-never :
      (v : V) (a : Array V) (index : ℕ)
      → a.size < 2 ^ 32
      → index + 1 < 2 ^ 32
      → (last_index_of_value equal v a ≡ some none)
        × (last_index_of_from equal v index a ≡ some none)
  unfolding last_index_of_value last_index_of_from last_index_of
  last_index_of-never v a index small lt = (ground arith, ground arith)
