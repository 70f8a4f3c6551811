-- ===== src/Gdi/StockFonts.antt =====
-- `LeGetStockObject` and `LeDeleteObject`: the stock fonts are replaced by fonts of the Shift-JIS
-- character set, which `GetFontFromFont` makes. Parameters are `GetStockObject`, and, with the state of
-- GDI, `GetObjectW`, which gives nothing when it fails, and `CreateFontIndirectW`. A null handle is 0.
pub mod Kept
use fvploader.Prelude.{
  ℕ, zero, suc, ◌+◌, Bool, true, false, not, ◌==◌, ◌&&◌, ◌||◌, ltb, if◌then◌else◌, Option, none,
  some, List, [], ◌∷◌,
}

-- `STOCK_LAST + 1`
abbrev pub stock_count : ℕ
stock_count = 20

-- `StockObjectIndex`: the numbers of the fonts among the stock objects
abbrev pub stock_object_index : List ℕ
stock_object_index = 11 ∷ 12 ∷ 14 ∷ 17 ∷ 10 ∷ 13 ∷ 16 ∷ []

-- the members of `HookRoutineData.Gdi32`
pub record StockState : Type 0 where
  pub stock_object_initialized : Bool
  pub stock_object : ℕ → ℕ

-- `LOGFONTW`; `other` is all but `lfCharSet`.
pub record LogFont : Type 0 where
  pub other : List ℕ
  pub char_set : ℕ

module _ {ℓ} {W : Type ℓ} (get_stock_object : ℕ → ℕ) (get_object : ℕ → W → Option LogFont)
    (create_font_indirect : LogFont → W → ℕ × W) where
  -- `GetFontFromFont`; 128 is `SHIFTJIS_CHARSET`.
  unfoldable pub get_font_from_font : ℕ → W → ℕ × W
  get_font_from_font font w = elim (get_object font w) [
    | none ↦ (0, w)
    | some lf ↦ create_font_indirect (record lf { char_set = 128 }) w
  ]

  -- `FOR_EACH(Index, StockObjectIndex, ...)`
  unfoldable pub fill_stock : List ℕ → (ℕ → ℕ) → W → (ℕ → ℕ) × W
  fill_stock [] fonts w = (fonts, w)
  fill_stock (i ∷ is) fonts w =
      let (font, w1) = get_font_from_font (get_stock_object i) w in
      fill_stock is (λ j. if j == i then font else fonts j) w1

  -- the section of `LeGetStockObject` that runs once
  unfoldable pub initialize_stock : StockState → W → StockState × W
  initialize_stock s w =
      let filled = fill_stock stock_object_index s.stock_object w in
      if s.stock_object_initialized
      then (s, w)
      else (record { stock_object_initialized = true; stock_object = filled.0 }, filled.1)

  -- `LeGetStockObject`, of a number of 32 bits; `none` is the read behind the array that
  -- `Object > countof(...)` lets through.
  unfoldable pub le_get_stock_object : ℕ → StockState → W → Option (ℕ × StockState × W)
  le_get_stock_object object s w =
      let r = initialize_stock s w in
      if ltb stock_count object
      then some (get_stock_object object, r.0, r.1)
      else if object == stock_count
      then none
      else if r.0.stock_object object == 0
      then some (get_stock_object object, r.0, r.1)
      else some (r.0.stock_object object, r.0, r.1)

-- `FOR_EACH_ARRAY(StockObject, ...)`: whether a handle is among the first `n`
unfoldable pub in_stock : ℕ → ℕ → (ℕ → ℕ) → Bool
in_stock zero h fonts = false
in_stock (suc n) h fonts = if h == fonts n then true else in_stock n h fonts

-- `LeDeleteObject`: whether it calls the function that it replaced; if not it returns TRUE.
unfoldable pub le_delete_object : ℕ → StockState → Bool
le_delete_object gdi_object s =
    if gdi_object == 0 || not s.stock_object_initialized
    then false
    else not (in_stock stock_count gdi_object s.stock_object)
