-- ===== src/Gdi/StockFonts/Kept.antt =====
-- Stock fonts are given out again and never deleted.
use fvploader.Prelude.{
  ℕ, zero, suc, ◌<◌, ◌≡◌, ◌≢◌, sym, ap, ◌∙◌, true, false, Option, some, arith, ℕ_discrete,
}
use fvploader.Gdi.StockFonts.{
  stock_count, StockState, LogFont, initialize_stock, le_get_stock_object, in_stock,
  le_delete_object,
}

in_stock-there : (n i h : ℕ) (fonts : ℕ → ℕ) → i < n → h ≡ fonts i → in_stock n h fonts ≡ true
unfolding in_stock
in_stock-there zero i h fonts less e = absurd (omega arith)
in_stock-there (suc n) i h fonts less e = elim (ℕ_discrete i n) [
  | yes same ↦ ground (arith, e ∙ ap fonts same)
  | no other ↦ ground (arith, in_stock-there n i h fonts (omega arith) e)
]

module _ {ℓ} {W : Type ℓ} (get_stock_object : ℕ → ℕ) (get_object : ℕ → W → Option LogFont)
    (create_font_indirect : LogFont → W → ℕ × W) where
  -- The functions with the parameters of this section.
  abbrev initialized : StockState → W → StockState × W
  initialized = initialize_stock get_stock_object get_object create_font_indirect

  abbrev given_out : ℕ → StockState → W → Option (ℕ × StockState × W)
  given_out = le_get_stock_object get_stock_object get_object create_font_indirect

  initialize_stock-initialized :
      (s : StockState) (w : W) → (initialized s w).0.stock_object_initialized ≡ true
  unfolding initialize_stock
  initialize_stock-initialized s w = ground arith

  initialize_stock-again :
      (s : StockState) (w : W) → s.stock_object_initialized ≡ true → initialized s w ≡ (s, w)
  unfolding initialize_stock
  initialize_stock-again s w e = ground (arith, e)

  le_get_stock_object_run :
      (object : ℕ) (s u : StockState) (w v : W)
      → object < stock_count
      → initialized s w ≡ (u, v)
      → u.stock_object object ≢ 0
      → given_out object s w ≡ some (u.stock_object object, u, v)
  unfolding le_get_stock_object
  le_get_stock_object_run object s u w v small e own = ground (arith, e)

  le_get_stock_object_state :
      (object : ℕ) (s s1 : StockState) (w w1 : W) (h : ℕ)
      → given_out object s w ≡ some (h, s1, w1)
      → initialized s w ≡ (s1, w1)
  unfolding le_get_stock_object
  le_get_stock_object_state object s s1 w w1 h e = ground arith

  -- For a stock object of a number below 20 for which there is a font in the table when
  -- `LeGetStockObject` returns, it returns this font. Whatever GDI does in between, it returns the same
  -- the next time, makes no font then and does not change its state; and `LeDeleteObject` of the font does
  -- not delete it.
  pub le_get_stock_object-le_delete_object :
      (object : ℕ) (s s1 : StockState) (w w1 w2 : W) (h : ℕ)
      → object < stock_count
      → le_get_stock_object get_stock_object get_object create_font_indirect object s w
        ≡ some (h, s1, w1)
      → s1.stock_object object ≢ 0
      → (h ≡ s1.stock_object object)
        × (le_get_stock_object get_stock_object get_object create_font_indirect object s1 w2
            ≡ some (h, s1, w2))
        × (le_delete_object h s1 ≡ false)
  unfolding le_delete_object
  le_get_stock_object-le_delete_object object s s1 w w1 w2 h small e own =
      let first : initialized s w ≡ (s1, w1) = le_get_stock_object_state object s s1 w w1 h e in
      let ready : s1.stock_object_initialized ≡ true =
        sym (ap (λ r. r.0.stock_object_initialized) first) ∙ initialize_stock-initialized s w in
      let again : initialized s1 w2 ≡ (s1, w2) = initialize_stock-again s1 w2 ready in
      let given : h ≡ s1.stock_object object =
        ground (arith, sym e ∙ le_get_stock_object_run object s s1 w w1 small first own) in
      let there : in_stock stock_count h s1.stock_object ≡ true =
        in_stock-there stock_count object h s1.stock_object small given in
      (
        given,
        le_get_stock_object_run object s1 s1 w2 w2 small again own
            ∙ ap (λ x. some (x, s1, w2)) (sym given),
        ground (arith, ready, there),
      )
