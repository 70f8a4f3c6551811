-- ===== src/Gdi/Enumeration/Released.antt =====
-- What `AdjustFontData` leaves behind in GDI.
use fvploader.Prelude.{
  ℕ, ◌≡◌, ◌≢◌, sym, ap, ◌∙◌, Bool, true, false, ◌==◌, if◌then◌else◌, some, arith, ℕ_discrete,
}
use fvploader.Gdi.FontNames.{FontStatus, EnumLogFont}
use fvploader.Gdi.Metrics.{TextMetricInternal}
use fvploader.Gdi.Enumeration.{Gdi, HookEnv, adjust_font_data}

module _ {ℓ} {W : Type ℓ} where
  -- What GDI documents of these calls: `selected` is the font of the device context, and `exists`
  -- says which fonts there are.
  pub record GdiLaws (gdi : Gdi W) (selected : W → ℕ) (exists : W → ℕ → Bool) : Type ℓ where
    pub create_selected :
        (lf : EnumLogFont) (w : W) → selected (gdi.create_font_indirect lf w).1 ≡ selected w
    pub create_exists :
        (lf : EnumLogFont) (w : W) (h : ℕ)
        → (gdi.create_font_indirect lf w).0 ≢ 0
        → exists (gdi.create_font_indirect lf w).1 h
          ≡ (if h == (gdi.create_font_indirect lf w).0 then true else exists w h)
    pub create_new :
        (lf : EnumLogFont) (w : W)
        → (gdi.create_font_indirect lf w).0 ≢ 0
        → exists w (gdi.create_font_indirect lf w).0 ≡ false
    pub create_failed :
        (lf : EnumLogFont) (w : W) (h : ℕ)
        → (gdi.create_font_indirect lf w).0 ≡ 0
        → exists (gdi.create_font_indirect lf w).1 h ≡ exists w h
    pub select_result :
        (f : ℕ) (w : W) → (gdi.select_object f w).0 ≢ 0 → (gdi.select_object f w).0 ≡ selected w
    pub select_failed :
        (f : ℕ) (w : W)
        → (gdi.select_object f w).0 ≡ 0
        → selected (gdi.select_object f w).1 ≡ selected w
    pub select_back :
        (f : ℕ) (w : W)
        → (gdi.select_object f w).0 ≢ 0
        → selected (gdi.select_object (gdi.select_object f w).0 (gdi.select_object f w).1).1
          ≡ (gdi.select_object f w).0
    pub select_exists : (f : ℕ) (w : W) (h : ℕ) → exists (gdi.select_object f w).1 h ≡ exists w h
    pub delete_selected : (f : ℕ) (w : W) → selected (gdi.delete_object f w) ≡ selected w
    pub selected_exists : (w : W) → exists w (selected w) ≡ true
    -- a font that is selected stays
    pub delete_exists :
        (f : ℕ) (w : W) (h : ℕ)
        → selected w ≢ f
        → exists (gdi.delete_object f w) h ≡ (if h == f then false else exists w h)

  -- the same font is selected, and the same fonts exist
  abbrev pub IsSameGdi : (W → ℕ) → (W → ℕ → Bool) → W → W → Type 0
  IsSameGdi selected exists w w' = (selected w' ≡ selected w) × ((h : ℕ) → exists w' h ≡ exists w h)

module _ {ℓ} {W : Type ℓ} (env : HookEnv W) (selected : W → ℕ) (exists : W → ℕ → Bool) where
  -- A font that is created and deleted again.
  delete_created :
      (laws : GdiLaws env.gdi selected exists) (lf : EnumLogFont) (w w3 : W)
      → (env.gdi.create_font_indirect lf w).0 ≢ 0
      → selected w3 ≡ selected w
      → ((h : ℕ) → exists w3 h ≡ exists (env.gdi.create_font_indirect lf w).1 h)
      → (h : ℕ)
      → exists (env.gdi.delete_object (env.gdi.create_font_indirect lf w).0 w3) h ≡ exists w h
  delete_created laws lf w w3 nz chosen same h =
      let f = (env.gdi.create_font_indirect lf w).0 in
      let other : selected w3 ≢ f = λ e.
        ground (
          arith,
          laws.selected_exists w,
          laws.create_new lf w nz,
          ap (exists w) (sym chosen ∙ e),
        ) in
      elim (ℕ_discrete h f) [
        | yes e ↦
            ground
              (arith, laws.delete_exists f w3 h other, laws.create_new lf w nz, ap (exists w) e)
        | no n ↦
            ground (arith, laws.delete_exists f w3 h other, same h, laws.create_exists lf w h nz)
      ]

  -- `AdjustFontData` leaves the device context with the font that was selected before, and deletes the
  -- font that it created, on every path.
  pub adjust_font_data-released :
      (laws : GdiLaws env.gdi selected exists) (lf : EnumLogFont) (m : TextMetricInternal) (w : W)
      (r : FontStatus × EnumLogFont × TextMetricInternal) (w' : W)
      → adjust_font_data env lf m w ≡ some (r, w')
      → IsSameGdi selected exists w w'
  unfolding adjust_font_data
  adjust_font_data-released laws lf m w r w' run =
      let font = (env.gdi.create_font_indirect lf w).0 in
      let w1 = (env.gdi.create_font_indirect lf w).1 in
      let old = (env.gdi.select_object font w1).0 in
      let w2 = (env.gdi.select_object font w1).1 in
      let w3 = (env.gdi.select_object old w2).1 in
      elim (ℕ_discrete font 0) [
        | yes z ↦
            let e : w' ≡ w1 = ground arith in
            rw e (laws.create_selected lf w, λ h. laws.create_failed lf w h z)
        | no nz ↦ elim (ℕ_discrete old 0) [
          | yes z ↦
              let e : w' ≡ env.gdi.delete_object font w2 = ground arith in
              let same = laws.select_failed font w1 z ∙ laws.create_selected lf w in
              rw e (
                laws.delete_selected font w2 ∙ same,
                delete_created laws lf w w2 nz same (laws.select_exists font w1),
              )
          | no oz ↦
              let e : w' ≡ env.gdi.delete_object font w3 = ground arith in
              let same =
                laws.select_back font w1 oz
                ∙ laws.select_result font w1 oz
                ∙ laws.create_selected lf w in
              rw e (
                laws.delete_selected font w3 ∙ same,
                delete_created laws lf w w3 nz same
                    (λ h. laws.select_exists old w2 h ∙ laws.select_exists font w1 h),
              )
        ]
      ]
