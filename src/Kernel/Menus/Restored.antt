-- ===== src/Kernel/Menus/Restored.antt =====
-- What `HookSetMenuItemInfoA` leaves behind.
use fvploader.Prelude.{
  ℕ, ◌+◌, ◌*◌, ◌≡◌, ◌≢◌, ap, ◌∙◌, ◌⊎◌, inl, inr, Bool, true, false, ◌==◌, if◌then◌else◌, List, [],
  ◌∷◌, ◌++◌, length, arith, ℕ_discrete, Bool-cases,
}
use fvploader.Kernel.Menus.{
  MenuItemInfo, MenuSystem, has_text, multi_byte_to_wide_char_internal, hook_set_menu_item_info_a,
}

module _ {ℓ} {W : Type ℓ} where
  -- What is relied on of the heap: `live` says which blocks are allocated.
  pub record HeapLaws (sys : MenuSystem W) (live : W → ℕ → Bool) : Type ℓ where
    pub alloc_live :
        (n : ℕ) (w : W) (h : ℕ)
        → live (sys.heap_alloc n w).1 h ≡ (
            if (sys.heap_alloc n w).0 == 0
            then live w h
            else if h == (sys.heap_alloc n w).0
            then true
            else live w h)
    pub alloc_new :
        (n : ℕ) (w : W) → (sys.heap_alloc n w).0 ≢ 0 → live w (sys.heap_alloc n w).0 ≡ false
    pub free_live :
        (p : ℕ) (w : W) (h : ℕ)
        → live (sys.heap_free p w) h
          ≡ (if p == 0 then live w h else if h == p then false else live w h)
    pub write_live :
        (p : ℕ) (us : List ℕ) (w : W) (h : ℕ) → live (sys.write_units p us w) h ≡ live w h
    pub set_live :
        (mii : MenuItemInfo) (w : W) (h : ℕ) → live (sys.set_menu_item_info_w mii w).1 h ≡ live w h

module _ {ℓ} {W : Type ℓ} (sys : MenuSystem W) (live : W → ℕ → Bool) where
  internal_live :
      (laws : HeapLaws sys live) (p : ℕ) (w : W) (h : ℕ)
      → live (multi_byte_to_wide_char_internal sys p w).1 h ≡ (
          if (multi_byte_to_wide_char_internal sys p w).0 == 0
          then live w h
          else if h == (multi_byte_to_wide_char_internal sys p w).0
          then true
          else live w h)
  unfolding multi_byte_to_wide_char_internal
  internal_live laws p w h =
      let text = sys.text_at p w in
      let n = (length text + 1) * 2 in
      let unicode = (sys.heap_alloc n w).0 in
      let w1 = (sys.heap_alloc n w).1 in
      let units : List ℕ = sys.multi_byte_to_wide_char text ++ 0 ∷ [] in
      ground (arith, laws.alloc_live n w h, laws.write_live unicode units w1 h)

  internal_new :
      (laws : HeapLaws sys live) (p : ℕ) (w : W)
      → (multi_byte_to_wide_char_internal sys p w).0 ≢ 0
      → live w (multi_byte_to_wide_char_internal sys p w).0 ≡ false
  unfolding multi_byte_to_wide_char_internal
  internal_new laws p w nz =
      let n = (length (sys.text_at p w) + 1) * 2 in
      let same : (multi_byte_to_wide_char_internal sys p w).0 ≡ (sys.heap_alloc n w).0 =
        ground arith in
      ap (live w) same ∙ laws.alloc_new n w (λ z. nz (same ∙ z))

  freed_again :
      (laws : HeapLaws sys live) (mii : MenuItemInfo) (w : W) (h : ℕ)
      → live
          (sys.heap_free
            (multi_byte_to_wide_char_internal sys mii.type_data w).0
            (sys.set_menu_item_info_w
              (record mii { type_data = (multi_byte_to_wide_char_internal sys mii.type_data w).0 })
              (multi_byte_to_wide_char_internal sys mii.type_data w).1).1)
          h
        ≡ live w h
  freed_again laws mii w h =
      let unicode = (multi_byte_to_wide_char_internal sys mii.type_data w).0 in
      let w1 = (multi_byte_to_wide_char_internal sys mii.type_data w).1 in
      let wide : MenuItemInfo = record mii { type_data = unicode } in
      let w2 = (sys.set_menu_item_info_w wide w1).1 in
      elim (ℕ_discrete unicode 0) [
        | yes z ↦ ground (
          arith,
          laws.free_live unicode w2 h,
          laws.set_live wide w1 h,
          internal_live laws mii.type_data w h,
        )
        | no nz ↦ elim (ℕ_discrete h unicode) [
          | yes e ↦ ground (
            arith,
            laws.free_live unicode w2 h,
            internal_new laws mii.type_data w nz,
            ap (live w) e,
          )
          | no ne ↦ ground (
            arith,
            laws.free_live unicode w2 h,
            laws.set_live wide w1 h,
            internal_live laws mii.type_data w h,
          )
        ]
      ]

  -- `HookSetMenuItemInfoA` leaves its argument as it was and no block allocated that was not before, unless the
  -- item has a text and its pointer is null.
  pub hook_set_menu_item_info_a-restored :
      (laws : HeapLaws sys live) (mii : MenuItemInfo) (w : W)
      → (has_text mii ≡ false) ⊎ (mii.type_data ≢ 0)
      → ((hook_set_menu_item_info_a sys mii w).1 ≡ mii)
        × ((h : ℕ) → live (hook_set_menu_item_info_a sys mii w).2 h ≡ live w h)
  unfolding hook_set_menu_item_info_a
  hook_set_menu_item_info_a-restored laws mii w ok =
      let unicode = (multi_byte_to_wide_char_internal sys mii.type_data w).0 in
      let w1 = (multi_byte_to_wide_char_internal sys mii.type_data w).1 in
      let wide : MenuItemInfo = record mii { type_data = unicode } in
      let w2 = (sys.set_menu_item_info_w wide w1).1 in
      (
        ground arith,
        λ h. elim (Bool-cases (has_text mii)) [
          | inr n ↦ ground (arith, n, laws.set_live mii w h)
          | inl y ↦
              let freed : live (sys.heap_free unicode w2) h ≡ live w h = freed_again laws mii w h in
              ground (arith, y, freed)
        ],
      )
