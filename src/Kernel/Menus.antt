-- ===== src/Kernel/Menus.antt =====
-- `HookSetMenuItemInfoA` and `MultiByteToWideCharInternal` of source/FVPKernel/FVPKernel.cpp: a menu item is set
-- with its text in UTF-16. The system is a parameter: its heap, the texts in memory and
-- `SetMenuItemInfoW`, over a state `W`.
pub mod Restored
use fvploader.Prelude.{
  ℕ, ◌+◌, ◌*◌, ◌/◌, ◌%◌, Bool, not, ◌==◌, ◌&&◌, ◌||◌, ltb, if◌then◌else◌, List, [], ◌∷◌, ◌++◌,
  length,
}

-- `MENUITEMINFOA`; `other` is the members that the hook passes on.
pub record MenuItemInfo : Type 0 where
  pub mask : ℕ
  pub item_type : ℕ
  pub type_data : ℕ
  pub cch : ℕ
  pub other : List ℕ

-- The calls of the system; a null pointer is 0.
pub record MenuSystem {ℓ} (W : Type ℓ) : Type ℓ where
  -- `HeapAlloc` of so many bytes, and `HeapFree`
  pub heap_alloc : ℕ → W → ℕ × W
  pub heap_free : ℕ → W → W
  -- the bytes of the text at an address, before its terminator; none at a null pointer
  pub text_at : ℕ → W → List ℕ
  -- units written to an address
  pub write_units : ℕ → List ℕ → W → W
  -- `MultiByteToWideChar` of code page 932
  pub multi_byte_to_wide_char : List ℕ → List ℕ
  pub set_menu_item_info_w : MenuItemInfo → W → Bool × W

-- the test of the flags 0x10, `MIIM_TYPE`, and 0x40, `MIIM_STRING`
abbrev pub has_text : MenuItemInfo → Bool
has_text mii =
    mii.mask / 0x10 % 2 == 1 && not (mii.item_type == 0)
    || (mii.mask / 0x40 % 2 == 1 || ltb 0 mii.cch)

module _ {ℓ} {W : Type ℓ} (sys : MenuSystem W) where
  -- `MultiByteToWideCharInternal`
  unfoldable pub multi_byte_to_wide_char_internal : ℕ → W → ℕ × W
  multi_byte_to_wide_char_internal string w =
      let text = sys.text_at string w in
      let (unicode, w1) = sys.heap_alloc ((length text + 1) * 2) w in
      if unicode == 0
      then (unicode, w1)
      else (unicode, sys.write_units unicode (sys.multi_byte_to_wide_char text ++ 0 ∷ []) w1)

  -- `HookSetMenuItemInfoA`: its result, and what the argument is afterwards
  unfoldable pub hook_set_menu_item_info_a : MenuItemInfo → W → Bool × MenuItemInfo × W
  hook_set_menu_item_info_a mii w =
      let (unicode, w1) = multi_byte_to_wide_char_internal mii.type_data w in
      let wide = record mii { type_data = unicode } in
      if not (has_text mii)
      then (let (ok, w2) = sys.set_menu_item_info_w mii w in (ok, mii, w2))
      else (let (ok, w2) = sys.set_menu_item_info_w wide w1 in
          if mii.type_data == 0
          then (ok, wide, w2)
          else (ok, record wide { type_data = mii.type_data }, sys.heap_free unicode w2))
