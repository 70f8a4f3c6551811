-- ===== src/Tests/Menus.antt =====
-- A heap with one block, at 8.
use fvploader.Prelude.{ℕ, ◌≡◌, refl, Bool, true, false, ◌==◌, if◌then◌else◌, [], ◌∷◌, arith, inr}
use fvploader.Kernel.Menus.{MenuItemInfo, MenuSystem, hook_set_menu_item_info_a}
use fvploader.Kernel.Menus.Restored.{HeapLaws, hook_set_menu_item_info_a-restored}

-- whether the block is allocated
abbrev one_block : MenuSystem Bool
one_block = record {
  heap_alloc = λ n used. if used then (0, true) else (8, true);
  heap_free = λ p used. if p == 8 then false else used;
  text_at = λ p used. if p == 0 then [] else b'o' ∷ b'k' ∷ [];
  write_units = λ p us used. used;
  multi_byte_to_wide_char = λ text. text;
  set_menu_item_info_w = λ mii used. (true, used);
}

abbrev block_live : Bool → ℕ → Bool
block_live used h = if h == 8 then used else false

one_block-HeapLaws : HeapLaws one_block block_live
one_block-HeapLaws = record {
  alloc_live = λ n used h. ground arith;
  alloc_new = λ n used nz. ground arith;
  free_live = λ p used h. ground arith;
  write_live = λ p us used h. refl;
  set_live = λ mii used h. refl;
}

abbrev some_item : MenuItemInfo
some_item = record { mask = 0x40; item_type = 0; type_data = 4; cch = 0; other = [] }

hook_set_menu_item_info_a-restored_example :
    ((hook_set_menu_item_info_a one_block some_item false).1 ≡ some_item)
    × ((h : ℕ)
        → block_live (hook_set_menu_item_info_a one_block some_item false).2 h ≡ block_live false h)
hook_set_menu_item_info_a-restored_example =
    hook_set_menu_item_info_a-restored one_block block_live one_block-HeapLaws some_item false
      (inr (λ e. omega arith))
