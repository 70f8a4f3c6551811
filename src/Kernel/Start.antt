-- ===== src/Kernel/Start.antt =====
-- `Initialize`, `DllMain` and `HookGdi32Routines`: which functions are replaced. Parameters are the
-- addresses of the functions and of the hooks, the results of the calls before the patches, and what
-- `PatchMemory` depends on.
use fvploader.Prelude.{
  ℕ, Bool, true, false, not, ◌==◌, ◌||◌, if◌then◌else◌, Option, List, [], ◌∷◌, map,
}
use fvploader.Patch.Memory.{Memory}
use fvploader.Patch.Manager.{success, TrampolineData, PatchState}
use fvploader.Patch.Manager.Function.{PatchData, function_patch, function_jump_va, patch_memory}

-- the functions of the system that are replaced
pub data Routine : Type 0 where
  get_version_ex_a lstrcmpi_a get_glyph_outline_a create_font_a register_class_ex_a : Routine
  create_window_ex_a def_window_proc_a dispatch_message_a get_menu_item_info_a : Routine
  set_menu_item_info_a message_box_a : Routine
  get_stock_object delete_object create_compatible_dc enum_fonts_w enum_fonts_a : Routine
  enum_font_families_a enum_font_families_w enum_font_families_ex_a enum_font_families_ex_w :
      Routine

-- the functions that `HookGdi32Routines` and `Initialize` replace with a stub, in their order
abbrev pub gdi_routines : List Routine
gdi_routines =
    get_stock_object ∷ delete_object ∷ create_compatible_dc ∷ enum_fonts_w ∷ enum_fonts_a
    ∷ enum_font_families_a ∷ enum_font_families_w ∷ enum_font_families_ex_a
    ∷ enum_font_families_ex_w ∷ []

-- whether `Initialize` gives the patch of a function a pointer to a stub
unfoldable pub has_stub : Routine → Bool
has_stub lstrcmpi_a = false
has_stub get_glyph_outline_a = false
has_stub create_font_a = false
has_stub get_menu_item_info_a = false
has_stub set_menu_item_info_a = false
has_stub message_box_a = false
has_stub _ = true

abbrev pub kernel_routines : List Routine
kernel_routines =
    get_version_ex_a ∷ lstrcmpi_a ∷ get_glyph_outline_a ∷ create_font_a ∷ register_class_ex_a
    ∷ create_window_ex_a ∷ def_window_proc_a ∷ dispatch_message_a ∷ get_menu_item_info_a
    ∷ set_menu_item_info_a ∷ message_box_a ∷ []

-- What a process has: where a function, its hook and the pointer to its stub are.
pub record Addresses : Type 0 where
  pub function_at : Routine → ℕ
  pub hook_at : Routine → ℕ
  pub stub_at : Routine → ℕ

-- `Mp::FunctionJumpVa` of a function
unfoldable pub patch_of : Addresses → Routine → PatchData
patch_of at r =
    function_patch
      (function_jump_va (at.function_at r) (at.hook_at r) (if has_stub r then at.stub_at r else 0))

-- The parameters of `patch_memory`, and whether `NtGdiHfontCreate` is found.
module _ (fuel : ℕ) (get_op_code_size : Memory → ℕ → ℕ) (protect_memory : ℕ → ℕ → Bool)
    (allocate : List TrampolineData → Option ℕ) (stack : List ℕ) (at : Addresses) where
  -- `HookGdi32Routines`, whose status `Initialize` drops
  unfoldable pub hook_gdi32_routines : Bool → PatchState → PatchState
  hook_gdi32_routines hfont_found s =
      if not hfont_found
      then s
      else (patch_memory fuel get_op_code_size protect_memory allocate stack
          (map (patch_of at) gdi_routines) 0 s).1

  -- `Initialize`, of the success of `MlInitialize`, `NtInitializeNlsFiles` and the cache's
  -- `Initialize`
  unfoldable pub initialize : Bool → Bool → Bool → Bool → PatchState → Bool × PatchState
  initialize ml_ready nls_ready cache_ready hfont_found s =
      if not ml_ready || (not nls_ready || not cache_ready)
      then (false, s)
      else let r =
          patch_memory fuel get_op_code_size protect_memory allocate stack
            (map (patch_of at) kernel_routines) 0 (hook_gdi32_routines hfont_found s) in
        (elim r.0 [ success ↦ true | _ ↦ false ], r.1)

  -- `DllMain`; 1 is DLL_PROCESS_ATTACH.
  unfoldable pub dll_main : ℕ → Bool → Bool → Bool → Bool → PatchState → Bool × PatchState
  dll_main reason ml_ready nls_ready cache_ready hfont_found s =
      if reason == 1 then initialize ml_ready nls_ready cache_ready hfont_found s else (true, s)
