-- ===== src/Kernel/Windows.antt =====
-- The hooks on window classes, windows and messages: `HookRegisterClassExA`, `HookCreateWindowExA`,
-- `HookMainWindowProc`, `HookDefWindowProcA` and `HookDispatchMessageA`. A function returns the call
-- of the system that it ends in. Parameters are `MultiByteToWideChar` of code page 932, and the patch
-- of a window procedure, which is `Mp::PatchMemory`.
pub mod Desk
pub mod Routed
use fvploader.Prelude.{
  ℕ, zero, suc, Bool, true, false, not, ◌==◌, ◌&&◌, ◌||◌, if◌then◌else◌, List, [], ◌∷◌,
}
use fvploader.Patch.Manager.{PatchState}

-- `HS_MAIN_WINDOW_CLASS00`
abbrev pub main_class : List ℕ
main_class =
    b'H' ∷ b'S' ∷ b'_' ∷ b'M' ∷ b'A' ∷ b'I' ∷ b'N' ∷ b'_' ∷ b'W' ∷ b'I' ∷ b'N' ∷ b'D' ∷ b'O' ∷ b'W'
    ∷ b'_' ∷ b'C' ∷ b'L' ∷ b'A' ∷ b'S' ∷ b'S' ∷ b'0' ∷ b'0' ∷ []

-- `StrCompareA(a, b) == 0`, of the texts before the terminators
unfoldable pub same_text : List ℕ → List ℕ → Bool
same_text [] [] = true
same_text (a ∷ xs) (b ∷ ys) = a == b && same_text xs ys
same_text _ _ = false

-- `WNDCLASSEXA` or `WNDCLASSEXW`
pub record WndClass : Type 0 where
  pub style : ℕ
  pub wnd_proc : ℕ
  pub cls_extra : ℕ
  pub wnd_extra : ℕ
  pub instance_handle : ℕ
  pub icon : ℕ
  pub cursor : ℕ
  pub background : ℕ
  pub menu_name : List ℕ
  pub class_name : List ℕ
  pub icon_small : ℕ

-- the arguments of `CreateWindowExA`; `rest` is those that are passed on
pub record NewWindow : Type 0 where
  pub class_name : List ℕ
  pub window_name : List ℕ
  pub rest : List ℕ

-- a message for a window
pub record Message : Type 0 where
  pub hwnd : ℕ
  pub msg : ℕ
  pub w_param : ℕ
  pub l_param : ℕ

-- what a hook calls: a stub leads to the function of code page strings that it replaced
pub data Call : Type 0 where
  stub_register_class_ex_a register_class_ex_w : WndClass → Call
  stub_create_window_ex_a create_window_ex_w : NewWindow → Call
  stub_main_window_proc stub_def_window_proc_a def_window_proc_w : Message → Call
  stub_dispatch_message_a dispatch_message_w : Message → Call

-- the members of `HookKernel` that these hooks use, and the patches of the process
pub record KernelState : Type 0 where
  pub main_window : ℕ
  pub patches : PatchState

module _ (wide : List ℕ → List ℕ) (patch_window_proc : ℕ → PatchState → PatchState) where
  -- `HookRegisterClassExA`
  unfoldable pub hook_register_class_ex_a : WndClass → KernelState → Call × KernelState
  hook_register_class_ex_a c k =
      if not (same_text c.class_name main_class) then (stub_register_class_ex_a c, k) else (
        register_class_ex_w
            (record c { menu_name = wide c.menu_name; class_name = wide c.class_name }),
        if k.main_window == 0 && not (c.wnd_proc == 0)
            then record k { patches = patch_window_proc c.wnd_proc k.patches }
            else k,
      )

  -- `HookCreateWindowExA`; `created` is what `CreateWindowExW` gives.
  unfoldable pub hook_create_window_ex_a : ℕ → NewWindow → KernelState → Call × KernelState
  hook_create_window_ex_a created w k =
      if not (same_text w.class_name main_class) then (stub_create_window_ex_a w, k) else (
        create_window_ex_w
            (record w { class_name = wide w.class_name; window_name = wide w.window_name }),
        record k { main_window = created },
      )

-- `HookMainWindowProc`
unfoldable pub hook_main_window_proc : Message → KernelState → Call × KernelState
hook_main_window_proc m k = (stub_main_window_proc m, record k { main_window = m.hwnd })

-- `HookDefWindowProcA`
unfoldable pub hook_def_window_proc_a : Message → KernelState → Call
hook_def_window_proc_a m k =
    if m.hwnd == k.main_window && not (k.main_window == 0)
    then def_window_proc_w m
    else stub_def_window_proc_a m

-- `HookDispatchMessageA`
unfoldable pub hook_dispatch_message_a : Message → KernelState → Call
hook_dispatch_message_a m k =
    if m.hwnd == k.main_window && not (k.main_window == 0)
    then dispatch_message_w m
    else stub_dispatch_message_a m
