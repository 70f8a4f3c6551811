-- ===== src/Kernel/Windows/Routed.antt =====
-- The windows whose messages go to the functions of UTF-16 strings.
use fvploader.Prelude.{ℕ, ◌≡◌, ◌⊎◌, true, false, List}
use fvploader.Patch.Manager.{PatchState}
use fvploader.Kernel.Windows.{main_class, same_text}
use fvploader.Kernel.Windows.Desk.{is_registered, has_window, Desk}

module _ (ansi wide : List ℕ → List ℕ) (patch_window_proc : ℕ → PatchState → PatchState)
    (separate : (name : List ℕ)
      → same_text name main_class ≡ false
      → same_text (ansi name) (wide main_class) ≡ false) where
  -- The main class is registered with UTF-16 strings alone, and before a window of it is made.
  record IsRouted (d : Desk) : Type 0 where
    narrow : is_registered false (wide main_class) d.classes ≡ false
    made :
        (h : ℕ)
        → has_window h (wide main_class) d.windows ≡ true
        → is_registered true (wide main_class) d.classes ≡ true
    main :
        (d.kernel.main_window ≡ 0)
        ⊎ (has_window d.kernel.main_window (wide main_class) d.windows ≡ true)
