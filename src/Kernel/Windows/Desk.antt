-- ===== src/Kernel/Windows/Desk.antt =====
-- The classes and the windows of the system, and the steps of a game and the system on them.
use fvploader.Prelude.{ℕ, ◌≡◌, ◌⊎◌, Bool, true, false, ◌==◌, ◌||◌, ◌&&◌, List, [], ◌∷◌, arith}
use fvploader.Patch.Manager.{PatchState}
use fvploader.Kernel.Windows.{
  main_class, same_text, WndClass, NewWindow, Message, Call, stub_register_class_ex_a,
  register_class_ex_w, stub_create_window_ex_a, create_window_ex_w, KernelState,
  hook_register_class_ex_a, hook_create_window_ex_a, hook_main_window_proc,
}

-- whether a class is registered under a name: with the function of UTF-16 strings, or with the other
abbrev pub is_registered : Bool → List ℕ → List (List ℕ × Bool) → Bool
is_registered with_wide name [] = false
is_registered true name ((c, w) ∷ cs) = same_text c name && w || is_registered true name cs
is_registered false name ((c, true) ∷ cs) = is_registered false name cs
is_registered false name ((c, false) ∷ cs) = same_text c name || is_registered false name cs

-- whether there is a window of a class
abbrev pub has_window : ℕ → List ℕ → List (ℕ × List ℕ) → Bool
has_window h name [] = false
has_window h name ((g, c) ∷ ws) = h == g && same_text c name || has_window h name ws

-- The kernel's state with the classes and the windows of the system. A class has its name in UTF-16 and
-- whether `RegisterClassExW` registered it, a window its handle and the name of its class.
pub record Desk : Type 0 where
  pub kernel : KernelState
  pub classes : List (List ℕ × Bool)
  pub windows : List (ℕ × List ℕ)

-- `ansi` is how the system reads the name in a call of a function of code page strings.
module _ (ansi wide : List ℕ → List ℕ) (patch_window_proc : ℕ → PatchState → PatchState) where
  -- what a call that succeeds registers
  abbrev pub registered_by : Call → List (List ℕ × Bool) → List (List ℕ × Bool)
  registered_by (stub_register_class_ex_a c) cs = (ansi c.class_name, false) ∷ cs
  registered_by (register_class_ex_w c) cs = (c.class_name, true) ∷ cs
  registered_by _ cs = cs

  -- the class of the window that a call makes
  abbrev pub class_of : Call → List ℕ
  class_of (stub_create_window_ex_a w) = ansi w.class_name
  class_of (create_window_ex_w w) = w.class_name
  class_of _ = []

  -- the calls that the hooks make of the system
  abbrev pub register_call : WndClass → KernelState → Call
  register_call c k = (hook_register_class_ex_a wide patch_window_proc c k).0

  abbrev pub create_call : NewWindow → KernelState → Call
  create_call w k = (hook_create_window_ex_a wide patch_window_proc 0 w k).0

  -- The calls of the game that reach the hooks, and the system's calls of the window procedure. A
  -- registration may fail. A window is made of a registered class, before the call that makes it
  -- returns, so that messages for it can come first. The patched window procedure is that of the main class.
  pub data DeskStep : Desk → Desk → Type 0 where
    registers :
        (c : WndClass) (d : Desk)
        → DeskStep d (record d {
          kernel = (hook_register_class_ex_a wide patch_window_proc c d.kernel).1;
          classes = registered_by (register_call c d.kernel) d.classes;
        })
    registers_not :
        (c : WndClass) (d : Desk)
        → DeskStep d
            (record d { kernel = (hook_register_class_ex_a wide patch_window_proc c d.kernel).1 })
    makes :
        (h : ℕ) (w : NewWindow) (d : Desk)
        → (is_registered true (class_of (create_call w d.kernel)) d.classes ≡ true)
          ⊎ (is_registered false (class_of (create_call w d.kernel)) d.classes ≡ true)
        → DeskStep d (record d { windows = (h, class_of (create_call w d.kernel)) ∷ d.windows })
    receives :
        (m : Message) (d : Desk)
        → has_window m.hwnd (wide main_class) d.windows ≡ true
        → DeskStep d (record d { kernel = (hook_main_window_proc m d.kernel).1 })
    creates :
        (h : ℕ) (w : NewWindow) (d : Desk)
        → (h ≡ 0) ⊎ (has_window h (class_of (create_call w d.kernel)) d.windows ≡ true)
        → DeskStep d
            (record d { kernel = (hook_create_window_ex_a wide patch_window_proc h w d.kernel).1 })

  -- What the steps lead to from the state of a new process.
  pub data Reachable : Desk → Type 0 where
    starts :
        (p : PatchState)
        → Reachable (record {
          kernel = record { main_window = 0; patches = p };
          classes = [];
          windows = [];
        })
    steps : (d e : Desk) → Reachable d → DeskStep d e → Reachable e

  -- The hooks on classes, by the name.
  pub register_main :
      (c : WndClass) (k : KernelState)
      → same_text c.class_name main_class ≡ true
      → (cs : List (List ℕ × Bool))
      → registered_by (register_call c k) cs ≡ (wide c.class_name, true) ∷ cs
  unfolding hook_register_class_ex_a
  register_main c k e cs = ground (arith, e)

  pub register_other :
      (c : WndClass) (k : KernelState)
      → same_text c.class_name main_class ≡ false
      → (cs : List (List ℕ × Bool))
      → registered_by (register_call c k) cs ≡ (ansi c.class_name, false) ∷ cs
  unfolding hook_register_class_ex_a
  register_other c k e cs = ground (arith, e)

  pub register_kept :
      (c : WndClass) (k : KernelState)
      → (hook_register_class_ex_a wide patch_window_proc c k).1.main_window ≡ k.main_window
  unfolding hook_register_class_ex_a
  register_kept c k = ground arith

  pub create_main :
      (h : ℕ) (w : NewWindow) (k : KernelState)
      → same_text w.class_name main_class ≡ true
      → (class_of (create_call w k) ≡ wide w.class_name)
        × ((hook_create_window_ex_a wide patch_window_proc h w k).1.main_window ≡ h)
  unfolding hook_create_window_ex_a
  create_main h w k e = (ground (arith, e), ground (arith, e))

  pub create_other :
      (h : ℕ) (w : NewWindow) (k : KernelState)
      → same_text w.class_name main_class ≡ false
      → (hook_create_window_ex_a wide patch_window_proc h w k).1.main_window ≡ k.main_window
  unfolding hook_create_window_ex_a
  create_other h w k e = ground (arith, e)
