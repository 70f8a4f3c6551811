-- ===== src/Tests/Windows.antt =====
-- A game that registers its main class and makes its main window.
use fvploader.Prelude.{ℕ, List, [], ◌∷◌}
use fvploader.Patch.Manager.{PatchState}
use fvploader.Kernel.Windows.{
  main_class, WndClass, NewWindow, Message, hook_register_class_ex_a, hook_create_window_ex_a,
}
use fvploader.Kernel.Windows.Desk.{Desk, registered_by, register_call, class_of, create_call}

-- how both code pages read a text of ASCII
abbrev wide : List ℕ → List ℕ
wide text = text

abbrev patch : ℕ → PatchState → PatchState
patch address p = p

abbrev no_patches : PatchState
no_patches = record { memory = λ _. 0; slots = λ _. 0; trampoline_list = []; freed = [] }

abbrev main_wnd_class : WndClass
main_wnd_class = record {
  style = 0;
  wnd_proc = 0x401000;
  cls_extra = 0;
  wnd_extra = 0;
  instance_handle = 0;
  icon = 0;
  cursor = 0;
  background = 0;
  menu_name = [];
  class_name = main_class;
  icon_small = 0;
}

abbrev main_window : NewWindow
main_window = record { class_name = main_class; window_name = []; rest = [] }

abbrev some_message : Message
some_message = record { hwnd = 7; msg = 1; w_param = 0; l_param = 0 }

abbrev new_desk : Desk
new_desk = record {
  kernel = record { main_window = 0; patches = no_patches };
  classes = [];
  windows = [];
}

abbrev registered_desk : Desk
registered_desk = record new_desk {
  kernel = (hook_register_class_ex_a wide patch main_wnd_class new_desk.kernel).1;
  classes =
      registered_by wide wide patch (register_call wide wide patch main_wnd_class new_desk.kernel)
        [];
}

abbrev made_desk : Desk
made_desk = record registered_desk {
  windows =
      (7, class_of wide wide patch (create_call wide wide patch main_window registered_desk.kernel))
      ∷ [];
}

abbrev created_desk : Desk
created_desk = record made_desk {
  kernel = (hook_create_window_ex_a wide patch 7 main_window made_desk.kernel).1;
}
