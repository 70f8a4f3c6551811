-- ===== src/Tests/Starts.antt =====
-- Starts of the loader on a system that holds one file and starts every process.
use fvploader.Prelude.{ℕ, true, some, List, [], ◌∷◌}
use fvploader.Gui.Startup.{Desktop}
use fvploader.Tests.Files.{no_file, memory}

abbrev desktop : Desktop memory
desktop = record {
  create_process = λ application flags s. (some (2, 3), s);
  inject_dll = λ process thread dll suspended s. s;
  resume_thread = λ thread s. s;
  file_attributes = λ name s. 0x20;
  message_box = λ message s. s;
  delete_file = λ name s. no_file;
  create_window = λ s. (true, s);
}

-- `C:\a`
abbrev game : List ℕ
game = b'C' ∷ b':' ∷ b'\\' ∷ b'a' ∷ []
