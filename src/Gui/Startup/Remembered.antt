-- ===== src/Gui/Startup/Remembered.antt =====
-- The game that was chosen is started again.
use fvploader.Prelude.{ℕ, ◌^◌, ◌<◌, ◌≡◌, Bool, Option, some, List, [], ◌∷◌}
use fvploader.File.{NtIo}
use fvploader.File.Laws.{IsFileSystem}
use fvploader.Gui.LogFile.{log_name}
use fvploader.Gui.Startup.{Desktop}

-- The units of a text: none is a terminator.
abbrev pub IsText : List ℕ → Type 0
IsText [] = Unit
IsText (u ∷ us) = (0 < u) × (u < 2 ^ 16) × IsText us

module _ (io : NtIo) (desk : Desktop io) (contents : io.Sys → Option (List ℕ))
    (fs : IsFileSystem io log_name contents) where
  -- The game can be started, and a start leaves FVPLOG.ini as it is.
  pub record IsStartable (path : List ℕ) : Type 0 where
    pub starts :
        (flags : ℕ) (s : io.Sys)
        → (process : ℕ) × (thread : ℕ) × (s' : io.Sys) × (desk.create_process path flags s
            ≡ (some (process, thread), s'))
          × (contents s' ≡ contents s)
    pub injected :
        (process thread : ℕ) (dll : List ℕ) (suspended : Bool) (s : io.Sys)
        → contents (desk.inject_dll process thread dll suspended s) ≡ contents s
    pub resumed : (thread : ℕ) (s : io.Sys) → contents (desk.resume_thread thread s) ≡ contents s
