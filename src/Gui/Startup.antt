-- ===== src/Gui/Startup.antt =====
-- `wWinMain`, `VMeCreateProcess` and the dropped files of `WndProc`, of
-- source/FVPLoaderGui/FVPLoaderGui.cpp. The system's calls on processes and windows are a parameter,
-- on the same state as those on files; calls that only draw are left out.
pub mod Remembered
use fvploader.Prelude.{
  ℕ, zero, suc, ◌+◌, ◌-◌, ◌*◌, ◌/◌, ◌%◌, ◌^◌, Bool, true, false, not, ◌==◌, ◌&&◌, if◌then◌else◌,
  Option, none, some, List, [], ◌∷◌, length, take,
}
use fvploader.File.{NtIo}
use fvploader.Gui.LogFile.{log_name, max_path, Outputs, Locals, read_log_file, write_log_file}

-- `create_process` is `CreateProcessInternalW` of an application with creation flags, and gives the
-- handles of the process and its thread; `inject_dll` is `InjectDllToRemoteProcess`.
pub record Desktop (io : NtIo) : Type 0 where
  pub create_process : List ℕ → ℕ → io.Sys → Option (ℕ × ℕ) × io.Sys
  pub inject_dll : ℕ → ℕ → List ℕ → Bool → io.Sys → io.Sys
  pub resume_thread : ℕ → io.Sys → io.Sys
  pub file_attributes : List ℕ → io.Sys → ℕ
  pub message_box : List ℕ → io.Sys → io.Sys
  pub delete_file : List ℕ → io.Sys → io.Sys
  pub create_window : io.Sys → Bool × io.Sys

-- `FVPKernel.dll`
abbrev pub kernel_dll : List ℕ
kernel_dll =
    b'F' ∷ b'V' ∷ b'P' ∷ b'K' ∷ b'e' ∷ b'r' ∷ b'n' ∷ b'e' ∷ b'l' ∷ b'.' ∷ b'd' ∷ b'l' ∷ b'l' ∷ []

-- The texts of the message boxes, by their first words.
abbrev pub failed_text : List ℕ
failed_text = b'F' ∷ b'a' ∷ b'i' ∷ b'l' ∷ b'e' ∷ b'd' ∷ []

abbrev pub please_text : List ℕ
please_text = b'P' ∷ b'l' ∷ b'e' ∷ b'a' ∷ b's' ∷ b'e' ∷ []

-- The text in a buffer of bytes, up to its terminator; `none` is a buffer without one.
unfoldable pub c_string : List ℕ → Option (List ℕ)
c_string (low ∷ high ∷ rest) =
    if low + 256 * high == 0
    then some []
    else elim (c_string rest) [ none ↦ none | some us ↦ some ((low + 256 * high) ∷ us) ]
c_string _ = none

-- how a run of `wWinMain` goes on after the start: `Ps::ExitProcess`, or the loop over messages
pub data Ending : Type 0 where
  exits : ℕ → Ending
  message_loop : Ending

module _ (io : NtIo) (desk : Desktop io) where
  -- `VMeCreateProcess`; 4 is CREATE_SUSPENDED.
  unfoldable pub vme_create_process : List ℕ → List ℕ → ℕ → io.Sys → Bool × io.Sys
  vme_create_process application dll_path creation_flags s =
      let is_suspended = creation_flags / 4 % 2 == 1 in
      let flags = (if is_suspended then creation_flags else creation_flags + 4) in
      let (handles, s1) = desk.create_process application flags s in
      elim handles [
        | none ↦ (false, s1)
        | some (process, thread) ↦ (
          true,
          desk.resume_thread thread (desk.inject_dll process thread dll_path is_suspended s1),
        )
      ]

  -- `CheckDll`; 0x10 is FILE_ATTRIBUTE_DIRECTORY.
  unfoldable pub check_dll : io.Sys → Bool
  check_dll s =
      let attribute = desk.file_attributes kernel_dll s in
      not (attribute == 0xFFFFFFFF) && not (attribute / 0x10 % 2 == 1)

  -- `CreateProcessInternalWithDll`
  unfoldable pub create_process_internal_with_dll : List ℕ → io.Sys → Bool × io.Sys
  create_process_internal_with_dll process_name s = vme_create_process process_name kernel_dll 0 s

  -- `wWinMain` from `MyRegisterClass` on
  unfoldable pub open_window : io.Sys → Ending × io.Sys
  open_window s =
      let (shown, s1) = desk.create_window s in (if shown then message_loop else exits 0, s1)

  -- `if (HasParameter)` and what follows
  unfoldable pub start_parameter : List (List ℕ) → io.Sys → Ending × io.Sys
  start_parameter (program ∷ name ∷ []) s =
      let (started, s1) = create_process_internal_with_dll name s in
      if started
      then (exits 0, (write_log_file io name false false false s1).1)
      else open_window (desk.message_box failed_text s1)
  start_parameter argv s = open_window s

  -- `wWinMain`, of the arguments and of what stands in its uninitialised variables; `none` is a path
  -- that is read behind its buffer.
  unfoldable pub w_win_main : Locals → Outputs → List (List ℕ) → io.Sys → Option (Ending × io.Sys)
  w_win_main locals out argv s =
      let (success, out1, s1) = read_log_file io max_path locals out s in
      if success
      then elim (c_string out1.exe_path) [
        | none ↦ none
        | some name ↦
            let (started, s2) = create_process_internal_with_dll name s1 in
            some (
              if started
              then (exits 0, s2)
              else start_parameter argv (desk.message_box failed_text s2))
      ]
      else some (start_parameter argv s1)

  -- `WM_DROPFILES`, with the three switches of `FVPLoader`, and whether the window is left;
  -- `DragQueryFileW` gives what fits in the buffer.
  unfoldable pub drop_files : Bool → Bool → Bool → List (List ℕ) → io.Sys → Bool × io.Sys
  drop_files window message font (file ∷ []) s =
      let path = take (max_path - 1) file in
      let s1 = (write_log_file io path window message font s).1 in
      let (started, s2) = create_process_internal_with_dll path s1 in
      if started then (true, s2) else (false, desk.delete_file log_name s2)
  drop_files window message font files s = (false, desk.message_box please_text s)
