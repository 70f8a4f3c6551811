-- ===== src/Gui/LogFile.antt =====
-- `ReadLogFile` and `WriteLogFile` of source/FVPLoaderGui/FVPLoaderGui.cpp: the file FVPLOG.ini.
pub mod Written
pub mod ReadBack
use fvploader.Prelude.{
  ℕ, zero, suc, ◌+◌, ◌*◌, ◌/◌, ◌%◌, ◌^◌, Bool, true, false, not, ◌==◌, ◌&&◌, ◌||◌, ltb,
  if◌then◌else◌, Option, none, some, List, [], ◌∷◌, ◌++◌, length, overlay, replicate, of_bytes,
  dword_bytes,
}
use fvploader.Container.Hash.{bytes_of_units}
use fvploader.File.{
  NtIo, Disk, file_overwrite_if, new_disk, close, create, open_file, read, write, seek_begin,
}

-- `L"FVPLOG.ini"`
abbrev pub log_name : List ℕ
log_name = b'F' ∷ b'V' ∷ b'P' ∷ b'L' ∷ b'O' ∷ b'G' ∷ b'.' ∷ b'i' ∷ b'n' ∷ b'i' ∷ []

-- `LOG_SIG`
abbrev pub log_sig : List ℕ
log_sig =
    b'S' ∷ b'T' ∷ b'm' ∷ b'o' ∷ b'e' ∷ b'S' ∷ b'T' ∷ b'm' ∷ b'o' ∷ b'e' ∷ b'c' ∷ b'h' ∷ b'u' ∷ b'>'
    ∷ b'_' ∷ b'<' ∷ []

abbrev pub max_path : ℕ
max_path = 260

-- `RtlCompareMemory(a, b, n) == n`, for buffers of `n` bytes
unfoldable pub same_bytes : List ℕ → List ℕ → Bool
same_bytes [] [] = true
same_bytes (a ∷ as') (b ∷ bs) = a == b && same_bytes as' bs
same_bytes _ _ = false

-- The output parameters, as bytes; `ExePath` is a buffer of `2 * ccBuffer` bytes.
pub record Outputs : Type 0 where
  pub exe_path : List ℕ
  pub window : List ℕ
  pub message_box : List ℕ
  pub font : List ℕ

-- The locals `Mark` and `Length` before they are read into.
pub record Locals : Type 0 where
  pub mark : List ℕ
  pub length_bytes : List ℕ

-- `Enable` or `Disable`
abbrev pub flag_byte : Bool → List ℕ
flag_byte b = (if b then 1 else 0) ∷ []

module _ (io : NtIo) where
  -- how `LOOP_ONCE` is left: `NT_SUCCESS(Status)`, the outputs so far and the disk
  abbrev pub Left : Type 0
  Left = Bool × Outputs × Disk io

  -- `Status = File.Read(...); if (NT_FAILED(Status)) break;`
  abbrev pub reading : ℕ → Disk io → Outputs → (List ℕ → Disk io → Left) → Left
  reading size d out rest = elim (read io size d).0 [
    | none ↦ (false, out, (read io size d).1)
    | some got ↦ rest got (read io size d).1
  ]

  -- The three flags at the end of the file.
  unfoldable pub read_flags : Outputs → Disk io → Left
  read_flags out d = reading 1 d out λ w d1.
      let out1 : Outputs = record out { window = overlay w out.window } in
      reading 1 d1 out1 λ m d2.
        let out2 : Outputs = record out1 { message_box = overlay m out.message_box } in
        reading 1 d2 out2 λ f d3. (true, record out2 { font = overlay f out.font }, d3)

  -- The path, from `RtlZeroMemory(ExePath, ...)` on.
  unfoldable pub read_path : ℕ → Locals → Outputs → Disk io → Left
  unfolding of_bytes read_flags
  read_path cc_buffer locals out d =
      let zeroed : Outputs = record out { exe_path = replicate (cc_buffer * 2) 0 } in
      reading 4 d zeroed λ l d1.
        let n = of_bytes (overlay l locals.length_bytes) in
        if ltb max_path n || ltb cc_buffer n
        then (false, zeroed, d1)
        else reading (n * 2) d1 zeroed λ path d2.
          read_flags (record zeroed { exe_path = overlay path zeroed.exe_path })
            (seek_begin io (20 + n * 2) d2)

  -- The body of `LOOP_ONCE`. A wrong signature leaves it while the status is that of the read.
  unfoldable pub read_body : ℕ → Locals → Outputs → Disk io → Left
  unfolding same_bytes read_path
  read_body cc_buffer locals out d =
      let (opened, d1) = open_file io log_name d in
      if not opened
      then (false, out, d1)
      else (reading 16 d1 out λ got d2.
          if not (same_bytes (overlay got locals.mark) log_sig)
          then (true, out, d2)
          else read_path cc_buffer locals out d2)

  -- `ReadLogFile`
  unfoldable pub read_log_file : ℕ → Locals → Outputs → io.Sys → Bool × Outputs × io.Sys
  unfolding read_body
  read_log_file cc_buffer locals out s =
      let (ok, out', d) = read_body cc_buffer locals out (new_disk io s) in
      (ok, out', (close io d).sys)

  -- `Status = File.Write(...); if (NT_FAILED(Status)) break;`
  abbrev pub writing : List ℕ → Disk io → (Disk io → Bool × Disk io) → Bool × Disk io
  writing bytes d rest =
      if (write io bytes d).0 then rest (write io bytes d).1 else (false, (write io bytes d).1)

  -- The three flags. The status of the write of a cleared `bMessage` is not kept.
  unfoldable pub write_flags : Bool → Bool → Bool → Disk io → Bool × Disk io
  write_flags window message font d = writing (flag_byte window) d λ d1.
      if message
      then (writing (flag_byte true) d1 λ d2. writing (flag_byte font) d2 λ d3. (true, d3))
      else writing (flag_byte font) (write io (flag_byte false) d1).1 λ d3. (true, d3)

  -- The body of `LOOP_ONCE`; `path` is the text before the terminator.
  unfoldable pub write_body : List ℕ → Bool → Bool → Bool → Disk io → Bool × Disk io
  unfolding dword_bytes write_flags
  write_body path window message font d =
      let (created, d1) = create io log_name file_overwrite_if d in
      if not created
      then (false, d1)
      else (writing log_sig d1 λ d2.
          writing (dword_bytes (length path)) d2
            λ d3. writing (bytes_of_units path) d3 λ d4. write_flags window message font d4)

  -- `WriteLogFile`
  unfoldable pub write_log_file : List ℕ → Bool → Bool → Bool → io.Sys → Bool × io.Sys
  unfolding write_body
  write_log_file path window message font s =
      let (ok, d) = write_body path window message font (new_disk io s) in (ok, (close io d).sys)
