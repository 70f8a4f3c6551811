-- ===== src/Gui/LogFile/Written.antt =====
-- What `WriteLogFile` stores where nothing stops its writes.
use fvploader.Prelude.{
  dword_bytes, ℕ, ◌*◌, ◌≡◌, refl, ◌∙◌, Bool, true, Option, some, List, [], ◌∷◌, ◌++◌, length, arith,
  Bool-cases, inl, inr,
}
use fvploader.Container.Hash.{bytes_of_units}
use fvploader.File.{NtIo, Disk, file_overwrite_if, new_disk, close, create, write}
use fvploader.File.Laws.{IsFileSystem, IsOpen, create-IsOpen, write-IsOpen, contents-close}
use fvploader.Gui.LogFile.{log_name, log_sig, flag_byte, write_flags, write_body, write_log_file}

-- the head of the file, up to the flags
abbrev pub head_bytes : List ℕ → List ℕ
head_bytes path = log_sig ++ dword_bytes (length path) ++ bytes_of_units path

-- the whole file
abbrev pub log_bytes : List ℕ → Bool → Bool → Bool → List ℕ
log_bytes path window message font =
    head_bytes path ++ flag_byte window ++ flag_byte message ++ flag_byte font

pub length-bytes_of_units : (us : List ℕ) → length (bytes_of_units us) ≡ length us * 2
unfolding bytes_of_units
length-bytes_of_units [] = refl
length-bytes_of_units (u ∷ us) = omega (arith, length-bytes_of_units us)

-- Nothing stops the writes: the file can be created, and no write through a handle that is open on it
-- fails.
pub record IsWritable (io : NtIo) (is_open : io.Sys → ℕ → Bool) : Type 0 where
  pub creates :
      (s : io.Sys)
      → (h : ℕ) × (s' : io.Sys) × (io.create_file log_name file_overwrite_if s ≡ (some h, s'))
  pub accepts :
      (s : io.Sys) (h offset : ℕ) (bytes : List ℕ)
      → is_open s h ≡ true
      → (n : ℕ) × (s' : io.Sys) × (io.write_file h bytes offset s ≡ (some n, s'))

module _ (io : NtIo) (contents : io.Sys → Option (List ℕ))
    (fs : IsFileSystem io log_name contents) where
  pub IsAt : List ℕ → ℕ → Disk io → Type 0
  IsAt = IsOpen io log_name contents fs

  module _ (w : IsWritable io fs.is_open) where
    pub write_accepted :
        (bytes old : List ℕ) (d : Disk io)
        → IsAt old (length old) d
        → (d' : Disk io) × (write io bytes d ≡ (true, d'))
          × IsAt (old ++ bytes) (length (old ++ bytes)) d'
    unfolding IsAt write
    write_accepted bytes old d o =
        let (h, eh, is_ours) = o.handle in
        let (n, s', done) = w.accepts d.sys h d.position bytes is_ours in
        let run : write io bytes d ≡ (true, (write io bytes d).1) = ground (arith, eh, done) in
        (
          (write io bytes d).1,
          run,
          write-IsOpen io log_name contents fs bytes old d (write io bytes d).1 o run,
        )

    create_accepted :
        (s : io.Sys)
        → (d : Disk io) × (create io log_name file_overwrite_if (new_disk io s) ≡ (true, d))
          × IsAt [] 0 d
    unfolding IsAt create close new_disk
    create_accepted s =
        let (h, s', made) = w.creates s in
        let start = new_disk io s in
        let run : create io log_name file_overwrite_if start
            ≡ (true, (create io log_name file_overwrite_if start).1) =
          ground (arith, made) in
        (
          (create io log_name file_overwrite_if start).1,
          run,
          create-IsOpen io log_name contents fs s _ run,
        )

    write_flags_lem :
        (window message font : Bool) (old : List ℕ) (d : Disk io)
        → IsAt old (length old) d
        → let all = ((old ++ flag_byte window) ++ flag_byte message) ++ flag_byte font in
          (d' : Disk io) × (write_flags io window message font d ≡ (true, d'))
          × IsAt all (length all) d'
    unfolding write_flags
    write_flags_lem window message font old d o =
        let (d1, r1, o1) = write_accepted (flag_byte window) old d o in
        let (d2, r2, o2) = write_accepted (flag_byte message) (old ++ flag_byte window) d1 o1 in
        let (d3, r3, o3) =
          write_accepted (flag_byte font) ((old ++ flag_byte window) ++ flag_byte message) d2 o2 in
        elim (Bool-cases message) [
          | inl y ↦ (d3, ground (arith, r1, r2, r3), o3)
          | inr y ↦ (d3, ground (arith, r1, r2, r3), o3)
        ]

    write_run :
        (path : List ℕ) (window message font : Bool) (s : io.Sys) (d0 d1 d2 d3 d4 : Disk io)
        → create io log_name file_overwrite_if (new_disk io s) ≡ (true, d0)
        → write io log_sig d0 ≡ (true, d1)
        → write io (dword_bytes (length path)) d1 ≡ (true, d2)
        → write io (bytes_of_units path) d2 ≡ (true, d3)
        → write_flags io window message font d3 ≡ (true, d4)
        → write_log_file io path window message font s ≡ (true, (close io d4).sys)
    unfolding write_log_file write_body
    write_run path window message font s d0 d1 d2 d3 d4 r0 r1 r2 r3 r4 = rw (r0, r1, r2, r3, r4)

    -- Where nothing stops the writes, and the file system is as IsFileSystem says,
    -- `WriteLogFile` succeeds, and the file is the signature, the length of the path, its
    -- code units and the three flags.
    pub write_log_file-contents :
        (path : List ℕ) (window message font : Bool) (s : io.Sys)
        → (s' : io.Sys) × (write_log_file io path window message font s ≡ (true, s'))
          × (contents s' ≡ some (log_bytes path window message font))
    write_log_file-contents path window message font s =
        let (d0, r0, o0) = create_accepted s in
        let (d1, r1, o1) = write_accepted log_sig [] d0 o0 in
        let (d2, r2, o2) = write_accepted (dword_bytes (length path)) log_sig d1 o1 in
        let (d3, r3, o3) =
          write_accepted (bytes_of_units path) (log_sig ++ dword_bytes (length path)) d2 o2 in
        let (d4, r4, o4) = write_flags_lem window message font _ d3 o3 in
        (
          (close io d4).sys,
          write_run path window message font s d0 d1 d2 d3 d4 r0 r1 r2 r3 r4,
          contents-close io log_name contents fs d4 ∙ unfold IsAt in o4.holds,
        )
