-- ===== src/File/Laws.antt =====
-- What the loader relies on of the file system, and the methods of `NtFileDisk` under it.
use fvploader.Prelude.{
  ℕ, ◌+◌, ◌≤◌, ◌<◌, ◌≡◌, ◌≢◌, refl, inl, inr, Bool, true, Option-cases, Option, some, List, [],
  ◌++◌, length, take, drop, arith, length-append, length-take, length-drop,
}
use fvploader.File.{
  NtIo, file_open, file_overwrite_if, Disk, new_disk, close, create, open_file, read, write,
  seek_begin,
}

-- `contents s` is the file of the name, and `is_open s h` whether the handle `h` is open on it. The
-- fields state the documented behaviour of the calls on this file and on such handles.
pub record IsFileSystem (io : NtIo) (name : List ℕ) (contents : io.Sys → Option (List ℕ))
    : Type 0 where
  pub is_open : io.Sys → ℕ → Bool
  -- An existing file can be opened, and this changes no byte.
  pub opens :
      (s : io.Sys) (bytes : List ℕ)
      → contents s ≡ some bytes
      → (h : ℕ) × (s' : io.Sys) × (io.create_file name file_open s ≡ (some h, s'))
        × (contents s' ≡ some bytes)
        × (is_open s' h ≡ true)
  pub sizes :
      (s : io.Sys) (h : ℕ) (bytes : List ℕ)
      → is_open s h ≡ true
      → contents s ≡ some bytes
      → io.query_size h s ≡ some (length bytes)
  -- A created or overwritten file is empty.
  pub truncates :
      (s s' : io.Sys) (h : ℕ)
      → io.create_file name file_overwrite_if s ≡ (some h, s')
      → (contents s' ≡ some []) × (is_open s' h ≡ true)
  -- A read inside the file gives the bytes up to its end.
  pub reads :
      (s : io.Sys) (h size offset : ℕ) (bytes : List ℕ)
      → is_open s h ≡ true
      → contents s ≡ some bytes
      → offset < length bytes
      → io.read_file h size offset s ≡ (some (take size (drop offset bytes)), s)
  -- A write at the end that succeeds appends all bytes.
  pub writes :
      (s s' : io.Sys) (h n : ℕ) (old bytes : List ℕ)
      → is_open s h ≡ true
      → contents s ≡ some old
      → io.write_file h bytes (length old) s ≡ (some n, s')
      → (n ≡ length bytes) × (contents s' ≡ some (old ++ bytes)) × (is_open s' h ≡ true)
  pub closes : (s : io.Sys) (h : ℕ) → contents (io.close_handle h s) ≡ contents s

module _ (io : NtIo) (name : List ℕ) (contents : io.Sys → Option (List ℕ))
    (fs : IsFileSystem io name contents) where
  -- The disk is open on the file, which holds `bytes`, at `position`.
  pub record IsOpen (bytes : List ℕ) (position : ℕ) (d : Disk io) : Type 0 where
    pub handle : (h : ℕ) × (d.handle ≡ some h) × (fs.is_open d.sys h ≡ true)
    pub holds : contents d.sys ≡ some bytes
    pub size : d.file_size ≡ length bytes
    pub at : d.position ≡ position

  pub open_file-IsOpen :
      (s : io.Sys) (bytes : List ℕ)
      → contents s ≡ some bytes
      → (d : Disk io) × (open_file io name (new_disk io s) ≡ (true, d)) × IsOpen bytes 0 d
  unfolding open_file create close new_disk
  open_file-IsOpen s bytes h =
      let (f, s', made, kept, is_ours) = fs.opens s bytes h in
      (
        record { sys = s'; handle = some f; file_size = length bytes; position = 0 },
        ground (arith, made, kept, fs.sizes s' f bytes is_ours kept),
        record { handle = (f, refl, is_ours); holds = kept; size = refl; at = refl },
      )

  pub create-IsOpen :
      (s : io.Sys) (d : Disk io)
      → create io name file_overwrite_if (new_disk io s) ≡ (true, d)
      → IsOpen [] 0 d
  unfolding create close new_disk
  create-IsOpen s d h =
      let r = io.create_file name file_overwrite_if s in
      elim (Option-cases r.0) [
        | inl e ↦ absurd (ground arith)
        | inr (f, e) ↦
            let (empty, is_ours) = fs.truncates s r.1 f (λ i. (e i, r.1)) in
            record {
              handle = (f, ground arith, ground arith);
              holds = ground arith;
              size = ground arith;
              at = ground arith;
            }
      ]

  pub read-IsOpen :
      (size : ℕ) (bytes : List ℕ) (position : ℕ) (d : Disk io)
      → IsOpen bytes position d
      → size ≢ 0
      → position + size ≤ length bytes
      → (d' : Disk io) × (read io size d ≡ (some (take size (drop position bytes)), d'))
        × IsOpen bytes (position + size) d'
  unfolding read
  read-IsOpen size bytes position d o nz fits =
      let (h, eh, is_ours) = o.handle in
      let got = fs.reads d.sys h size d.position bytes is_ours o.holds (omega (arith, o.at)) in
      (
        record d { position = d.position + length (take size (drop d.position bytes)) },
        ground (arith, got, o.at),
        record {
          handle = o.handle;
          holds = o.holds;
          size = o.size;
          at =
              omega (
                arith,
                o.at,
                length-take size (drop d.position bytes),
                length-drop d.position bytes,
              );
        },
      )

  pub write-IsOpen :
      (bytes old : List ℕ) (d d' : Disk io)
      → IsOpen old (length old) d
      → write io bytes d ≡ (true, d')
      → IsOpen (old ++ bytes) (length (old ++ bytes)) d'
  unfolding write
  write-IsOpen bytes old d d' o w =
      let (h, eh, is_ours) = o.handle in
      let r = io.write_file h bytes d.position d.sys in
      elim (Option-cases r.0) [
        | inl e ↦ absurd (ground arith)
        | inr (n, e) ↦
            let (count, kept, still) =
              fs.writes d.sys r.1 h n old bytes is_ours o.holds (rw (← o.at) (λ i. (e i, r.1))) in
            record {
              handle = (h, ground arith, ground arith);
              holds = ground arith;
              size = ground (arith, length-append old bytes, o.size, o.at);
              at = ground (arith, length-append old bytes, o.at);
            }
      ]

  pub seek_begin-IsOpen :
      (bytes : List ℕ) (position offset : ℕ) (d : Disk io)
      → IsOpen bytes position d
      → offset ≤ length bytes
      → IsOpen bytes offset (seek_begin io offset d)
  unfolding seek_begin
  seek_begin-IsOpen bytes position offset d o fits = record {
    handle = o.handle;
    holds = o.holds;
    size = ground (arith, o.size);
    at = refl;
  }

  pub contents-close : (d : Disk io) → contents (close io d).sys ≡ contents d.sys
  unfolding close
  contents-close d = elim (Option-cases d.handle) [
    | inl e ↦ ground arith
    | inr (h, e) ↦ ground (arith, fs.closes d.sys h)
  ]
