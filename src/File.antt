-- ===== src/File.antt =====
-- `NtFileDisk` of source/NativeLib/my.cpp: a file handle with the position and the size that the
-- class keeps itself. The calls of the operating system are the parameter `NtIo`.
pub mod Laws
use fvploader.Prelude.{
  ℕ, ◌+◌, ◌%◌, ◌^◌, Bool, true, false, ◌==◌, ltb, if◌then◌else◌, Option, none, some, List, length,
}

-- `FILE_OPEN`, and `FILE_OVERWRITE_IF` which creates or truncates
pub data Disposition : Type 0 where
  file_open file_overwrite_if : Disposition

-- `create_file` resolves the path and calls `NtCreateFile`, `query_size` asks for the end of file,
-- and the others are `NtReadFile`, `NtWriteFile` and `NtClose`. `none` is a failing status; a read
-- gives the bytes that it transferred, a write their number.
pub record NtIo : Type 1 where
  pub Sys : Type 0
  pub create_file : List ℕ → Disposition → Sys → Option ℕ × Sys
  pub query_size : ℕ → Sys → Option ℕ
  pub read_file : ℕ → ℕ → ℕ → Sys → Option (List ℕ) × Sys
  pub write_file : ℕ → List ℕ → ℕ → Sys → Option ℕ × Sys
  pub close_handle : ℕ → Sys → Sys

module _ (io : NtIo) where
  open io use {Sys, create_file, query_size, read_file, write_file, close_handle}

  -- the members `m_FileHandle`, `m_FileSize`, `m_Position`, and the system around them
  pub record Disk : Type 0 where
    pub sys : Sys
    pub handle : Option ℕ
    pub file_size : ℕ
    pub position : ℕ

  -- the constructor
  unfoldable pub new_disk : Sys → Disk
  new_disk s = record { sys = s; handle = none; file_size = 0; position = 0 }

  -- `Close`; `NtClose` of a valid handle does not fail.
  unfoldable pub close : Disk → Disk
  close d = elim d.handle [
    | none ↦ d
    | some h ↦ record {
      sys = close_handle h d.sys;
      handle = none;
      file_size = d.file_size;
      position = d.position;
    }
  ]

  -- the size that `Create` starts with
  abbrev pub initial_size : Disposition → ℕ → Sys → Option ℕ
  initial_size how h s = elim how [ file_open ↦ query_size h s | file_overwrite_if ↦ some 0 ]

  -- `Create`
  unfoldable pub create : List ℕ → Disposition → Disk → Bool × Disk
  unfolding close
  create name how d =
      let d = close d in
      let r = create_file name how d.sys in
      elim r.0 [
        | none ↦ (false, record d { sys = r.1 })
        | some h ↦ elim (initial_size how h r.1) [
          | none ↦ (
            false,
            close (record {
              sys = r.1;
              handle = some h;
              file_size = d.file_size;
              position = d.position;
            }),
          )
          | some n ↦ (true, record { sys = r.1; handle = some h; file_size = n; position = 0 })
        ]
      ]

  -- `Open`, with its default arguments
  unfoldable pub open_file : List ℕ → Disk → Bool × Disk
  unfolding create
  open_file name d = create name file_open d

  -- `Read`: a size of 0 stands for the low word of the file's size. A null handle fails.
  unfoldable pub read : ℕ → Disk → Option (List ℕ) × Disk
  read size d = elim d.handle [
    | none ↦ (none, d)
    | some h ↦
        let r = read_file h (if size == 0 then d.file_size % 2 ^ 32 else size) d.position d.sys in
        elim r.0 [
          | none ↦ (none, record d { sys = r.1 })
          | some bytes ↦ (some bytes, record d { sys = r.1; position = d.position + length bytes })
        ]
  ]

  -- `Write`
  unfoldable pub write : List ℕ → Disk → Bool × Disk
  write bytes d = elim d.handle [
    | none ↦ (false, d)
    | some h ↦
        let r = write_file h bytes d.position d.sys in
        elim r.0 [
          | none ↦ (false, record d { sys = r.1 })
          | some n ↦ (
            true,
            record d {
              sys = r.1;
              file_size = if ltb d.file_size (n + d.position) then n + d.position else d.file_size;
              position = d.position + n;
            },
          )
        ]
  ]

  -- `Seek` from `FILE_BEGIN`
  unfoldable pub seek_begin : ℕ → Disk → Disk
  seek_begin offset d = record d {
    file_size = if ltb d.file_size offset then offset else d.file_size;
    position = offset;
  }
