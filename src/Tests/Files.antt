-- ===== src/Tests/Files.antt =====
-- FVPLOG.ini on a system that holds one file.
use fvploader.Prelude.{
  ℕ, ◌+◌, ◌≡◌, refl, sym, ap, ap₂, ◌∙◌, ◌==◌, ◌&&◌, not, if◌then◌else◌, Bool, true, false, Option,
  some, none, List, [], ◌∷◌, ◌++◌, length, take, drop, replicate, arith, take-length, drop-length,
}
use mathlib.Core.List.{append-nil}
use fvploader.File.{NtIo, Disposition, file_open, file_overwrite_if}
use fvploader.File.Laws.{IsFileSystem}
use fvploader.Gui.LogFile.{
  log_name, log_sig, same_bytes, Outputs, Locals, read_log_file, write_log_file,
}
use fvploader.Gui.LogFile.Written.{IsWritable}
use fvploader.Gui.LogFile.ReadBack.{
  outputs_of, Fits, read_log_file-write_log_file, read_log_file-wrong_signature,
}

-- the file, once there is one, and the handle that is open on it, or 0
pub record Memory : Type 0 where
  pub file : Option (List ℕ)
  pub open_handle : ℕ

abbrev pub no_file : Memory
no_file = record { file = none; open_handle = 0 }

abbrev handle_is_open : Memory → ℕ → Bool
handle_is_open s h = h == s.open_handle && not (h == 0)

abbrev memory_create : List ℕ → Disposition → Memory → Option ℕ × Memory
memory_create name how s = elim how [
  | file_open ↦ elim s.file [
    | none ↦ (none, s)
    | some bytes ↦ (some 4, record { file = some bytes; open_handle = 4 })
  ]
  | file_overwrite_if ↦ (some 4, record { file = some []; open_handle = 4 })
]

abbrev memory_size : ℕ → Memory → Option ℕ
memory_size h s =
    if handle_is_open s h
    then elim s.file [ none ↦ none | some bytes ↦ some (length bytes) ]
    else none

abbrev memory_read : ℕ → ℕ → ℕ → Memory → Option (List ℕ) × Memory
memory_read h size offset s =
    if handle_is_open s h
    then elim s.file [ none ↦ (none, s) | some bytes ↦ (some (take size (drop offset bytes)), s) ]
    else (none, s)

-- the file with bytes written into it
abbrev written : Option (List ℕ) → List ℕ → ℕ → List ℕ
written none bytes offset = bytes
written (some old) bytes offset = take offset old ++ bytes ++ drop (offset + length bytes) old

abbrev memory_write : ℕ → List ℕ → ℕ → Memory → Option ℕ × Memory
memory_write h bytes offset s =
    if handle_is_open s h
    then (some (length bytes), record s { file = some (written s.file bytes offset) })
    else (none, s)

abbrev memory_close : ℕ → Memory → Memory
memory_close h s = if handle_is_open s h then record s { open_handle = 0 } else s

abbrev pub memory : NtIo
memory = record {
  Sys = Memory;
  create_file = memory_create;
  query_size = memory_size;
  read_file = memory_read;
  write_file = memory_write;
  close_handle = memory_close;
}

abbrev pub contents : Memory → Option (List ℕ)
contents s = s.file

appended : (old bytes : List ℕ) → written (some old) bytes (length old) ≡ old ++ bytes
appended old bytes =
    ap₂ (λ x y. x ++ bytes ++ y) (take-length old (length old) (omega arith))
      (drop-length old (length old + length bytes) (omega arith))
    ∙ append-nil (old ++ bytes)

pub memory-IsFileSystem : IsFileSystem memory log_name contents
memory-IsFileSystem = record {
  is_open = handle_is_open;
  opens = λ s bytes e.
      (4, record { file = some bytes; open_handle = 4 }, ground (arith, e), refl, refl);
  sizes = λ s h bytes o e. ground (arith, o, e);
  truncates = λ s s' h e. (sym (ap (λ r. r.1.file) e), ground (arith, e));
  reads = λ s h size offset bytes o e lt. ground (arith, o, e);
  writes = λ s s' h n old bytes o e run.
      let file : written s.file bytes (length old) ≡ old ++ bytes =
        ap (λ f. written f bytes (length old)) e ∙ appended old bytes in
      (ground (arith, o, run), ground (arith, o, run, file), ground (arith, o, run));
  closes = λ s h. ground arith;
}

pub memory-IsWritable : IsWritable memory memory-IsFileSystem.is_open
unfolding memory-IsFileSystem
memory-IsWritable = record {
  creates = λ s. (4, record { file = some []; open_handle = 4 }, refl);
  accepts = λ s h offset bytes o.
      (length bytes, record s { file = some (written s.file bytes offset) }, ground (arith, o));
}

abbrev pub some_locals : Locals
some_locals = record { mark = replicate 16 0xCC; length_bytes = replicate 4 0xCC }

abbrev pub some_outputs : Outputs
some_outputs = record {
  exe_path = replicate 520 0xCC;
  window = 0xCC ∷ [];
  message_box = 0xCC ∷ [];
  font = 0xCC ∷ [];
}

pub some_outputs-Fits : Fits some_locals some_outputs
some_outputs-Fits = record {
  mark = refl;
  length_bytes = refl;
  window = refl;
  message_box = refl;
  font = refl;
}

-- `C:\a`
abbrev some_path : List ℕ
some_path = b'C' ∷ b':' ∷ b'\\' ∷ b'a' ∷ []

read_log_file-write_log_file_example :
    (s1 : Memory) × (s2 : Memory) × (write_log_file memory some_path true false true no_file
      ≡ (true, s1))
    × (read_log_file memory 260 some_locals some_outputs s1
        ≡ (true, outputs_of 260 some_path true false true, s2))
read_log_file-write_log_file_example =
    read_log_file-write_log_file memory contents memory-IsFileSystem memory-IsWritable 260
      some_locals some_outputs some_path true false true no_file some_outputs-Fits (omega arith)
      (omega arith) (omega arith)

zeros_differ : same_bytes (replicate 16 0) log_sig ≡ false
unfolding same_bytes
zeros_differ = refl

abbrev zeros_file : Memory
zeros_file = record { file = some (replicate 16 0 ++ []); open_handle = 0 }

read_log_file-wrong_signature_example :
    (s' : Memory) × (read_log_file memory 260 some_locals some_outputs zeros_file
      ≡ (true, some_outputs, s'))
read_log_file-wrong_signature_example =
    read_log_file-wrong_signature memory contents memory-IsFileSystem 260 some_locals some_outputs
      (replicate 16 0) [] zeros_file refl refl refl zeros_differ
