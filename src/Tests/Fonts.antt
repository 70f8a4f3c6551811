-- ===== src/Tests/Fonts.antt =====
-- Code and a name table as bytes.
use fvploader.Prelude.{ℕ, ◌==◌, if◌then◌else◌, ◌≡◌, refl, true, inl, some, List, [], ◌∷◌, drop}
use fvploader.Gdi.SystemCall.{mov_eax, call, ret, is_system_call}
use fvploader.Gdi.SystemCall.Shape.{
  reads_mov_eax, reads_segment, reads_ret, last, more, is_system_call-kinds,
}
use fvploader.Gdi.NameTable.{NameRecord, name_found, word_at, read_units, copy_name}

-- `mov eax, 0x10B2; call fs:[0xC0]; ret 4`
abbrev stub : List ℕ
stub = 0xB8 ∷ 0xB2 ∷ 0x10 ∷ 0 ∷ 0 ∷ 0x64 ∷ 0xFF ∷ 0x15 ∷ 0xC0 ∷ 0 ∷ 0 ∷ 0 ∷ 0xC2 ∷ 4 ∷ 0 ∷ []

-- the sizes of its instructions
abbrev stub_size : List ℕ → ℕ
stub_size code = elim code [ [] ↦ 1 | b ∷ p ↦ (if b == 0xB8 then 5 else 7) ]

is_system_call-kinds_example : is_system_call stub_size stub ≡ some true
is_system_call-kinds_example = is_system_call-kinds stub_size stub (mov_eax ∷ call ∷ ret ∷ []) (
    more 5 stub mov_eax _ (reads_mov_eax (drop 1 stub)) refl (
      more 4 (drop 5 stub) call _ (reads_segment (drop 8 stub)) refl
        (last 3 (drop 12 stub) (reads_ret 0xC2 (drop 13 stub) (inl refl)))))

-- One record, of the name 4 in English, and the storage of two units behind it.
abbrev small_table : List ℕ
small_table =
    0 ∷ 0 ∷ 0 ∷ 1 ∷ 0 ∷ 18 ∷ 0 ∷ 3 ∷ 0 ∷ 1 ∷ 4 ∷ 9 ∷ 0 ∷ 4 ∷ 0 ∷ 4 ∷ 0 ∷ 0 ∷ 0 ∷ b'A' ∷ 0 ∷ b'b'
    ∷ []

abbrev english_record : NameRecord
english_record = record {
  platform_id = 0x0300;
  encoding_id = 0x0100;
  language_id = 0x0904;
  name_id = 0x0400;
  string_length = 0x0400;
  string_offset = 0;
}

name_copied :
    copy_name small_table 18 16 english_record ≡ some (name_found 4 (b'A' ∷ b'b' ∷ 0 ∷ []))
unfolding copy_name read_units word_at
name_copied = refl
