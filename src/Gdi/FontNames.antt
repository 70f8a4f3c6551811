-- ===== src/Gdi/FontNames.antt =====
-- The names of an ENUMLOGFONTEXW, and `AdjustFontDataInternal` of source/FVPKernel/Gdi32Hook.cpp,
-- which replaces them by those of the font's table. The names are bytes: `lfFaceName`,
-- `elfFullName`, `elfStyle` and `elfScript` lie one behind the other.
pub mod Localized
use fvploader.Prelude.{
  ℕ, ◌+◌, ◌-◌, ◌*◌, ◌^◌, Bool, true, false, not, ◌==◌, ltb, if◌then◌else◌, Option, none, some, List,
  [], ◌∷◌, ◌++◌, take, drop, overlay,
}
use fvploader.Container.Hash.{bytes_of_units}
use fvploader.Gdi.NameTable.{NameResult, not_supported, not_found, name_found, get_name_record}
use fvploader.Text.Compare.{Order, same, to_upper, str_n_i_compare_w}

-- the statuses of `AdjustFontData`
pub data FontStatus : Type 0 where
  font_success font_not_supported font_not_found object_name_not_found context_mismatch
        unsuccessful :
      FontStatus

-- `ENUMLOGFONTEXW`: `other` is the part before `lfFaceName`, less `lfCharSet`.
pub record EnumLogFont : Type 0 where
  pub other : List ℕ
  pub char_set : ℕ
  pub names : List ℕ

-- the sizes of `lfFaceName` and `elfFullName` in bytes
abbrev pub face_bytes : ℕ
face_bytes = 64

abbrev pub full_bytes : ℕ
full_bytes = 128

abbrev pub name_id_face : ℕ
name_id_face = 0x0100

abbrev pub name_id_full : ℕ
name_id_full = 0x0400

-- the units that bytes stand for
unfoldable pub units_of_bytes : List ℕ → List ℕ
units_of_bytes (a ∷ b ∷ bs) = (a + b * 256) ∷ units_of_bytes bs
units_of_bytes _ = []

-- a copy into memory
unfoldable pub write_at : List ℕ → ℕ → List ℕ → List ℕ
write_at memory i bytes = take i memory ++ overlay bytes (drop i memory)

-- `lfFaceName[0] == '@'`
unfoldable pub vertical : List ℕ → ℕ
unfolding units_of_bytes
vertical names = elim (units_of_bytes (take 2 names)) [
  | [] ↦ 0
  | u ∷ us ↦ if u == b'@' then 1 else 0
]

-- `CopyMemory(Buffer, Name.Buffer, Length)` and `*PtrAdd(Buffer, Length) = 0`, for the field of `size`
-- bytes at `offset`
unfoldable pub put_name : ℕ → ℕ → ℕ → ℕ → List ℕ → List ℕ → List ℕ
unfolding write_at bytes_of_units
put_name offset size v name_length units names =
    let len = if ltb (size - v) name_length then size - v else name_length in
    let start = offset + v * 2 in
    write_at (write_at names start (take len (bytes_of_units units))) (start + len) (0 ∷ 0 ∷ [])

-- the status of `GetNameRecordFromNameTable`
abbrev pub status_of : NameResult → FontStatus
status_of not_supported = font_not_supported
status_of not_found = font_not_found
status_of (name_found len units) = font_success

abbrev is_same : Order → Bool
is_same same = true
is_same _ = false

module _ (table : List ℕ) (table_size : ℕ) where
  -- the name in the original language, compared with `lfFaceName`
  unfoldable pub matches_face : ℕ → List ℕ → Option Bool
  unfolding get_name_record units_of_bytes vertical str_n_i_compare_w
  matches_face original_locale_id names =
      elim (get_name_record table table_size name_id_face original_locale_id face_bytes) [
        | none ↦ none
        | some r ↦ elim r [
          | not_supported ↦ some false
          | not_found ↦ some false
          | name_found len units ↦
              elim (str_n_i_compare_w to_upper (2 ^ 32 - 1) units
                (units_of_bytes (drop (vertical names * 2) names))) [
                  | none ↦ none
                  | some o ↦ some (is_same o)
                ]
        ]
      ]

  -- the names in the language `locale_id`: both are found before any is replaced
  unfoldable pub localize : ℕ → List ℕ → Option (FontStatus × List ℕ)
  unfolding get_name_record vertical put_name
  localize locale_id names =
      elim (get_name_record table table_size name_id_face locale_id face_bytes) [
        | none ↦ none
        | some face ↦ elim face [
          | not_supported ↦ some (font_not_supported, names)
          | not_found ↦ some (font_not_found, names)
          | name_found face_length face_units ↦
              elim (get_name_record table table_size name_id_full locale_id full_bytes) [
                | none ↦ none
                | some full ↦ elim full [
                  | not_supported ↦ some (font_not_supported, names)
                  | not_found ↦ some (font_not_found, names)
                  | name_found full_length full_units ↦
                      let v = vertical names in
                      some (
                        font_success,
                        put_name face_bytes full_bytes v full_length full_units
                            (put_name 0 face_bytes v face_length face_units names),
                      )
                ]
              ]
        ]
      ]

-- The end of `AdjustFontDataInternal`, with the table in memory.
unfoldable pub adjust_names : List ℕ → ℕ → ℕ → ℕ → EnumLogFont → Option (FontStatus × EnumLogFont)
unfolding matches_face localize
adjust_names table table_size original_locale_id locale_id lf =
    elim (matches_face table table_size original_locale_id lf.names) [
      | none ↦ none
      | some matched ↦
          if not matched
          then some (context_mismatch, lf)
          else elim (localize table table_size locale_id lf.names) [
            | none ↦ none
            | some (status, names) ↦ some (status, record lf { names = names })
          ]
    ]
