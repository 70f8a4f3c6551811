-- ===== src/Gdi/NameTable.antt =====
-- `GetNameRecordFromNameTable` of source/FVPKernel/Gdi32Hook.cpp: the name in a font's table, which
-- is a list of bytes. A field is the 16-bit word as it stands in memory, so `bswap` gives its value.
-- `none` is a read behind the table.
pub mod Choice
use fvploader.Prelude.{
  ℕ, zero, suc, ◌+◌, ◌*◌, ◌/◌, ◌%◌, Bool, true, false, not, ◌==◌, ◌||◌, ◌&&◌, ltb, leb,
  if◌then◌else◌, Option, none, some, List, [], ◌∷◌, ◌++◌, get_elem?, ◌>>=◌,
}

-- `Bswap` of a USHORT
abbrev pub bswap : ℕ → ℕ
bswap w = w % 256 * 256 + w / 256 % 256

-- the word at an offset
unfoldable pub word_at : List ℕ → ℕ → Option ℕ
word_at table i = elim (get_elem? table i) [
  | none ↦ none
  | some low ↦ elim (get_elem? table (i + 1)) [ none ↦ none | some high ↦ some (low + high * 256) ]
]

-- `TT_NAME_RECORD`
pub record NameRecord : Type 0 where
  pub platform_id : ℕ
  pub encoding_id : ℕ
  pub language_id : ℕ
  pub name_id : ℕ
  pub string_length : ℕ
  pub string_offset : ℕ

-- `TT_PLATFORM_ID_WINDOWS` and `TT_ENCODEING_ID_UTF16_BE`
abbrev pub platform_windows : ℕ
platform_windows = 0x0300

abbrev pub encoding_utf16_be : ℕ
encoding_utf16_be = 0x0100

abbrev pub english : ℕ
english = bswap 0x0409

-- a record read from the table
unfoldable pub record_at : List ℕ → ℕ → Option NameRecord
unfolding word_at
record_at table i = do
  platform ← word_at table i
  encoding ← word_at table (i + 2)
  language ← word_at table (i + 4)
  name ← word_at table (i + 6)
  len ← word_at table (i + 8)
  offset ← word_at table (i + 10)
  some (record {
    platform_id = platform;
    encoding_id = encoding;
    language_id = language;
    name_id = name;
    string_length = len;
    string_offset = offset;
  })

-- the first three tests of the loop
abbrev pub is_candidate : ℕ → NameRecord → Bool
is_candidate name_id r =
    r.platform_id == platform_windows
    && (r.encoding_id == encoding_utf16_be && r.name_id == name_id)

-- The loop over the records from the offset `i`, with `NameRecordEn` so far. Its result is
-- `NameRecordUser`, or `NameRecordEn` where that is null.
unfoldable pub find_record : List ℕ → ℕ → ℕ → ℕ → ℕ → Option NameRecord → Option (Option NameRecord)
unfolding record_at
find_record table name_id language zero i en = some en
find_record table name_id language (suc count) i en =
    let next : Option NameRecord → Option (Option NameRecord) =
      λ e. find_record table name_id language count (i + 12) e in
    elim (record_at table i) [
      | none ↦ none
      | some r ↦
          if not (is_candidate name_id r)
          then next en
          else if r.language_id == language
          then some (some r)
          else next (if r.language_id == english then some r else en)
    ]

-- `STATUS_NOT_SUPPORTED`, `STATUS_NOT_FOUND`, and `STATUS_SUCCESS` with `Name->Length` and the units
-- in the buffer
pub data NameResult : Type 0 where
  not_supported not_found : NameResult
  name_found : ℕ → List ℕ → NameResult

-- `Buffer[Index] = Bswap(FaceName[Index])`
unfoldable pub read_units : List ℕ → ℕ → ℕ → Option (List ℕ)
unfolding word_at
read_units table zero i = some []
read_units table (suc n) i = elim (word_at table i) [
  | none ↦ none
  | some w ↦ elim (read_units table n (i + 2)) [ none ↦ none | some us ↦ some (bswap w ∷ us) ]
]

-- The copy at the end, into a buffer of `maximum_length` bytes. `none` is also an odd `Length`: the
-- source writes the terminator over the second byte of a unit of which it leaves the first as it was.
unfoldable pub copy_name : List ℕ → ℕ → ℕ → NameRecord → Option NameResult
unfolding read_units
copy_name table storage_offset maximum_length r =
    let wanted = bswap r.string_length in
    let len = if ltb maximum_length wanted then maximum_length else wanted in
    if not (len % 2 == 0)
    then none
    else elim (read_units table (len / 2) (storage_offset + bswap r.string_offset)) [
      | none ↦ none
      | some us ↦ some (name_found len (if ltb len maximum_length then us ++ 0 ∷ [] else us))
    ]

-- the function behind the reads of the header
unfoldable pub checked_name : List ℕ → ℕ → ℕ → ℕ → ℕ → ℕ → ℕ → Option NameResult
unfolding find_record copy_name
checked_name table table_size name_id language maximum_length count storage_offset =
    if leb table_size storage_offset
    then some not_supported
    else if ltb storage_offset (count * 12)
    then some not_supported
    else elim (find_record table name_id (bswap language) count 6 none) [
      | none ↦ none
      | some o ↦ elim o [
        | none ↦ some not_found
        | some r ↦ copy_name table storage_offset maximum_length r
      ]
    ]

-- `GetNameRecordFromNameTable`
unfoldable pub get_name_record : List ℕ → ℕ → ℕ → ℕ → ℕ → Option NameResult
unfolding checked_name
get_name_record table table_size name_id language maximum_length = do
  count_word ← word_at table 2
  storage_word ← word_at table 4
  checked_name table table_size name_id language maximum_length (bswap count_word)
      (bswap storage_word)
