-- ===== src/Gdi/NameTable/Choice.antt =====
-- Which record of a name table is chosen.
use fvploader.Prelude.{
  ℕ, zero, suc, ◌+◌, ◌/◌, ◌%◌, ◌++◌, ◌≡◌, ltb, Bool, ◌==◌, ◌&&◌, if◌then◌else◌, Option, none, some,
  List, [], ◌∷◌,
}
use fvploader.Gdi.NameTable.{
  NameRecord, bswap, record_at, is_candidate, NameResult, not_found, name_found, read_units,
}

-- The records from the offset `i` of the table are these.
pub data Records (table : List ℕ) : ℕ → ℕ → List NameRecord → Type 0 where
  done : (i : ℕ) → Records table zero i []
  next :
      (count i : ℕ) (r : NameRecord) (rs : List NameRecord)
      → record_at table i ≡ some r
      → Records table count (i + 12) rs
      → Records table (suc count) i (r ∷ rs)

-- a record of the name, in a language
abbrev pub matches : ℕ → ℕ → NameRecord → Bool
matches name_id language r = is_candidate name_id r && r.language_id == language

abbrev pub first_match : ℕ → ℕ → List NameRecord → Option NameRecord
first_match name_id language [] = none
first_match name_id language (r ∷ rs) =
    if matches name_id language r then some r else first_match name_id language rs

abbrev pub last_match : ℕ → ℕ → List NameRecord → Option NameRecord
last_match name_id language [] = none
last_match name_id language (r ∷ rs) = elim (last_match name_id language rs) [
  | none ↦ (if matches name_id language r then some r else none)
  | some q ↦ some q
]

-- one choice, and another where there is none
abbrev pub or_else : Option NameRecord → Option NameRecord → Option NameRecord
or_else a b = elim a [ none ↦ b | some r ↦ some r ]

module _ (table : List ℕ) (name_id language : ℕ) where
  -- the name of `len` bytes at an offset, with a terminator or without one
  abbrev pub name_in : ℕ → ℕ → List ℕ → Option NameResult
  name_in len start end = elim (read_units table (len / 2) start) [
    | none ↦ none
    | some us ↦ some (name_found len (us ++ end))
  ]

  -- A name that is shorter than the buffer is copied with a terminator, and of another as much as fits
  -- without one, if this is an even number of bytes.
  abbrev pub copied : ℕ → ℕ → ℕ → Option NameResult
  copied wanted start maximum_length =
      if ltb wanted maximum_length
      then (if wanted % 2 == 0 then name_in wanted start (0 ∷ []) else none)
      else if maximum_length % 2 == 0
      then name_in maximum_length start []
      else none

  -- the result for the chosen record
  abbrev pub named : ℕ → ℕ → Option NameRecord → Option NameResult
  named storage_offset maximum_length o = elim o [
    | none ↦ some not_found
    | some r ↦
        copied (bswap r.string_length) (storage_offset + bswap r.string_offset) maximum_length
  ]
