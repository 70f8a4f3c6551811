-- ===== src/Image/Imports.antt =====
-- The functions that an image imports: `IATLookupRoutineByEntryNoFix` of source/NativeLib/my.cpp.
pub mod Slots
use fvploader.Prelude.{
  ℕ, zero, suc, ◌+◌, Bool, true, false, not, ◌==◌, if◌then◌else◌, Option, none, some, List, length,
  ◌>>=◌,
}
use fvploader.Image.{field, directories, import_entry, is_valid_image}

module _ (image : List ℕ) (entry : ℕ) where
  -- `while (ThunkData->u1.Function)`, from the place of a thunk; the fuel bounds the rounds.
  unfoldable pub scan_thunks : ℕ → ℕ → Option (Option ℕ)
  scan_thunks zero thunk = none
  scan_thunks (suc fuel) thunk =
      let later : Option (Option ℕ) = scan_thunks fuel (thunk + 4) in
      elim (field image thunk 4) [
        | none ↦ none
        | some f ↦ if f == 0 then some none else if f == entry then some (some thunk) else later
      ]

  -- `while (ImportDescriptor->Name)`
  unfoldable pub scan_descriptors : ℕ → ℕ → Option (Option ℕ)
  scan_descriptors zero descriptor = none
  scan_descriptors (suc fuel) descriptor =
      let later : Option (Option ℕ) = scan_descriptors fuel (descriptor + 20) in
      elim (field image (descriptor + 12) 4) [
        | none ↦ none
        | some name ↦ if name == 0 then some none else elim (field image (descriptor + 16) 4) [
          | none ↦ none
          | some first_thunk ↦ elim (scan_thunks (length image) first_thunk) [
            | none ↦ none
            | some found ↦ elim found [ none ↦ later | some thunk ↦ some (some thunk) ]
          ]
        ]
      ]

  -- `IATLookupRoutineByEntryNoFix`, of an image with a 32-bit header: the place of the slot, or
  -- `some none` for a null pointer. Descriptors and thunks lie in the image, so that it has more bytes
  -- than there are rounds.
  unfoldable pub iat_lookup_routine_by_entry : Option (Option ℕ)
  iat_lookup_routine_by_entry = elim (is_valid_image image 2) [
    | none ↦ none
    | some valid ↦ if not valid then some none else elim (field image 60 4) [
      | none ↦ none
      | some e_lfanew ↦ elim (field image (e_lfanew + 128) 4) [
        | none ↦ none
        | some descriptor ↦ scan_descriptors (length image) descriptor
      ]
    ]
  ]
