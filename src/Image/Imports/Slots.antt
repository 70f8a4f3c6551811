-- ===== src/Image/Imports/Slots.antt =====
-- Which slot the lookup by an entry finds.
use fvploader.Prelude.{
  ℕ, zero, suc, ◌+◌, ◌*◌, ◌≤◌, ◌<◌, ◌≡◌, ◌≢◌, true, ◌==◌, if◌then◌else◌, Option, none, some, List,
  [], ◌∷◌, length, arith,
}
use fvploader.Image.{field, is_valid_image}
use fvploader.Image.Imports.{scan_thunks, scan_descriptors, iat_lookup_routine_by_entry}

field-inside :
    (image : List ℕ) (i size v : ℕ) → field image i size ≡ some v → i + size ≤ length image
unfolding field
field-inside image i size v e = ground arith

module _ (image : List ℕ) where
  -- The thunks from a place on are these functions, up to a zero.
  abbrev pub AreThunks : ℕ → List ℕ → Type 0
  AreThunks thunk [] = field image thunk 4 ≡ some 0
  AreThunks thunk (f ∷ fs) = (field image thunk 4 ≡ some f) × (f ≢ 0) × AreThunks (thunk + 4) fs

  -- The descriptors from a place on have these lists of functions, up to one without a name.
  abbrev pub AreDescriptors : ℕ → List (ℕ × List ℕ) → Type 0
  AreDescriptors descriptor [] = field image (descriptor + 12) 4 ≡ some 0
  AreDescriptors descriptor ((thunk, fs) ∷ ds) =
      ((name : ℕ) × (field image (descriptor + 12) 4 ≡ some name)
        × (name ≢ 0)
        × (field image (descriptor + 16) 4 ≡ some thunk)
        × AreThunks thunk fs)
      × AreDescriptors (descriptor + 20) ds

-- the slot of a function among those from a place on
abbrev pub slot_of : ℕ → ℕ → List ℕ → Option ℕ
slot_of entry thunk [] = none
slot_of entry thunk (f ∷ fs) = if f == entry then some thunk else slot_of entry (thunk + 4) fs

-- the first slot of a function in all tables
abbrev pub first_slot : ℕ → List (ℕ × List ℕ) → Option ℕ
first_slot entry [] = none
first_slot entry ((thunk, fs) ∷ ds) = elim (slot_of entry thunk fs) [
  | none ↦ first_slot entry ds
  | some slot ↦ some slot
]

module _ (image : List ℕ) (entry : ℕ) where
  thunks_inside :
      (thunk : ℕ) (fs : List ℕ)
      → AreThunks image thunk fs
      → thunk + 4 * length fs + 4 ≤ length image
  thunks_inside thunk [] e = omega (arith, field-inside image thunk 4 0 e)
  thunks_inside thunk (f ∷ fs) (e, nz, listed) = omega (arith, thunks_inside (thunk + 4) fs listed)

  scan_thunks-slot_of :
      (fuel thunk : ℕ) (fs : List ℕ)
      → length fs < fuel
      → AreThunks image thunk fs
      → scan_thunks image entry fuel thunk ≡ some (slot_of entry thunk fs)
  unfolding scan_thunks
  scan_thunks-slot_of zero thunk fs h listed = absurd (omega arith)
  scan_thunks-slot_of (suc fuel) thunk [] h e = ground arith
  scan_thunks-slot_of (suc fuel) thunk (f ∷ fs) h (e, nz, listed) =
      ground (arith, scan_thunks-slot_of fuel (thunk + 4) fs (omega arith) listed)

  descriptors_inside :
      (descriptor : ℕ) (ds : List (ℕ × List ℕ))
      → AreDescriptors image descriptor ds
      → descriptor + 20 * length ds + 16 ≤ length image
  descriptors_inside descriptor [] e = omega (arith, field-inside image (descriptor + 12) 4 0 e)
  descriptors_inside descriptor ((thunk, fs) ∷ ds) (first, listed) =
      omega (arith, descriptors_inside (descriptor + 20) ds listed)

  scan_descriptors-first_slot :
      (fuel descriptor : ℕ) (ds : List (ℕ × List ℕ))
      → length ds < fuel
      → AreDescriptors image descriptor ds
      → scan_descriptors image entry fuel descriptor ≡ some (first_slot entry ds)
  unfolding scan_descriptors
  scan_descriptors-first_slot zero descriptor ds h listed = absurd (omega arith)
  scan_descriptors-first_slot (suc fuel) descriptor [] h e = ground arith
  scan_descriptors-first_slot (suc fuel) descriptor ((thunk, fs) ∷ ds) h
        ((name, e1, nz, e2, thunks), listed) =
      ground (
        arith,
        scan_thunks-slot_of (length image) thunk fs (omega (arith, thunks_inside thunk fs thunks))
            thunks,
        scan_descriptors-first_slot fuel (descriptor + 20) ds (omega arith) listed,
      )

  -- `IATLookupRoutineByEntryNoFix` gives the first slot that holds the entry in the tables of the
  -- image's import descriptors, and a null pointer if none holds it. The image is valid, and its
  -- tables end with a zero inside of it; then the fuel is enough.
  pub iat_lookup_routine_by_entry-first_slot :
      (e_lfanew descriptor : ℕ) (ds : List (ℕ × List ℕ))
      → is_valid_image image 2 ≡ some true
      → field image 60 4 ≡ some e_lfanew
      → field image (e_lfanew + 128) 4 ≡ some descriptor
      → AreDescriptors image descriptor ds
      → iat_lookup_routine_by_entry image entry ≡ some (first_slot entry ds)
  unfolding iat_lookup_routine_by_entry
  iat_lookup_routine_by_entry-first_slot e_lfanew descriptor ds valid header directory listed =
      ground (
        arith,
        scan_descriptors-first_slot (length image) descriptor ds
            (omega (arith, descriptors_inside descriptor ds listed)) listed,
      )
