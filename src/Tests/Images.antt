-- ===== src/Tests/Images.antt =====
-- A small image with one exported name and two imported functions.
use fvploader.Prelude.{
  ℕ, ◌≡◌, ◌≢◌, ◌==◌, ◌+◌, ◌^◌, ◌≤◌, ◌<◌, refl, true, some, List, [], ◌∷◌, set, replicate, drop,
  arith, if◌then◌else◌, of_bytes, dword_bytes,
}
use fvploader.Image.{field, validate_data_directory, directory_passes, flags_pass, is_valid_image}
use fvploader.Image.Valid.{is_valid_image-bounds}
use fvploader.Image.Exports.{ExportTable, hash_step, export_table, eat_lookup_routine_by_hash}
use fvploader.Image.Exports.Found.{
  AreExported, hash_name, first_named, eat_lookup_routine_by_hash-first_named,
}
use fvploader.Patch.Memory.{Memory}
use fvploader.Image.Relocation.{RelocateAddressInfo, process_one_relocate}
use fvploader.Image.Relocation.Replaced.{
  AreBlocks, IsOutside, relocate_blocks, process_one_relocate-relocate_blocks,
}
use fvploader.Image.Imports.{iat_lookup_routine_by_entry}
use fvploader.Image.Imports.Slots.{AreDescriptors, iat_lookup_routine_by_entry-first_slot}

abbrev poke : List (ℕ × ℕ) → List ℕ → List ℕ
poke [] image = image
poke ((i, b) ∷ bs) image = poke bs (set image i b)

abbrev small_image : List ℕ
small_image =
    poke
      ((0, 0x4D)
        ∷ (1, 0x5A)
        ∷ (60, 64)
        ∷ (64, 0x50)
        ∷ (65, 0x45)
        ∷ (88, 0x0B)
        ∷ (89, 1)
        ∷ (144, 0x38)
        ∷ (145, 1)
        ∷ (184, 200)
        ∷ (188, 40)
        ∷ (193, 1)
        ∷ (196, 40)
        ∷ (224, 1)
        ∷ (228, 240)
        ∷ (232, 244)
        ∷ (236, 248)
        ∷ (240, 0x34)
        ∷ (244, 252)
        ∷ (252, b'A')
        ∷ (253, b'b')
        ∷ (268, 1)
        ∷ (272, 0x2C)
        ∷ (273, 1)
        ∷ (300, 7)
        ∷ (304, 9)
        ∷ [])
      (replicate 312 0)

abbrev small_table : ExportTable
small_table = record {
  number_of_names = 1;
  address_of_functions = 240;
  address_of_names = 244;
  address_of_name_ordinals = 248;
}

image_valid :
    (is_valid_image small_image 1 ≡ some true) × (is_valid_image small_image 2 ≡ some true)
unfolding is_valid_image flags_pass directory_passes validate_data_directory field
image_valid = (refl, refl)

image_fields :
    (field small_image 60 4 ≡ some 64)
    × (field small_image 88 2 ≡ some 0x10B)
    × (field small_image 144 4 ≡ some 312)
    × (field small_image 184 4 ≡ some 200)
    × (field small_image 188 4 ≡ some 40)
    × (field small_image 228 4 ≡ some 240)
    × (field small_image 192 4 ≡ some 256)
    × (field small_image 244 4 ≡ some 252)
    × (field small_image 248 2 ≡ some 0)
unfolding field
image_fields = (refl, refl, refl, refl, refl, refl, refl, refl, refl)

abbrev export_bytes : ℕ
export_bytes = 40

is_valid_image-bounds_example :
    (export_bytes ≢ 0) × (200 + export_bytes ≤ 312) × (200 + export_bytes < 2 ^ 32) × (240 < 312)
is_valid_image-bounds_example =
    is_valid_image-bounds small_image 64 0x10B 312 200 40 240 image_fields.0 image_fields.1
      image_fields.2 image_fields.3 image_fields.4 image_fields.5 image_valid.0

table_read : export_table small_image 64 ≡ some small_table
unfolding export_table field
table_read = refl

hash_Ab : hash_name 0 (b'A' ∷ b'b' ∷ []) ≡ 532578
unfolding hash_name hash_step
hash_Ab = refl

names_listed : AreExported small_image 244 248 ((b'A' ∷ b'b' ∷ [], 0) ∷ [])
names_listed = (
  (
    252,
    drop 255 small_image,
    image_fields.7,
    refl,
    (λ e. omega arith, (λ e. omega arith, tt)),
    image_fields.8,
  ),
  tt,
)

eat_lookup_routine_by_hash-first_named_example :
    eat_lookup_routine_by_hash small_image 532578
    ≡ some (first_named 532578 240 ((b'A' ∷ b'b' ∷ [], 0) ∷ []))
eat_lookup_routine_by_hash-first_named_example =
    eat_lookup_routine_by_hash-first_named small_image 532578 64 small_table (b'A' ∷ b'b' ∷ [], 0)
      [] (λ e. omega arith) image_valid.0 image_fields.0 table_read refl names_listed

-- which is the function's place
Ab_found : first_named 532578 240 ((b'A' ∷ b'b' ∷ [], 0) ∷ []) ≡ some 240
unfolding hash_name hash_step
Ab_found = refl

functions_listed : AreDescriptors small_image 256 ((300, 7 ∷ 9 ∷ []) ∷ [])
unfolding field
functions_listed = (
  (1, refl, (λ e. omega arith), refl, (refl, (λ e. omega arith), (refl, (λ e. omega arith), refl))),
  refl,
)

iat_lookup_routine_by_entry-first_slot_example :
    iat_lookup_routine_by_entry small_image 9 ≡ some (some 304)
iat_lookup_routine_by_entry-first_slot_example =
    iat_lookup_routine_by_entry-first_slot small_image 9 64 256 ((300, 7 ∷ 9 ∷ []) ∷ [])
      image_valid.1 image_fields.0 image_fields.6 functions_listed

-- One block of relocations, of an address at 20 and one that is padding.
abbrev relocations : List ℕ
relocations = 16 ∷ 0 ∷ 0 ∷ 0 ∷ 12 ∷ 0 ∷ 0 ∷ 0 ∷ 4 ∷ 0x30 ∷ 0 ∷ 0 ∷ []

abbrev seven_to_nine : RelocateAddressInfo
seven_to_nine = record { address_to_relocate = 7; new_address = 9; can_relocate = λ p. true }

abbrev seven_at_20 : Memory
seven_at_20 a = if a == 20 then 7 else 0

blocks_listed : AreBlocks relocations 0 12 ((16, 0x3004 ∷ 0 ∷ []) ∷ [])
unfolding field
blocks_listed = ((refl, refl, omega arith, omega arith, omega arith, (refl, (refl, tt))), refl)

process_one_relocate-relocate_blocks_example :
    (process_one_relocate seven_to_nine relocations 0 12 seven_at_20
      ≡ some (relocate_blocks seven_to_nine 0 ((16, 0x3004 ∷ 0 ∷ []) ∷ []) seven_at_20))
    × ((x : ℕ)
        → IsOutside x 0 ((16, 0x3004 ∷ 0 ∷ []) ∷ [])
        → relocate_blocks seven_to_nine 0 ((16, 0x3004 ∷ 0 ∷ []) ∷ []) seven_at_20 x
          ≡ seven_at_20 x)
process_one_relocate-relocate_blocks_example =
    process_one_relocate-relocate_blocks seven_to_nine relocations 0 12 ((16, 0x3004 ∷ 0 ∷ []) ∷ [])
      seven_at_20 blocks_listed

-- which is the new address at 20
nine_at_20 : relocate_blocks seven_to_nine 0 ((16, 0x3004 ∷ 0 ∷ []) ∷ []) seven_at_20 20 ≡ 9
unfolding of_bytes dword_bytes
nine_at_20 = refl
