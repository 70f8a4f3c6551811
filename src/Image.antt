-- ===== src/Image.antt =====
-- Images of programs in memory: `IsValidImage` of source/NativeLib/my.cpp. An image is the bytes from
-- its base; the fields of its headers stand where the format of the system has them, and
-- `none` is a read behind the bytes.
pub mod Exports
pub mod Imports
pub mod Relocation
pub mod Valid
use fvploader.Prelude.{
  ℕ, ◌+◌, ◌-◌, ◌*◌, ◌/◌, ◌%◌, ◌^◌, Bool, true, false, not, ◌==◌, ◌&&◌, ◌||◌, ltb, leb,
  if◌then◌else◌, Option, none, some, List, take, drop, length, of_bytes, ◌>>=◌,
}

-- a field of `size` bytes
unfoldable pub field : List ℕ → ℕ → ℕ → Option ℕ
unfolding of_bytes
field image i size =
    if leb (i + size) (length image) then some (of_bytes (take size (drop i image))) else none

-- `IMAGE_DOS_SIGNATURE`, `IMAGE_NT_SIGNATURE` and the two values of `OptionalHeader.Magic`
abbrev pub dos_signature : ℕ
dos_signature = 0x5A4D

abbrev pub nt_signature : ℕ
nt_signature = 0x4550

abbrev pub hdr32_magic : ℕ
hdr32_magic = 0x10B

abbrev pub hdr64_magic : ℕ
hdr64_magic = 0x20B

-- `DataDirectory`, behind `NtHeader`, and the entries that are tested
abbrev pub directories : ℕ → ℕ
directories magic = if magic == hdr32_magic then 120 else 136

abbrev pub export_entry : ℕ
export_entry = 0

abbrev pub import_entry : ℕ
import_entry = 1

abbrev pub resource_entry : ℕ
resource_entry = 2

abbrev pub reloc_entry : ℕ
reloc_entry = 5

-- `ValidateDataDirectory`
unfoldable pub validate_data_directory : ℕ → ℕ → ℕ → Bool
validate_data_directory virtual_address size size_of_image =
    if size == 0
    then false
    else if ltb (2 ^ 32 - 1) (virtual_address + size)
    then false
    else leb virtual_address size_of_image && leb ((virtual_address + size) % 2 ^ 32) size_of_image

-- a test after which the function goes on if it holds
abbrev pub passes : Option Bool → Option Bool → Option Bool
passes test rest = elim test [ none ↦ none | some b ↦ if b then rest else some false ]

-- `return FALSE` where a test fails
abbrev pub return_unless : Bool → Option Bool → Option Bool
return_unless b rest = if b then rest else some false

-- `FLAG_ON`, of the flag 1, 2, 4 or 8
abbrev pub flag_on : ℕ → ℕ → Bool
flag_on flags flag = flags / flag % 2 == 1

module _ (image : List ℕ) where
  -- an entry of `DataDirectory` is valid, and what its table starts with is
  unfoldable pub directory_passes : ℕ → ℕ → ℕ → (ℕ → Option Bool) → Option Bool
  directory_passes dirs size_of_image entry first = do
    virtual_address ← field image (dirs + entry * 8) 4
    size ← field image (dirs + entry * 8 + 4) 4
    return_unless (validate_data_directory virtual_address size size_of_image)
        (first virtual_address)

  -- the tests that the flags ask for
  unfoldable pub flags_pass : ℕ → ℕ → ℕ → Option Bool
  flags_pass flags dirs size_of_image =
      let always : ℕ → Option Bool = λ _. some true in
      let test : ℕ → ℕ → (ℕ → Option Bool) → Option Bool = λ flag entry first.
        if flag_on flags flag then directory_passes dirs size_of_image entry first else some true in
      passes
        (test 2 import_entry
          (λ va. elim (field image (va + 12) 4) [ none ↦ none | some n ↦ some (not (n == 0)) ]))
        (passes
          (test 1 export_entry (λ va. elim (field image (va + 28) 4) [
            | none ↦ none
            | some f ↦ some (ltb f size_of_image)
          ]))
          (passes (test 8 reloc_entry always) (test 4 resource_entry always)))

  -- `IsValidImage`; `NtHeader` is `e_lfanew` bytes behind the base.
  unfoldable pub is_valid_image : ℕ → Option Bool
  is_valid_image flags = do
    e_magic ← field image 0 2
    return_unless (e_magic == dos_signature) (do
      e_lfanew ← field image 60 4
      signature ← field image e_lfanew 4
      return_unless (signature == nt_signature) (
          if flags == 0 then some true else do
            magic ← field image (e_lfanew + 24) 2
            return_unless (magic == hdr32_magic || magic == hdr64_magic) (do
              size_of_image ← field image (e_lfanew + 80) 4
              flags_pass flags (e_lfanew + directories magic) size_of_image)))
