-- ===== src/Image/Valid.antt =====
-- What a valid image promises of its export table.
use fvploader.Prelude.{
  ℕ, ◌+◌, ◌*◌, ◌^◌, ◌≤◌, ◌<◌, ◌≡◌, ◌≢◌, Bool, true, Option, none, some, List, ltb, arith, subst,
}
use fvploader.Image.{
  field, directories, export_entry, validate_data_directory, directory_passes, flags_pass,
  is_valid_image,
}

validate-bounds :
    (virtual_address size size_of_image : ℕ)
    → validate_data_directory virtual_address size size_of_image ≡ true
    → (size ≢ 0) × (virtual_address + size ≤ size_of_image) × (virtual_address + size < 2 ^ 32)
unfolding validate_data_directory
validate-bounds virtual_address size size_of_image e = ground arith

module _ (image : List ℕ) where
  directory-bounds :
      (dirs size_of_image entry virtual_address size : ℕ) (first : ℕ → Option Bool)
      → field image (dirs + entry * 8) 4 ≡ some virtual_address
      → field image (dirs + entry * 8 + 4) 4 ≡ some size
      → directory_passes image dirs size_of_image entry first ≡ some true
      → (validate_data_directory virtual_address size size_of_image ≡ true)
        × (first virtual_address ≡ some true)
  unfolding directory_passes
  directory-bounds dirs size_of_image entry virtual_address size first e1 e2 passed = ground arith

  -- the test of the functions' place
  abbrev functions_inside : ℕ → ℕ → Option Bool
  functions_inside size_of_image va = elim (field image (va + 28) 4) [
    | none ↦ none
    | some f ↦ some (ltb f size_of_image)
  ]

  functions-bounds :
      (size_of_image va functions : ℕ)
      → field image (va + 28) 4 ≡ some functions
      → functions_inside size_of_image va ≡ some true
      → functions < size_of_image
  functions-bounds size_of_image va functions e inside = ground arith

  flags_pass-directory :
      (dirs size_of_image : ℕ)
      → flags_pass image 1 dirs size_of_image ≡ some true
      → directory_passes image dirs size_of_image export_entry (functions_inside size_of_image)
        ≡ some true
  unfolding flags_pass
  flags_pass-directory dirs size_of_image passed = ground arith

  valid-flags_pass :
      (e_lfanew magic size_of_image : ℕ)
      → field image 60 4 ≡ some e_lfanew
      → field image (e_lfanew + 24) 2 ≡ some magic
      → field image (e_lfanew + 80) 4 ≡ some size_of_image
      → is_valid_image image 1 ≡ some true
      → flags_pass image 1 (e_lfanew + directories magic) size_of_image ≡ some true
  unfolding is_valid_image
  valid-flags_pass e_lfanew magic size_of_image e1 e2 e3 valid = ground arith

  -- An image that `IsValidImage` accepts for its export table has that table, which is not empty, and
  -- the place of its functions inside of the image, and no sum of these wraps.
  pub is_valid_image-bounds :
      (e_lfanew magic size_of_image virtual_address size functions : ℕ)
      → field image 60 4 ≡ some e_lfanew
      → field image (e_lfanew + 24) 2 ≡ some magic
      → field image (e_lfanew + 80) 4 ≡ some size_of_image
      → field image (e_lfanew + directories magic) 4 ≡ some virtual_address
      → field image (e_lfanew + directories magic + 4) 4 ≡ some size
      → field image (virtual_address + 28) 4 ≡ some functions
      → is_valid_image image 1 ≡ some true
      → (size ≢ 0)
        × (virtual_address + size ≤ size_of_image)
        × (virtual_address + size < 2 ^ 32)
        × (functions < size_of_image)
  is_valid_image-bounds e_lfanew magic size_of_image virtual_address size functions e1 e2 e3 e4 e5
        e6 valid =
      let passed =
        flags_pass-directory (e_lfanew + directories magic) size_of_image
          (valid-flags_pass e_lfanew magic size_of_image e1 e2 e3 valid) in
      let dirs = e_lfanew + directories magic in
      let at_entry : field image (dirs + export_entry * 8) 4 ≡ some virtual_address =
        subst (λ i. field image i 4 ≡ some virtual_address) (omega arith) e4 in
      let at_size : field image (dirs + export_entry * 8 + 4) 4 ≡ some size =
        subst (λ i. field image i 4 ≡ some size) (omega arith) e5 in
      let (valid_directory, inside) =
        directory-bounds dirs size_of_image export_entry virtual_address size
          (functions_inside size_of_image) at_entry at_size passed in
      let (b1, b2, b3) = validate-bounds virtual_address size size_of_image valid_directory in
      (b1, b2, b3, functions-bounds size_of_image virtual_address functions e6 inside)
