-- ===== src/Image/Exports.antt =====
-- The functions that an image exports by name: `HashAPI` of source/NativeLib/my.h, and
-- `EATLookupRoutineByHashNoFix` with its variants of source/NativeLib/my.cpp.
pub mod Found
use fvploader.Prelude.{
  ℕ, zero, suc, ◌+◌, ◌-◌, ◌*◌, ◌/◌, ◌%◌, ◌^◌, Bool, true, false, not, ◌==◌, ◌&&◌, if◌then◌else◌,
  Option, none, some, List, [], ◌∷◌, drop, ◌>>=◌,
}
use Prim.Native.Nat.{bit_xor}
use fvploader.Image.{field, hdr32_magic, directories, is_valid_image}

-- `_rotl(Hash, 0x0D) ^ ch`
unfoldable pub hash_step : ℕ → ℕ → ℕ
hash_step hash ch = bit_xor (hash * 2 ^ 13 % 2 ^ 32 + hash / 2 ^ 19) ch

-- `HashAPI`, from a hash so far
unfoldable pub hash_api : ℕ → List ℕ → Option ℕ
unfolding hash_step
hash_api hash [] = none
hash_api hash (ch ∷ text) =
    let later : Option ℕ = hash_api (hash_step hash ch) text in if ch == 0 then some hash else later

-- The rounds of `do ... while (--NumberOfNames)`.
abbrev pub rounds : ℕ → ℕ
rounds n = if n == 0 then 2 ^ 32 else n

-- `IMAGE_EXPORT_DIRECTORY`, what the loop uses of it
pub record ExportTable : Type 0 where
  pub number_of_names : ℕ
  pub address_of_functions : ℕ
  pub address_of_names : ℕ
  pub address_of_name_ordinals : ℕ

module _ (image : List ℕ) where
  -- The loop over the names: the place of the function's address, from the image's base.
  unfoldable pub lookup_loop : ℕ → ℕ → ℕ → ℕ → ℕ → Option (Option ℕ)
  lookup_loop hash functions zero names ordinals = some none
  lookup_loop hash functions (suc n) names ordinals = elim (field image names 4) [
    | none ↦ none
    | some name ↦ elim (hash_api 0 (drop name image)) [
      | none ↦ none
      | some h ↦ elim (h == hash) [
        | true ↦ elim (field image ordinals 2) [
          | none ↦ none
          | some ordinal ↦ some (some (functions + 4 * ordinal))
        ]
        | false ↦ lookup_loop hash functions n (names + 4) (ordinals + 2)
      ]
    ]
  ]

  unfoldable pub export_table : ℕ → Option ExportTable
  export_table e_lfanew = do
    magic ← field image (e_lfanew + 24) 2
    virtual_address ← field image (e_lfanew + directories magic) 4
    names_count ← field image (virtual_address + 24) 4
    functions ← field image (virtual_address + 28) 4
    names ← field image (virtual_address + 32) 4
    ordinals ← field image (virtual_address + 36) 4
    some (record {
      number_of_names = names_count;
      address_of_functions = functions;
      address_of_names = names;
      address_of_name_ordinals = ordinals;
    })

  -- `EATLookupRoutineByHashNoFix` and `EATLookupRoutineByHashNoFix64`, which differ in the layout of the
  -- header: `some none` is `nullptr`, and `some (some rva)` is the address behind the base.
  unfoldable pub eat_lookup_routine_by_hash : ℕ → Option (Option ℕ)
  eat_lookup_routine_by_hash hash = elim (if hash == 0 then some true else is_valid_image image 1) [
    | none ↦ none
    | some valid ↦ if not valid then some none else elim (field image 60 4) [
      | none ↦ none
      | some e_lfanew ↦
          if hash == 0 then some (some (e_lfanew + 40)) else elim (export_table e_lfanew) [
            | none ↦ none
            | some t ↦
                lookup_loop hash t.address_of_functions (rounds t.number_of_names)
                  t.address_of_names t.address_of_name_ordinals
          ]
    ]
  ]

  -- `EATLookupRoutineByHashPNoFix`: the address of the function behind the base
  unfoldable pub eat_lookup_routine_by_hash_p : ℕ → Option (Option ℕ)
  eat_lookup_routine_by_hash_p hash = elim (eat_lookup_routine_by_hash hash) [
    | none ↦ none
    | some pointer ↦ elim pointer [
      | none ↦ some none
      | some rva ↦ elim (field image rva 4) [ none ↦ none | some f ↦ some (some f) ]
    ]
  ]
