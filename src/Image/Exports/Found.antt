-- ===== src/Image/Exports/Found.antt =====
-- What the lookup by a hash finds.
use fvploader.Prelude.{
  ℕ, ◌+◌, ◌*◌, ◌≡◌, ◌≢◌, refl, ap, ◌∙◌, true, ◌==◌, if◌then◌else◌, Option, none, some, List, [],
  ◌∷◌, ◌++◌, drop, length, arith,
}
use fvploader.Image.{field, is_valid_image}
use fvploader.Image.Exports.{
  ExportTable, hash_step, hash_api, rounds, lookup_loop, export_table, eat_lookup_routine_by_hash,
}

-- the hash of a name
unfoldable pub hash_name : ℕ → List ℕ → ℕ
hash_name h [] = h
hash_name h (ch ∷ name) = hash_name (hash_step h ch) name

-- a name without its terminator
abbrev pub IsName : List ℕ → Type 0
IsName [] = Unit {0}
IsName (ch ∷ name) = (ch ≢ 0) × IsName name

hash_api-hash_name :
    (h : ℕ) (name rest : List ℕ)
    → IsName name
    → hash_api h (name ++ 0 ∷ rest) ≡ some (hash_name h name)
unfolding hash_api hash_name
hash_api-hash_name h [] rest e = refl
hash_api-hash_name h (ch ∷ name) rest (nz, e) =
    ground (arith, hash_api-hash_name (hash_step h ch) name rest e)

module _ (image : List ℕ) where
  -- The table of names from two places on lists these names, each with its ordinal.
  abbrev pub AreExported : ℕ → ℕ → List (List ℕ × ℕ) → Type 0
  AreExported names ordinals [] = Unit {0}
  AreExported names ordinals ((name, ordinal) ∷ es) =
      ((rva : ℕ) × (rest : List ℕ) × (field image names 4 ≡ some rva)
        × (drop rva image ≡ name ++ 0 ∷ rest)
        × IsName name
        × (field image ordinals 2 ≡ some ordinal))
      × AreExported (names + 4) (ordinals + 2) es

-- the place of the address of the first function whose name has the hash
abbrev pub first_named : ℕ → ℕ → List (List ℕ × ℕ) → Option ℕ
first_named hash functions [] = none
first_named hash functions ((name, ordinal) ∷ es) =
    if hash_name 0 name == hash
    then some (functions + 4 * ordinal)
    else first_named hash functions es

module _ (image : List ℕ) where
  lookup_loop-first_named :
      (hash functions names ordinals : ℕ) (es : List (List ℕ × ℕ))
      → AreExported image names ordinals es
      → lookup_loop image hash functions (length es) names ordinals
        ≡ some (first_named hash functions es)
  unfolding lookup_loop
  lookup_loop-first_named hash functions names ordinals [] listed = refl
  lookup_loop-first_named hash functions names ordinals ((name, ordinal) ∷ es)
        ((rva, rest, found, text, proper, numbered), listed) =
      let hashed : hash_api 0 (drop rva image) ≡ some (hash_name 0 name) =
        ap (hash_api 0) text ∙ hash_api-hash_name 0 name rest proper in
      ground
        (arith, hashed, lookup_loop-first_named hash functions (names + 4) (ordinals + 2) es listed)

  -- `EATLookupRoutineByHashNoFix` of a hash that is not 0, in a valid image whose export table has at
  -- least one name, gives the place of the address of the first function whose name has the
  -- hash, and a null pointer if there is none.
  pub eat_lookup_routine_by_hash-first_named :
      (hash e_lfanew : ℕ) (t : ExportTable) (e : List ℕ × ℕ) (es : List (List ℕ × ℕ))
      → hash ≢ 0
      → is_valid_image image 1 ≡ some true
      → field image 60 4 ≡ some e_lfanew
      → export_table image e_lfanew ≡ some t
      → t.number_of_names ≡ length (e ∷ es)
      → AreExported image t.address_of_names t.address_of_name_ordinals (e ∷ es)
      → eat_lookup_routine_by_hash image hash
        ≡ some (first_named hash t.address_of_functions (e ∷ es))
  unfolding eat_lookup_routine_by_hash
  eat_lookup_routine_by_hash-first_named hash e_lfanew t e es nz valid header table counted listed =
      let count : rounds t.number_of_names ≡ length (e ∷ es) = ground arith in
      let loop : lookup_loop image hash t.address_of_functions (rounds t.number_of_names)
            t.address_of_names t.address_of_name_ordinals
          ≡ some (first_named hash t.address_of_functions (e ∷ es)) =
        ap
          (λ n.
            lookup_loop image hash t.address_of_functions n t.address_of_names
              t.address_of_name_ordinals)
          count
        ∙ lookup_loop-first_named hash t.address_of_functions t.address_of_names
            t.address_of_name_ordinals (e ∷ es) listed in
      ground arith
