-- ===== src/Container/GrowableArray.antt =====
-- `GrowableArray<TYPE>` of source/NativeLib/my.h, where `ULONG_PTR` has 32 bits. `none` as the
-- result of an operation is an access behind the allocated memory, or through `nullptr`.
pub mod Widened
pub mod Holds
pub mod Search
use fvploader.Prelude.{
  ℕ, zero, suc, ◌+◌, ◌-◌, ◌*◌, ◌/◌, ◌%◌, ◌^◌, Bool, true, false, not, ◌==◌, ◌&&◌, ◌||◌, ltb, leb,
  if◌then◌else◌, Option, none, some, List, [], ◌∷◌, ◌++◌, length, take, drop, set, get_elem?,
  replicate,
}

-- `m_Data` as its cells, `m_Size` and `m_MaxSize`
pub record Array {ℓ} (V : Type ℓ) : Type ℓ where
  pub cells : Option (List V)
  pub size : ℕ
  pub max_size : ℕ

-- `STATUS_SUCCESS`, `STATUS_INVALID_PARAMETER`, `STATUS_NO_MEMORY`
pub data NtStatus : Type 0 where
  status_success status_invalid_parameter status_no_memory : NtStatus

abbrev pub ulong_ptr_max : ℕ
ulong_ptr_max = 2 ^ 32 - 1

-- the capacity that `SetSizeInternal` grows to
unfoldable pub grown_size : ℕ → ℕ → ℕ
grown_size new_max_size max_size =
    let wanted = if max_size == 0 then 16 else max_size in
    let grow_by =
      if ltb ulong_ptr_max (max_size + wanted) then ulong_ptr_max - max_size else wanted in
    if ltb (max_size + grow_by) new_max_size then new_max_size else max_size + grow_by

module _ {ℓ} {V : Type ℓ} where
  -- `GrowableArray()`
  abbrev pub new_array : Array V
  new_array = record { cells = none; size = 0; max_size = 0 }

  -- the cells of a pointer, of which `nullptr` has none
  abbrev pub cells_of : Option (List V) → List V
  cells_of o = elim o [ none ↦ [] | some cs ↦ cs ]

  abbrev pub is_null : Option (List V) → Bool
  is_null o = elim o [ none ↦ true | some cs ↦ false ]

  -- `m_Data[Index] = Value`
  abbrev pub store : ℕ → V → Array V → Option (Array V)
  store i v a =
      if ltb i (length (cells_of a.cells))
      then some (record a { cells = some (set (cells_of a.cells) i v) })
      else none

  -- what a reallocation to `n` cells leaves, with `junk` in the new ones
  abbrev pub resized : V → ℕ → List V → List V
  resized junk n cs = take n cs ++ replicate (n - length cs) junk

  -- The size of an element in bytes, whether a reallocation to so many bytes succeeds, what new
  -- memory holds, and a default-constructed element.
  module _ (size_of : ℕ) (alloc : ℕ → Bool) (junk blank : V) where
    -- `SetSizeInternal`. The product of the capacity and the element's size wraps.
    unfoldable pub set_size_internal : ℕ → Array V → NtStatus × Array V
    unfolding grown_size
    set_size_internal new_max_size a =
        let grown = grown_size new_max_size a.max_size in
        let bytes = grown * size_of % 2 ^ 32 in
        if ltb (ulong_ptr_max / size_of) new_max_size
        then (status_invalid_parameter, a)
        else if new_max_size == 0
        then (status_success, record { cells = none; size = 0; max_size = 0 })
        else if is_null a.cells || ltb a.max_size new_max_size
        then (if alloc bytes
            then (
              status_success,
              record a {
                cells = some (resized junk (bytes / size_of) (cells_of a.cells));
                max_size = grown;
              },
            )
            else (status_no_memory, a))
        else (status_success, a)

    -- `Add`
    unfoldable pub add : V → Array V → Option (NtStatus × Array V)
    unfolding set_size_internal
    add v a =
        let new_size = (a.size + 1) % 2 ^ 32 in
        let (status, a1) = set_size_internal new_size (record a { size = new_size }) in
        elim status [
          | status_success ↦ elim (store (new_size - 1) v a1) [
            | none ↦ none
            | some a2 ↦ some (status_success, a2)
          ]
          | status_invalid_parameter ↦
              some (status_invalid_parameter, record a1 { size = (a1.size + 2 ^ 32 - 1) % 2 ^ 32 })
          | status_no_memory ↦
              some (status_no_memory, record a1 { size = (a1.size + 2 ^ 32 - 1) % 2 ^ 32 })
        ]

    -- `RtlMoveMemory(Data + 1, Data, ...)` at `Index`, and `*Data = Value`
    abbrev pub shifted : ℕ → ℕ → V → List V → List V
    shifted index size v cs =
        take index cs ++ v ∷ (take (size - index) (drop index cs) ++ drop (size + 1) cs)

    -- `Insert`
    unfoldable pub insert : ℕ → V → Array V → Option (NtStatus × Array V)
    unfolding set_size_internal
    insert index v a =
        let (status, a1) = set_size_internal ((a.size + 1) % 2 ^ 32) a in
        if ltb a.size index then some (status_invalid_parameter, a) else elim status [
          | status_success ↦
              if leb (a1.size + 1) (length (cells_of a1.cells))
              then some (
                status_success,
                record a1 {
                  cells = some (shifted index a1.size v (cells_of a1.cells));
                  size = a1.size + 1;
                },
              )
              else none
          | status_invalid_parameter ↦ some (status_invalid_parameter, a1)
          | status_no_memory ↦ some (status_no_memory, a1)
        ]

    -- `SetSize`. New elements are constructed whether or not `SetSizeInternal` succeeded.
    unfoldable pub set_size : ℕ → Array V → Option (NtStatus × Array V)
    unfolding set_size_internal
    set_size new_max_size a =
        let (status, a1) = set_size_internal new_max_size a in
        let cs = cells_of a1.cells in
        if ltb a.size new_max_size && not (is_null a1.cells)
        then (if leb new_max_size (length cs)
            then some (
              status,
              record a1 {
                cells = some (
                    take a.size cs
                    ++ replicate (new_max_size - a.size) blank
                    ++ drop new_max_size cs);
              },
            )
            else none)
        else some (status, a1)

    -- `SetData`
    unfoldable pub set_data : List V → Array V → Option (NtStatus × Array V)
    unfolding set_size
    set_data buf a = elim (set_size (length buf) a) [
      | none ↦ none
      | some (status, a1) ↦ elim status [
        | status_success ↦
            if leb (length buf) (length (cells_of a1.cells))
            then some (
              status_success,
              record a1 {
                cells = elim a1.cells [
                  | none ↦ none
                  | some cs ↦ some (buf ++ drop (length buf) cs)
                ];
                size = length buf;
              },
            )
            else none
        | status_invalid_parameter ↦ some (status_invalid_parameter, a1)
        | status_no_memory ↦ some (status_no_memory, a1)
      ]
    ]

    -- The loop of `operator=`, which drops the status of `Add`.
    unfoldable pub add_all : List V → Array V → Option (Array V)
    unfolding add
    add_all [] a = some a
    add_all (v ∷ vs) a = elim (add v a) [ none ↦ none | some (status, a1) ↦ add_all vs a1 ]

    -- `operator=` from another array
    unfoldable pub assign : Array V → Array V → Option (Array V)
    unfolding set_size add_all
    assign from a = elim (set_size 0 a) [
      | none ↦ none
      | some (status, a1) ↦
          if leb from.size (length (cells_of from.cells))
          then add_all (take from.size (cells_of from.cells)) a1
          else none
    ]

  -- `SetAt`
  unfoldable pub set_at : ℕ → V → Array V → Option (NtStatus × Array V)
  set_at index v a =
      if leb a.size index
      then some (status_invalid_parameter, a)
      else elim (store index v a) [ none ↦ none | some a1 ↦ some (status_success, a1) ]

  -- `Remove`; the last element's cell keeps its bytes.
  unfoldable pub remove : ℕ → Array V → Option (NtStatus × Array V)
  remove index a =
      let cs = cells_of a.cells in
      if leb a.size index
      then some (status_invalid_parameter, a)
      else if leb a.size (length cs)
      then some (
        status_success,
        record a {
          cells = some (
              take index cs
              ++ take (a.size - (index + 1)) (drop (index + 1) cs)
              ++ drop (a.size - 1) cs);
          size = a.size - 1;
        },
      )
      else none

  module _ (equal : V → V → Bool) where
    -- The loop of `IndexOf`; the inner `none` is `kInvalidIndex`.
    unfoldable pub scan_up : V → ℕ → ℕ → List V → Option (Option ℕ)
    scan_up v count index [] = if count == 0 then some none else none
    scan_up v count index (x ∷ xs) =
        let later : Option (Option ℕ) = scan_up v (count - 1) (index + 1) xs in
        if count == 0 then some none else if equal x v then some (some index) else later

    -- `IndexOf` with a start and a number of elements; the count of the loop wraps.
    unfoldable pub index_of : V → ℕ → ℕ → Array V → Option (Option ℕ)
    unfolding scan_up
    index_of v start number a =
        if leb a.size start || ltb a.size ((start + number) % 2 ^ 32)
        then some none
        else scan_up v ((number + 2 ^ 32 - start) % 2 ^ 32) start (drop start (cells_of a.cells))

    -- `IndexOf(Value)` and `Contains`
    abbrev pub index_of_value : V → Array V → Option (Option ℕ)
    index_of_value v a = index_of v 0 a.size a

    unfoldable pub contains : V → Array V → Option Bool
    unfolding index_of
    contains v a = elim (index_of_value v a) [
      | none ↦ none
      | some r ↦ elim r [ none ↦ some false | some i ↦ some true ]
    ]

    -- The loop of `LastIndexOf`, over `count` cells from the one at `index` down.
    unfoldable pub scan_down : V → ℕ → ℕ → List V → Option (Option ℕ)
    scan_down v zero index cs = some none
    scan_down v (suc count) index cs =
        let later : Option (Option ℕ) = scan_down v count (index - 1) cs in
        elim (get_elem? cs index) [
          | none ↦ none
          | some x ↦ if equal x v then some (some index) else later
        ]

    -- `LastIndexOf` with an end and a number of elements
    unfoldable pub last_index_of : V → ℕ → ℕ → Array V → Option (Option ℕ)
    unfolding scan_down
    last_index_of v last number a =
        if leb a.size last || ltb last number
        then some none
        else scan_down v (last - number) last (cells_of a.cells)

    -- `LastIndexOf(Value)`; the index of the last element wraps on an empty array.
    unfoldable pub last_index_of_value : V → Array V → Option (Option ℕ)
    unfolding last_index_of
    last_index_of_value v a = last_index_of v ((a.size + 2 ^ 32 - 1) % 2 ^ 32) a.size a

    -- `LastIndexOf(Value, Index)`
    unfoldable pub last_index_of_from : V → ℕ → Array V → Option (Option ℕ)
    unfolding last_index_of
    last_index_of_from v index a = last_index_of v index ((index + 1) % 2 ^ 32) a
