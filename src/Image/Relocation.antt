-- ===== src/Image/Relocation.antt =====
-- `ProcessOneRelocate` of source/NativeLib/my.cpp: an address is replaced wherever the relocations of an
-- image list it. The relocations are the bytes that were read from the file, and `none` is a read
-- behind them, or too little fuel.
pub mod Replaced
use fvploader.Prelude.{
  ℕ, zero, suc, ◌+◌, ◌-◌, ◌*◌, ◌/◌, ◌%◌, ◌^◌, Bool, true, false, not, ◌==◌, leb, if◌then◌else◌,
  Option, none, some, List, dword_bytes,
}
use fvploader.Patch.Memory.{Memory, poke, dword_at}
use fvploader.Image.{field}

-- `RELOCATE_ADDRESS_INFO`; `CanRelocate` is always true where it is a null pointer.
pub record RelocateAddressInfo : Type 0 where
  pub address_to_relocate : ℕ
  pub new_address : ℕ
  pub can_relocate : ℕ → Bool

-- the rounds of the inner loop, for a size that is signed
abbrev pub entry_count : ℕ → ℕ
entry_count size = if leb (2 ^ 31) size then 0 else (size - 8 + 1) / 2

module _ (info : RelocateAddressInfo) where
  -- the body of the inner loop, for the entry `w` of a block; its upper four bits are the type
  unfoldable pub relocate_entry : ℕ → ℕ → Memory → Memory
  relocate_entry relocate_base w m =
      let value_ptr = relocate_base + w % 4096 in
      if w == 0
      then m
      else if not (dword_at m value_ptr == info.address_to_relocate)
      then m
      else if not (info.can_relocate value_ptr)
      then m
      else if leb (w / 4096) 3
      then poke m value_ptr (dword_bytes info.new_address)
      else m

  -- the inner loop, over so many entries
  unfoldable pub entry_loop : List ℕ → ℕ → ℕ → ℕ → Memory → Option Memory
  entry_loop table zero pos relocate_base m = some m
  entry_loop table (suc n) pos relocate_base m = elim (field table pos 2) [
    | none ↦ none
    | some w ↦ entry_loop table n (pos + 2) relocate_base (relocate_entry relocate_base w m)
  ]

  -- The outer loop: `SizeOfRelocation` is `left`, and `Relocation` is at `pos`.
  unfoldable pub block_loop : List ℕ → ℕ → ℕ → ℕ → ℕ → Memory → Option Memory
  block_loop table image_base zero left pos m = none
  block_loop table image_base (suc fuel) left pos m = elim (left == 0) [
    | true ↦ some m
    | false ↦ elim (field table pos 4) [
      | none ↦ none
      | some virtual_address ↦ elim (field table (pos + 4) 4) [
        | none ↦ none
        | some size ↦
            elim (entry_loop table (entry_count size) (pos + 8) (image_base + virtual_address) m) [
              | none ↦ none
              | some m' ↦
                  block_loop table image_base fuel
                    (if leb (2 ^ 31) size then left + (2 ^ 32 - size) else left - size)
                    ((pos + size) % 2 ^ 32) m'
            ]
      ]
    ]
  ]

  -- `ProcessOneRelocate`; a block has eight bytes at least, so that there are fewer blocks than bytes.
  unfoldable pub process_one_relocate : List ℕ → ℕ → ℕ → Memory → Option Memory
  process_one_relocate table image_base size_of_relocation m =
      block_loop table image_base (suc size_of_relocation) size_of_relocation 0 m
