-- ===== src/Patch/Manager.antt =====
-- `MemoryPatchManager`: `HandleMemoryPatch`, `HandleFunctionPatch`, `PatchMemory` and the functions
-- `RestoreMemory`. Its `GrowableArray` is the list that the array holds. Parameters are the length
-- disassembler, `Mm::ProtectMemory`, the heap, and what stands on the stack in `LocalHookBuffer`.
pub mod Function
pub mod Restored
pub mod Hooked
pub mod Landing
pub mod Twice
pub mod Failed
use fvploader.Prelude.{
  ℕ, zero, suc, ◌+◌, ◌-◌, ◌^◌, Bool, true, false, not, ◌==◌, ◌&&◌, ◌||◌, ltb, if◌then◌else◌, Option,
  none, some, List, [], ◌∷◌, ◌++◌, length, take, add32, of_bytes,
}
use fvploader.Patch.Memory.{Memory, peek, poke}

abbrev pub image_invalid_rva : ℕ
image_invalid_rva = 2 ^ 32 - 1

-- the NTSTATUS values; `breaks` is `RaiseDebugBreak`, and `unfinished` is fuel that ran out
pub data Status : Type 0 where
  success no_memory buffer_too_small invalid_parameter access_denied not_implemented breaks
        unfinished :
      Status

-- `TRAMPOLINE_DATA`, at the address of its field `Trampoline`
pub record TrampolineData : Type 0 where
  pub address : ℕ
  pub trampoline : List ℕ
  pub source : ℕ
  pub origin_size : ℕ
  pub original_code : List ℕ

-- The program's memory, the pointers to which trampolines are given, `TrampolineList`, and the
-- trampolines whose memory is freed.
pub record PatchState : Type 0 where
  pub memory : Memory
  pub slots : ℕ → ℕ
  pub trampoline_list : List TrampolineData
  pub freed : List ℕ

-- `PATCH_MEMORY_DATA::Memory`; the bytes of `data_bytes` are those that `Data` points to, or those of
-- `Data` and the fields behind it.
pub record MemoryPatch : Type 0 where
  pub virtual_address : Bool
  pub backup_data : Bool
  pub data_is_buffer : Bool
  pub data_bytes : List ℕ
  pub size : ℕ
  pub address : ℕ
  pub backup : List ℕ

-- `CopyMemory` to the program's memory
abbrev pub written : ℕ → List ℕ → PatchState → PatchState
written address bytes s = record s { memory = poke s.memory address bytes }

-- The trampoline data of a backup: the patch in it is a memory patch, in which the field `Source` of
-- a function patch lies on the low half of `Data`.
abbrev pub backup_of : MemoryPatch → ℕ → TrampolineData
backup_of p t = record {
  address = t;
  trampoline = [];
  source = of_bytes (take 4 p.data_bytes);
  origin_size = 0;
  original_code = [];
}

module _ (protect_memory : ℕ → ℕ → Bool) (allocate : List TrampolineData → Option ℕ) where
  -- The part behind `ProtectMemory`, with the changed patch; the patch in the trampoline data is not
  -- kept, as nothing reads more of it than `Source`.
  unfoldable pub write_memory_patch :
      MemoryPatch → ℕ → PatchState → Status × MemoryPatch × PatchState
  write_memory_patch p at s =
      if p.data_is_buffer
      then (success, p, written at (take p.size p.data_bytes) s)
      else if p.backup_data
      then elim (allocate s.trampoline_list) [
        | none ↦ (no_memory, p, s)
        | some t ↦ (
          success,
          record p { virtual_address = true; address = at; backup = peek s.memory at p.size },
          written at (take p.size p.data_bytes)
              (record s { trampoline_list = s.trampoline_list ++ backup_of p t ∷ [] }),
        )
      ]
      else (
        success,
        record p { backup = peek s.memory at p.size },
        written at (take p.size p.data_bytes) s,
      )

  -- `HandleMemoryPatch`
  unfoldable pub handle_memory_patch :
      MemoryPatch → ℕ → PatchState → Status × MemoryPatch × PatchState
  handle_memory_patch p base s =
      let at = (if p.virtual_address then p.address else add32 base p.address) in
      if p.size == 0 || p.address == image_invalid_rva
      then (success, p, s)
      else if protect_memory at p.size
      then write_memory_patch p at s
      else (access_denied, p, s)

-- `TrampolineList` without the first entry at an address
unfoldable pub without : ℕ → List TrampolineData → List TrampolineData
without t [] = []
without t (d ∷ ds) = if d.address == t then ds else d ∷ without t ds

-- the trampoline data that stand at an address
unfoldable pub data_at : ℕ → List TrampolineData → Option TrampolineData
data_at t [] = none
data_at t (d ∷ ds) = if d.address == t then some d else data_at t ds

-- `RemoveTrampolineData`, without its status, which is dropped
unfoldable pub remove_trampoline_data : TrampolineData → PatchState → PatchState
remove_trampoline_data d s = elim (data_at d.address s.trampoline_list) [
  | none ↦ s
  | some _ ↦ record s {
    trampoline_list = without d.address s.trampoline_list;
    freed = d.address ∷ s.freed;
  }
]

module _ (protect_memory : ℕ → ℕ → Bool) (allocate : List TrampolineData → Option ℕ) where
  -- the patch that `MemoryPatchManager::RestoreMemory` makes
  abbrev pub restoring : TrampolineData → MemoryPatch
  restoring d = record {
    virtual_address = true;
    backup_data = false;
    data_is_buffer = true;
    data_bytes = d.original_code;
    size = d.origin_size;
    address = d.source;
    backup = [];
  }

  -- `MemoryPatchManager::RestoreMemory`
  unfoldable pub restore_memory : TrampolineData → PatchState → Status × PatchState
  restore_memory d s =
      let r = handle_memory_patch protect_memory allocate (restoring d) 0 s in
      elim r.0 [ success ↦ (success, remove_trampoline_data d r.2) | e ↦ (e, r.2) ]

  -- The template `RestoreMemory`, of a pointer to a trampoline; `none` is a pointer to no trampoline
  -- data, which the code reads all the same.
  unfoldable pub restore_trampoline : ℕ → PatchState → Option (Status × PatchState)
  restore_trampoline slot s =
      if s.slots slot == 0
      then some (success, s)
      else elim (data_at (s.slots slot) s.trampoline_list) [
        | none ↦ none
        | some d ↦
            let r = restore_memory d s in
            some (elim r.0 [
              | success ↦
                  (success, record r.1 { slots = λ i. if i == slot then 0 else r.1.slots i })
              | e ↦ (e, r.1)
            ])
      ]
