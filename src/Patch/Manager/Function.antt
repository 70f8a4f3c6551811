-- ===== src/Patch/Manager/Function.antt =====
-- `HandleFunctionPatch`, `GenerateNakedTrampoline` around its code, and `PatchMemory`.
use fvploader.Prelude.{
  ℕ, ◌+◌, ◌-◌, ◌*◌, ◌/◌, ◌%◌, Bool, not, ◌==◌, ◌&&◌, ◌||◌, ltb, if◌then◌else◌, Option, none, some,
  List, [], ◌∷◌, ◌++◌, length, take, drop, add32, overlay,
}
use fvploader.Patch.Memory.{Memory, peek}
use fvploader.Patch.Code.{
  op_call, get_size_of_hook_op_size, generate_hook_code, nop_bytes, generate_jump_back, naked_code,
}
use fvploader.Patch.Copy.{copy_trampoline_stub}
use fvploader.Patch.Walk.{found, too_far, endless, get_hook_address_and_size}
use fvploader.Patch.Manager.{
  image_invalid_rva, Status, success, no_memory, buffer_too_small, invalid_parameter, access_denied,
  not_implemented, breaks, unfinished, TrampolineData, PatchState, MemoryPatch, handle_memory_patch,
  written,
}

abbrev pub trampoline_size : ℕ
trampoline_size = 0x40

-- `PATCH_MEMORY_DATA::Function`; a null pointer is 0.
pub record FunctionPatch : Type 0 where
  pub virtual_address : Bool
  pub do_not_disassemble : Bool
  pub naked_trampoline : Bool
  pub keep_raw_trampoline : Bool
  pub execute_trampoline : Bool
  pub hook_op : ℕ
  pub source : ℕ
  pub target : ℕ
  pub trampoline : ℕ

-- a hook: what `GetSizeOfHookOpSize` and `GetHookAddressAndSize` gave
pub record Site : Type 0 where
  pub hook_op_size : ℕ
  pub at : ℕ
  pub copy_op_size : ℕ

-- the address of `JumpBackAddress` in the trampoline data
abbrev pub address_of_jump_back : ℕ → ℕ
address_of_jump_back t = t + 0x88

-- `LocalHookBuffer`, which held `stack`, with the hook and what `PatchNop` writes behind it
unfoldable pub hook_bytes : List ℕ → Site → List ℕ → List ℕ
hook_bytes stack site code =
    take site.copy_op_size
      (overlay (code ++ nop_bytes (site.copy_op_size - site.hook_op_size)) stack)

-- The trampoline data at `t` are filled, given out and listed; the list, of which the source drops the
-- result of `Add`, is taken to have memory.
unfoldable pub listed : FunctionPatch → Site → ℕ → List ℕ → PatchState → PatchState
listed p site t code s = record s {
  slots = if p.trampoline == 0 then s.slots else λ i. if i == p.trampoline then t else s.slots i;
  trampoline_list =
      s.trampoline_list
      ++ record {
        address = t;
        trampoline = code;
        source = site.at;
        origin_size = site.copy_op_size;
        original_code = peek s.memory site.at site.copy_op_size;
      }
        ∷ [];
}

module _ (protect_memory : ℕ → ℕ → Bool) (stack : List ℕ) where
  -- The part from `ProtectMemory` on, with the trampoline data that are freed when it fails.
  unfoldable pub write_hook : Site → List ℕ → List ℕ → PatchState → Status × PatchState
  write_hook site code data_addresses s =
      if protect_memory site.at site.copy_op_size
      then (success, written site.at (hook_bytes stack site code) s)
      else (access_denied, record s { freed = data_addresses ++ s.freed })

  -- the end of the branch with a trampoline
  unfoldable pub finish :
      FunctionPatch → Site → ℕ → List ℕ → List ℕ → PatchState → Status × PatchState
  finish p site t trampoline code s =
      if ltb trampoline_size (length trampoline)
      then (breaks, s)
      else write_hook site code (t ∷ []) (listed p site t trampoline s)

-- `PATCH_MEMORY_DATA`; `other` is a type that is none of the two.
pub data PatchData : Type 0 where
  memory_patch : MemoryPatch → PatchData
  function_patch : FunctionPatch → PatchData
  other : PatchData

-- The parameters: fuel for the loops over instructions, the length disassembler in the program's
-- memory, `Mm::ProtectMemory`, the heap, and what stands in `LocalHookBuffer` before it is written.
module _ (fuel : ℕ) (get_op_code_size : Memory → ℕ → ℕ) (protect_memory : ℕ → ℕ → Bool)
    (allocate : List TrampolineData → Option ℕ) (stack : List ℕ) where
  -- The trampoline that is not naked, at `t`.
  unfoldable pub plain_trampoline : FunctionPatch → Site → ℕ → Memory → List ℕ
  plain_trampoline p site t m =
      let stub =
        (copy_trampoline_stub (get_op_code_size m) fuel m t site.at site.copy_op_size
          site.copy_op_size 0).0 in
      if site.copy_op_size == site.hook_op_size
        && (p.hook_op == op_call && not p.keep_raw_trampoline)
      then 0xE9 ∷ drop 1 stub
      else stub ++ generate_jump_back (address_of_jump_back t)

  -- `GenerateNakedTrampoline`, at `t`.
  unfoldable pub generate_naked_trampoline : FunctionPatch → Site → ℕ → Memory → List ℕ
  generate_naked_trampoline p site t m =
      let copy = λ (place : ℕ).
        copy_trampoline_stub (get_op_code_size m) fuel m place site.at site.copy_op_size
          site.copy_op_size 0 in
      let behind = t + length (naked_code p.hook_op 0 0) in
      if p.execute_trampoline
      then (copy t).0
        ++ (if (copy t).1 then naked_code p.hook_op (site.at + site.copy_op_size) p.target else [])
      else naked_code p.hook_op behind p.target
        ++ (copy behind).0
        ++ (if (copy behind).1 then generate_jump_back (address_of_jump_back t) else [])

  -- the branches at a place that can be hooked
  unfoldable pub hook_naked : FunctionPatch → Site → PatchState → Status × PatchState
  hook_naked p site s = elim (allocate s.trampoline_list) [
    | none ↦ (no_memory, s)
    | some t ↦ elim (generate_hook_code site.at t p.hook_op site.hook_op_size) [
      | none ↦ (invalid_parameter, record s { freed = t ∷ s.freed })
      | some code ↦
          finish protect_memory stack p site t (generate_naked_trampoline p site t s.memory) code s
    ]
  ]

  unfoldable pub hook_plain : FunctionPatch → Site → PatchState → Status × PatchState
  hook_plain p site s = elim (generate_hook_code site.at p.target p.hook_op site.hook_op_size) [
    | none ↦ (invalid_parameter, s)
    | some code ↦
        if p.trampoline == 0 || p.do_not_disassemble
        then write_hook protect_memory stack site code [] s
        else elim (allocate s.trampoline_list) [
          | none ↦ (no_memory, s)
          | some t ↦
              finish protect_memory stack p site t (plain_trampoline p site t s.memory) code s
        ]
  ]

  unfoldable pub hook_site : FunctionPatch → Site → PatchState → Status × PatchState
  hook_site p site s =
      if ltb trampoline_size site.copy_op_size
      then (breaks, s)
      else if p.naked_trampoline
      then hook_naked p site s
      else hook_plain p site s

  -- `HandleFunctionPatch`
  unfoldable pub handle_function_patch : FunctionPatch → ℕ → PatchState → Status × PatchState
  handle_function_patch p base s =
      let address = (if p.virtual_address then p.source else add32 base p.source) in
      if p.target == 0 || p.source == image_invalid_rva
      then (success, s)
      else elim (get_size_of_hook_op_size p.hook_op) [
        | none ↦ (buffer_too_small, s)
        | some n ↦
            elim (get_hook_address_and_size (get_op_code_size s.memory) s.memory fuel address n) [
              | found a size ↦
                  hook_site p (record { hook_op_size = n; at = a; copy_op_size = size }) s
              | too_far ↦ (buffer_too_small, s)
              | endless ↦ (unfinished, s)
            ]
      ]

  unfoldable pub handle_patch : PatchData → ℕ → PatchState → Status × PatchState
  handle_patch (memory_patch p) base s =
      let r = handle_memory_patch protect_memory allocate p base s in (r.0, r.2)
  handle_patch (function_patch p) base s = handle_function_patch p base s
  handle_patch other base s = (not_implemented, s)

  -- `PatchMemory`, without the changes to the patches themselves
  unfoldable pub patch_memory : List PatchData → ℕ → PatchState → Status × PatchState
  patch_memory [] base s = (success, s)
  patch_memory (p ∷ ps) base s =
      let r = handle_patch p base s in
      elim r.0 [ success ↦ patch_memory ps base r.1 | e ↦ (e, r.1) ]

-- `FunctionPatch`, of a word of flags
unfoldable pub function_patch_of : ℕ → ℕ → ℕ → ℕ → FunctionPatch
function_patch_of source target trampoline flags = record {
  virtual_address = flags % 2 == 1;
  do_not_disassemble = flags / 2 % 2 == 1;
  naked_trampoline = flags / 4 % 2 == 1;
  keep_raw_trampoline = flags / 8 % 2 == 1;
  execute_trampoline = flags / 16 % 2 == 1;
  hook_op = flags / 0x10000000 % 0x10 * 0x10000000;
  source = source;
  target = target;
  trampoline = trampoline;
}

-- `FunctionJumpVa` with its default flags
unfoldable pub function_jump_va : ℕ → ℕ → ℕ → FunctionPatch
unfolding function_patch_of
function_jump_va source target trampoline = function_patch_of source target trampoline 1
