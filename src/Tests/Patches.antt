-- ===== src/Tests/Patches.antt =====
-- Hooks of a small function.
use fvploader.Prelude.{
  ℕ, ◌-◌, ◌^◌, ◌≤◌, ◌<◌, ◌≡◌, ◌≢◌, refl, Bool, true, false, ◌==◌, ltb, if◌then◌else◌, inl, inr, ◌⊎◌,
  none, some, Option, List, [], ◌∷◌, ◌++◌, take, replicate, of_bytes, dword_bytes, arith,
}
use fvploader.Patch.Memory.{Memory, peek, poke, destination}
use fvploader.Patch.Code.{op_jump, get_size_of_hook_op_size, generate_hook_code, generate_jump_back}
use fvploader.Patch.Code.Lands.{IsHookOp}
use fvploader.Patch.Copy.{relative_form, copy_one_op_code, copy_trampoline_stub}
use fvploader.Patch.Copy.Keeps.{copy_one_op_code-destination}
use fvploader.Patch.Walk.{
  found, endless, next_op, short_jump_step, walk_step, walk, get_hook_address_and_size,
}
use fvploader.Patch.Walk.Covered.{IsCopied, get_hook_address_and_size-copy_trampoline_stub}
use fvploader.Patch.Walk.Ends.{leads_here, leads_short, get_hook_address_and_size-finishes}
use fvploader.Patch.Manager.{
  Status, not_implemented, success, access_denied, TrampolineData, PatchState, data_at,
}
use fvploader.Patch.Manager.Function.{
  PatchData, function_patch, other, handle_patch, patch_memory, FunctionPatch, plain_trampoline,
  write_hook, finish, hook_plain, hook_site, handle_function_patch,
}
use fvploader.Patch.Manager.Restored.{IsRestored}
use fvploader.Patch.Manager.Hooked.{
  handle_function_patch-restore_trampoline, handle_function_patch-freed,
}
use fvploader.Patch.Manager.Twice.{plain_trampoline-destination}
use fvploader.Patch.Manager.Failed.{Succeeds, patch_memory-failure}
use fvploader.Patch.Manager.Landing.{IsLanded, handle_function_patch-destination}

-- At 0x1000 a short jump to 0x1010, and there `push ebp; mov ebp, esp; sub esp, 0x10; jmp $`.
abbrev program : Memory
program =
    poke (poke (λ _. 0x90) 0x1000 (0xEB ∷ 0x0E ∷ [])) 0x1010
      (0x55 ∷ 0x8B ∷ 0xEC ∷ 0x83 ∷ 0xEC ∷ 0x10 ∷ 0xEB ∷ 0xFE ∷ [])

abbrev op_sizes : ℕ → ℕ
op_sizes a =
    if a == 0x1000
    then 2
    else if a == 0x1011
    then 2
    else if a == 0x1013
    then 3
    else if a == 0x1016
    then 2
    else 1

op_sizes_pos : (a : ℕ) → 0 < op_sizes a
op_sizes_pos a = ground arith

abbrev start : PatchState
start = record { memory = program; slots = λ _. 0; trampoline_list = []; freed = [] }

abbrev jump_patch : FunctionPatch
jump_patch = record {
  virtual_address = true;
  do_not_disassemble = false;
  naked_trampoline = false;
  keep_raw_trampoline = false;
  execute_trampoline = false;
  hook_op = op_jump;
  source = 0x1000;
  target = 0x5000;
  trampoline = 0x7000;
}

-- Every page but the last can be written.
abbrev writable : ℕ → ℕ → Bool
writable a n = ltb a (2 ^ 32 - 1)

abbrev read_only : ℕ → ℕ → Bool
read_only a n = false

-- A heap of one block.
abbrev one_block : List TrampolineData → Option ℕ
one_block [] = some 0x9000
one_block (d ∷ ds) = none

one_block_fresh :
    (ds : List TrampolineData) (t : ℕ) → one_block ds ≡ some t → (t ≢ 0) × (data_at t ds ≡ none)
unfolding data_at
one_block_fresh [] t e = (ground arith, refl)
one_block_fresh (d ∷ ds) t e = ground arith

abbrev stack_bytes : List ℕ
stack_bytes = replicate 0x40 0xCC

abbrev after_jump : PatchState
after_jump =
    (handle_function_patch 9 (λ m. op_sizes) writable one_block stack_bytes jump_patch 0 start).1

jump_succeeds :
    handle_function_patch 9 (λ m. op_sizes) writable one_block stack_bytes jump_patch 0 start
    ≡ (success, after_jump)
unfolding handle_function_patch get_size_of_hook_op_size get_hook_address_and_size walk walk_step
    short_jump_step next_op hook_site hook_plain finish write_hook generate_hook_code
    plain_trampoline copy_trampoline_stub copy_one_op_code relative_form generate_jump_back
    dword_bytes
jump_succeeds = refl

handle_function_patch-restore_trampoline_example :
    IsRestored writable one_block jump_patch start after_jump
handle_function_patch-restore_trampoline_example =
    handle_function_patch-restore_trampoline 9 (λ m. op_sizes) writable one_block stack_bytes
      jump_patch 0 start after_jump refl (omega arith) (omega arith) (omega arith) (inr refl)
      one_block_fresh (λ n. refl) jump_succeeds

op_jump-IsHookOp : IsHookOp op_jump
op_jump-IsHookOp = (0, omega arith, refl)

handle_function_patch-destination_example :
    IsLanded 9 (λ m. op_sizes) writable one_block stack_bytes jump_patch 0 start after_jump
handle_function_patch-destination_example =
    handle_function_patch-destination 9 (λ m. op_sizes) writable one_block stack_bytes jump_patch 0
      start after_jump op_jump-IsHookOp (omega arith) (omega arith) (omega arith) refl refl
      jump_succeeds

abbrev after_refusal : PatchState
after_refusal =
    (handle_function_patch 9 (λ m. op_sizes) read_only one_block stack_bytes jump_patch 0 start).1

jump_is_refused :
    handle_function_patch 9 (λ m. op_sizes) read_only one_block stack_bytes jump_patch 0 start
    ≡ (access_denied, after_refusal)
unfolding handle_function_patch get_size_of_hook_op_size get_hook_address_and_size walk walk_step
    short_jump_step next_op hook_site hook_plain finish write_hook generate_hook_code
    plain_trampoline copy_trampoline_stub copy_one_op_code relative_form generate_jump_back
    dword_bytes
jump_is_refused = refl

handle_function_patch-freed_example :
    (d : TrampolineData) × (after_refusal.memory ≡ start.memory)
    × (after_refusal.trampoline_list ≡ [] ++ d ∷ [])
    × (after_refusal.slots 0x7000 ≡ d.address)
    × (after_refusal.freed ≡ d.address ∷ [])
handle_function_patch-freed_example =
    handle_function_patch-freed 9 (λ m. op_sizes) read_only one_block stack_bytes jump_patch 0 start
      after_refusal (omega arith) (omega arith) (omega arith) (inr refl) jump_is_refused

-- The jump at 0x1000 is copied to 0x3000.
jump_goes : destination 0x1000 (peek program 0x1000 2) ≡ some 0x1010
unfolding destination
jump_goes = refl

copy_one_op_code-destination_example :
    destination 0x3000 (copy_one_op_code program 0x3000 0x1000 2 2 0) ≡ some 0x1010
copy_one_op_code-destination_example =
    copy_one_op_code-destination program 0x3000 0x1000 2 2 0 0x1010 (inr (inl (refl, refl)))
      jump_goes (omega arith) (omega arith) (omega arith) (inr (omega arith))

function_found : get_hook_address_and_size op_sizes program 9 0x1000 5 ≡ found 0x1010 6
unfolding get_hook_address_and_size walk walk_step short_jump_step next_op
function_found = refl

get_hook_address_and_size-copy_trampoline_stub_example :
    (5 ≤ 6)
    × ((copy_trampoline_stub op_sizes 7 program 0x3000 0x1010 6 6 0).1 ≡ true)
    × IsCopied op_sizes program 0x1010 6 0x3000 6 0
        (copy_trampoline_stub op_sizes 7 program 0x3000 0x1010 6 6 0).0
get_hook_address_and_size-copy_trampoline_stub_example =
    get_hook_address_and_size-copy_trampoline_stub op_sizes program 9 0x1000 5 0x1010 6 0x3000 7
      op_sizes_pos function_found (omega arith)

get_hook_address_and_size-finishes_example :
    get_hook_address_and_size op_sizes program 7 0x1000 5 ≢ endless
get_hook_address_and_size-finishes_example =
    get_hook_address_and_size-finishes op_sizes program 5 1 0x1000 0x1010 7 op_sizes_pos
      (leads_short 0 0x1000 0x1010 refl (omega arith)
        (leads_here 0x1010 (inl (omega arith)) (inl (omega arith))))
      (omega arith)

-- A jump to itself is followed for ever.
jump_to_itself : get_hook_address_and_size op_sizes program 20 0x1016 5 ≡ endless
unfolding get_hook_address_and_size walk walk_step short_jump_step next_op
jump_to_itself = refl

-- At 0x1000 a jump to 0x5000.
abbrev hooked_program : Memory
hooked_program = poke program 0x1000 (0xE9 ∷ 0xFB ∷ 0x3F ∷ 0 ∷ 0 ∷ [])

hook_goes : destination 0x1000 (peek hooked_program 0x1000 5) ≡ some 0x5000
unfolding destination of_bytes
hook_goes = refl

plain_trampoline-destination_example :
    destination 0x9000 (
      take 5 (
        plain_trampoline 2
          (λ m a. 5)
          writable
          one_block
          stack_bytes
          jump_patch
          (record { hook_op_size = 5; at = 0x1000; copy_op_size = 5 })
          0x9000
          hooked_program))
    ≡ some 0x5000
plain_trampoline-destination_example =
    plain_trampoline-destination 2 (λ m a. 5) writable one_block stack_bytes jump_patch
      hooked_program 0x1000 0x9000 0x5000 (omega arith) (omega arith) refl refl hook_goes
      (omega arith) (inr (omega arith))

-- A patch of no known type stands behind the jump.
abbrev two_patches : List PatchData
two_patches = function_patch jump_patch ∷ other ∷ []

patch_memory-failure_example :
    ((u : PatchState) × (patch_memory 9
          (λ m. op_sizes)
          writable
          one_block
          stack_bytes
          two_patches
          0
          start
        ≡ (success, u))
      × Succeeds 9 (λ m. op_sizes) writable one_block stack_bytes two_patches 0 start u)
    ⊎ ((r : Status) × (after : PatchState) × (before : List PatchData) × (p : PatchData)
        × (behind : List PatchData) × (u : PatchState) × (patch_memory 9
              (λ m. op_sizes)
              writable
              one_block
              stack_bytes
              two_patches
              0
              start
            ≡ (r, after))
        × (r ≢ success)
        × (two_patches ≡ before ++ p ∷ behind)
        × Succeeds 9 (λ m. op_sizes) writable one_block stack_bytes before 0 start u
        × (handle_patch 9 (λ m. op_sizes) writable one_block stack_bytes p 0 u ≡ (r, after)))
patch_memory-failure_example =
    patch_memory-failure 9 (λ m. op_sizes) writable one_block stack_bytes two_patches 0 start

-- The second of the patches is the one that fails.
second_fails :
    patch_memory 9 (λ m. op_sizes) writable one_block stack_bytes two_patches 0 start
    ≡ (not_implemented, after_jump)
unfolding patch_memory handle_patch handle_function_patch get_size_of_hook_op_size
    get_hook_address_and_size walk walk_step short_jump_step next_op hook_site hook_plain finish
    write_hook generate_hook_code plain_trampoline copy_trampoline_stub copy_one_op_code
    relative_form generate_jump_back dword_bytes
second_fails = refl
