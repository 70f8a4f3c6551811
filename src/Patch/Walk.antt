-- ===== src/Patch/Walk.antt =====
-- `GetHookAddressAndSize`: which instructions a hook replaces. Addresses are taken not to wrap inside
-- an instruction and the instructions that are copied.
pub mod Covered
pub mod Ends
use fvploader.Prelude.{
  ℕ, zero, suc, ◌+◌, ◌-◌, ◌*◌, ◌/◌, ◌%◌, ◌^◌, Bool, true, false, ◌==◌, ◌&&◌, ◌||◌, ltb, leb,
  if◌then◌else◌, add32, sub32, sign_extended,
}
use fvploader.Patch.Memory.{Memory, dword_at}

-- the variables of the loop
pub record HookWalk : Type 0 where
  pub buffer : ℕ
  pub final_address : ℕ
  pub op_size : ℕ

-- what the function returns; `too_far` is `STATUS_BUFFER_TOO_SMALL`, `endless` is fuel that ran out
pub data WalkResult : Type 0 where
  found : ℕ → ℕ → WalkResult
  too_far endless : WalkResult

-- what a turn of the loop does
pub data WalkStep : Type 0 where
  returns : WalkResult → WalkStep
  goes_on : HookWalk → WalkStep

module _ (get_op_code_size : ℕ → ℕ) (m : Memory) where
  -- the end of the body
  unfoldable pub next_op : HookWalk → HookWalk
  next_op s = record {
    buffer = s.buffer + get_op_code_size (s.buffer);
    final_address = s.final_address;
    op_size = s.op_size + get_op_code_size (s.buffer);
  }

  -- `*FinalAddress = Buffer; continue`
  abbrev pub moved_to : HookWalk → ℕ → HookWalk
  moved_to s address = record { buffer = address; final_address = address; op_size = s.op_size }

  -- a short jump
  unfoldable pub short_jump_step : ℕ → HookWalk → WalkStep
  short_jump_step hook_op_size s =
      let op_length = get_op_code_size (s.buffer) in
      let displacement = m (s.buffer + 1) in
      if s.op_size == 0
      then if displacement == 0
        then goes_on (next_op s)
        else goes_on (moved_to s (add32 (s.buffer + op_length) (sign_extended displacement)))
      else if ltb (s.op_size) (sub32 hook_op_size op_length)
      then returns too_far
      else goes_on (next_op s)

  -- `jmp [rimm]`
  unfoldable pub indirect_jump_step : ℕ → HookWalk → WalkStep
  indirect_jump_step hook_op_size s =
      let op_length = get_op_code_size (s.buffer) in
      if (if s.op_size == 0 then false else ltb (s.op_size + op_length) hook_op_size)
      then returns too_far
      else if s.op_size == 0 && ltb op_length hook_op_size
      then goes_on (moved_to s (dword_at m (dword_at m (s.buffer + 2))))
      else goes_on (next_op s)

  -- A turn of the loop, its condition first.
  unfoldable pub walk_step : ℕ → HookWalk → WalkStep
  walk_step hook_op_size s =
      let op_code = m (s.buffer) in
      if leb hook_op_size (s.op_size)
      then returns (found (s.final_address) (s.op_size))
      else if op_code == 0xC2 || op_code == 0xC3
      then returns too_far
      else if op_code == 0xEB
      then short_jump_step hook_op_size s
      else if op_code == 0xFF && m (s.buffer + 1) == 0x25
      then indirect_jump_step hook_op_size s
      else goes_on (next_op s)

  -- the loop, on fuel
  unfoldable pub walk : ℕ → ℕ → HookWalk → WalkResult
  walk zero hook_op_size s = endless
  walk (suc fuel) hook_op_size s = elim (walk_step hook_op_size s) [
    | returns r ↦ r
    | goes_on next ↦ walk fuel hook_op_size next
  ]

  -- `GetHookAddressAndSize`
  unfoldable pub get_hook_address_and_size : ℕ → ℕ → ℕ → WalkResult
  get_hook_address_and_size fuel address hook_op_size =
      walk fuel hook_op_size (record { buffer = address; final_address = address; op_size = 0 })
