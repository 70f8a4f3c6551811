-- ===== src/Patch/Copy.antt =====
-- `CopyOneOpCode` and `CopyTrampolineStub`. The length disassembler behind `GetOpCodeSize` is a
-- library: a parameter, from an address to the number of bytes of the instruction there.
pub mod Keeps
use fvploader.Prelude.{
  ℕ, zero, suc, ◌+◌, ◌-◌, ◌*◌, ◌/◌, ◌%◌, ◌^◌, Bool, true, false, ◌==◌, ◌&&◌, ◌||◌, ltb, leb,
  if◌then◌else◌, Option, none, some, List, [], ◌∷◌, ◌++◌, length, dword_bytes, add32, sub32,
  sign_extended,
}
use fvploader.Patch.Memory.{Memory, peek, dword_at}

-- The new operation code of a relative branch and its displacement; `none` is `DEFAULT_OP_CODE`.
unfoldable pub relative_form : Memory → ℕ → Option (List ℕ × ℕ)
relative_form m source =
    let op_code = m source in
    let next = m (source + 1) in
    if op_code / 16 == 7
    then some (0x0F ∷ (0x80 + (op_code - 0x70)) ∷ [], sign_extended next)
    else if op_code == 0xEB
    then some (0xE9 ∷ [], sign_extended next)
    else if op_code == 0xE8 || op_code == 0xE9
    then some (op_code ∷ [], dword_at m (source + 1))
    else if op_code == 0x0F && next / 16 == 8
    then some (op_code ∷ next ∷ [], dword_at m (source + 2))
    else none

-- whether a displacement from the instruction's address stays in the bytes that are copied
unfoldable pub is_inside : ℕ → ℕ → ℕ → Bool
is_inside new_offset forward_size backward_size =
    if leb (2 ^ 31) new_offset
    then ltb (2 ^ 32 - new_offset) backward_size
    else ltb new_offset forward_size

-- `CopyOneOpCode`, of an instruction of `op_length` bytes, with its default `TargetIp`: what is written at `target`, whose
-- length is `TargetOpLength`.
unfoldable pub copy_one_op_code : Memory → ℕ → ℕ → ℕ → ℕ → ℕ → List ℕ
copy_one_op_code m target source op_length forward_size backward_size =
    elim (relative_form m source) [
      | none ↦ peek m source op_length
      | some (op_code, op_offset) ↦
          if is_inside (add32 op_length op_offset) forward_size backward_size
          then peek m source op_length
          else op_code
            ++ dword_bytes (sub32 (source + op_length + op_offset) (target + length op_code + 4))
    ]

module _ (get_op_code_size : ℕ → ℕ) where
  -- `CopyTrampolineStub`, on fuel: the code that is written, and whether the status is
  -- `STATUS_SUCCESS` and not `STATUS_BUFFER_TOO_SMALL`. `bytes` is what is left to copy.
  unfoldable pub copy_trampoline_stub : ℕ → Memory → ℕ → ℕ → ℕ → ℕ → ℕ → List ℕ × Bool
  copy_trampoline_stub zero m target source bytes forward_size backward_size = ([], bytes == 0)
  copy_trampoline_stub (suc fuel) m target source bytes forward_size backward_size =
      let op_length = get_op_code_size source in
      let code = copy_one_op_code m target source op_length forward_size backward_size in
      let rest =
        copy_trampoline_stub fuel m (target + length code) (source + op_length) (bytes - op_length)
          (forward_size - op_length) (backward_size + op_length) in
      if bytes == 0
      then ([], true)
      else if m source == 0xC2 || m source == 0xC3
      then ([], false)
      else (code ++ rest.0, rest.1)
