-- ===== src/Patch/Code.antt =====
-- The code that `GenerateHookCode`, `PatchNop`, `GenerateJumpBack` and `GenerateNakedTrampoline`
-- write, and `GetSizeOfHookOpSize`.
pub mod Lands
use fvploader.Prelude.{
  ℕ, zero, suc, ◌+◌, ◌-◌, ◌*◌, ◌/◌, ◌%◌, ◌^◌, Bool, true, false, not, ◌==◌, ◌&&◌, ◌||◌, ltb, leb,
  if◌then◌else◌, Option, none, some, List, [], ◌∷◌, ◌++◌, of_bytes, dword_bytes, sub32, add32,
}
use fvploader.Patch.Memory.{Memory, dword_at}

-- the values under `OpMask`
abbrev pub op_jump : ℕ
op_jump = 0

abbrev pub op_call : ℕ
op_call = 0x10000000

abbrev pub op_push : ℕ
op_push = 0x20000000

abbrev pub op_jrax : ℕ
op_jrax = 0x30000000

abbrev pub op_jrdi : ℕ
op_jrdi = 0x90000000

-- `GetSizeOfHookOpSize`; `none` is `ULONG_PTR_MAX`.
unfoldable pub get_size_of_hook_op_size : ℕ → Option ℕ
get_size_of_hook_op_size hook_op =
    if hook_op == op_push
    then some 6
    else if hook_op == op_call || hook_op == op_jump
    then some 5
    else if leb op_jrax hook_op && leb hook_op op_jrdi
    then some 7
    else none

-- `GenerateHookCode`, of a word `hook_op`; `none` is `STATUS_INVALID_PARAMETER`. The index of the
-- register is cut to a byte and added to the whole of `0xE0FF`.
unfoldable pub generate_hook_code : ℕ → ℕ → ℕ → ℕ → Option (List ℕ)
generate_hook_code source_ip target hook_op hook_op_size =
    let index = hook_op - op_jrax in
    if hook_op == op_call || hook_op == op_jump
    then some (
        (if hook_op == op_call then 0xE8 else 0xE9)
        ∷ dword_bytes (sub32 target (source_ip + hook_op_size)))
    else if hook_op == op_push
    then some (0x68 ∷ (dword_bytes target ++ 0xC3 ∷ []))
    else if ltb hook_op op_jrax || ltb op_jrdi hook_op
    then none
    else some (
        ((0xB8 + index % 256) % 256)
        ∷ (dword_bytes target ++ ((0xE0FF + index) % 256) ∷ ((0xE0FF + index) / 256 % 256) ∷ []))

-- `PatchNop`; above seven bytes nothing is written.
unfoldable pub nop_bytes : ℕ → List ℕ
nop_bytes n =
    if n == 1
    then 0x90 ∷ []
    else if n == 2
    then 0x8B ∷ 0xC0 ∷ []
    else if n == 3
    then 0x8D ∷ 0x40 ∷ 0x00 ∷ []
    else if n == 4
    then 0x8D ∷ 0x74 ∷ 0x26 ∷ 0x00 ∷ []
    else if n == 5
    then 0x8B ∷ 0xC0 ∷ 0x8D ∷ 0x40 ∷ 0x00 ∷ []
    else if n == 6
    then 0x8D ∷ 0x80 ∷ 0 ∷ 0 ∷ 0 ∷ 0 ∷ []
    else if n == 7
    then 0x8D ∷ 0xB4 ∷ 0x26 ∷ 0 ∷ 0 ∷ 0 ∷ 0 ∷ []
    else []

-- `GenerateJumpBack`: `jmp [imm32]`, and the two zero bytes that the pointer goes too far
unfoldable pub generate_jump_back : ℕ → List ℕ
generate_jump_back address_of_jump_address =
    0xFF ∷ 0x25 ∷ (dword_bytes address_of_jump_address ++ 0 ∷ 0 ∷ [])

-- `GetCallDestination`
unfoldable pub get_call_destination : Memory → ℕ → ℕ
get_call_destination m buffer = add32 (dword_at m (buffer + 1) + buffer) 5

-- The code of `GenerateNakedTrampoline` between the copied stubs, with the return address that its
-- `mov eax, imm` loads. `push eax` comes first unless the hook is a call.
unfoldable pub naked_code : ℕ → ℕ → ℕ → List ℕ
naked_code hook_op return_address target =
    (if hook_op == op_call then [] else 0x50 ∷ [])
    ++ (0x54 ∷ 0x50 ∷ 0x51 ∷ 0x52 ∷ 0x53 ∷ 0x55 ∷ 0x56 ∷ 0x57 ∷ 0x9C ∷ [])
    ++ (0xB8 ∷ dword_bytes return_address)
    ++ (0x89 ∷ 0x44 ∷ 0x24 ∷ 0x24 ∷ [])
    ++ (0xB8 ∷ dword_bytes target)
    ++ (0x8D ∷ 0x0C ∷ 0x24 ∷ 0xFF ∷ 0xD0 ∷ [])
    ++ (0x9D ∷ 0x5F ∷ 0x5E ∷ 0x5D ∷ 0x5B ∷ 0x5A ∷ 0x59 ∷ 0x58 ∷ 0x5C ∷ [])
    ++ (0xC3 ∷ [])
