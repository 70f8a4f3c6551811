-- ===== src/Patch/Walk/Ends.antt =====
-- When the walk ends.
use fvploader.Prelude.{
  ℕ, zero, suc, ◌+◌, ◌≤◌, ◌<◌, ◌≡◌, ◌≢◌, refl, ◌⊎◌, inl, inr, arith, add32, sign_extended,
}
use fvploader.Patch.Memory.{Memory, dword_at}
use fvploader.Patch.Walk.{
  HookWalk, WalkResult, found, endless, returns, goes_on, next_op, moved_to, short_jump_step,
  indirect_jump_step, walk_step, walk, get_hook_address_and_size,
}

module _ (get_op_code_size : ℕ → ℕ) (m : Memory) (hook_op_size : ℕ) where
  -- `k` jumps lead from an address to another, at which there is neither a short jump that moves nor
  -- a `jmp [imm]` that is shorter than the hook.
  pub data Leads : ℕ → ℕ → ℕ → Type 0 where
    leads_here :
        (a : ℕ)
        → (m a ≢ 0xEB) ⊎ (m (a + 1) ≡ 0)
        → (m a ≢ 0xFF) ⊎ ((m (a + 1) ≢ 0x25) ⊎ (hook_op_size ≤ get_op_code_size a))
        → Leads 0 a a
    leads_short :
        (k a b : ℕ)
        → m a ≡ 0xEB
        → m (a + 1) ≢ 0
        → Leads k (add32 (a + get_op_code_size a) (sign_extended (m (a + 1)))) b
        → Leads (suc k) a b
    leads_indirect :
        (k a b : ℕ)
        → m a ≡ 0xFF
        → m (a + 1) ≡ 0x25
        → get_op_code_size a < hook_op_size
        → Leads k (dword_at m (dword_at m (a + 2))) b
        → Leads (suc k) a b

  -- Behind the first instruction, a turn ends the walk or passes an instruction.
  walk_step_behind :
      (s : HookWalk)
      → 0 < s.op_size
      → (walk_step get_op_code_size m hook_op_size s ≡ goes_on (next_op get_op_code_size m s))
          × (s.op_size < hook_op_size)
        ⊎ ((r : WalkResult) × (walk_step get_op_code_size m hook_op_size s ≡ returns r)
            × (r ≢ endless))
  unfolding walk_step short_jump_step indirect_jump_step
  walk_step_behind s h = ground arith

  -- The first instruction, when it does not lead away.
  walk_step_here :
      (s : HookWalk)
      → s.op_size ≡ 0
      → (m s.buffer ≢ 0xEB) ⊎ (m (s.buffer + 1) ≡ 0)
      → (m s.buffer ≢ 0xFF)
        ⊎ ((m (s.buffer + 1) ≢ 0x25) ⊎ (hook_op_size ≤ get_op_code_size s.buffer))
      → (walk_step get_op_code_size m hook_op_size s ≡ goes_on (next_op get_op_code_size m s))
          × (s.op_size < hook_op_size)
        ⊎ ((r : WalkResult) × (walk_step get_op_code_size m hook_op_size s ≡ returns r)
            × (r ≢ endless))
  unfolding walk_step short_jump_step indirect_jump_step
  walk_step_here s h eb ff = ground arith

  -- A jump at the first instruction is followed, or the hook is empty.
  walk_step_short :
      (a : ℕ)
      → m a ≡ 0xEB
      → m (a + 1) ≢ 0
      → (let start : HookWalk = record { buffer = a; final_address = a; op_size = 0 } in
          (walk_step get_op_code_size m hook_op_size start
            ≡ goes_on (
                moved_to get_op_code_size m start
                  (add32 (a + get_op_code_size a) (sign_extended (m (a + 1))))))
          ⊎ (walk_step get_op_code_size m hook_op_size start ≡ returns (found a 0)))
  unfolding walk_step short_jump_step
  walk_step_short a eb moves = ground arith

  walk_step_indirect :
      (a : ℕ)
      → m a ≡ 0xFF
      → m (a + 1) ≡ 0x25
      → get_op_code_size a < hook_op_size
      → (let start : HookWalk = record { buffer = a; final_address = a; op_size = 0 } in
          walk_step get_op_code_size m hook_op_size start
          ≡ goes_on (moved_to get_op_code_size m start (dword_at m (dword_at m (a + 2)))))
  unfolding walk_step indirect_jump_step
  walk_step_indirect a ff modrm less = ground arith

  walk_behind :
      (fuel : ℕ) (s : HookWalk)
      → ((x : ℕ) → 0 < get_op_code_size x)
      → 0 < s.op_size
      → 0 < fuel
      → hook_op_size < fuel + s.op_size
      → walk get_op_code_size m fuel hook_op_size s ≢ endless
  unfolding walk next_op
  walk_behind zero s pos h f enough e = absurd (omega arith)
  walk_behind (suc fuel) s pos h f enough e =
      let some_size : 0 < get_op_code_size s.buffer = pos s.buffer in
      elim (walk_step_behind s h) [
        | inr (r, step, done) ↦ done (ground (arith, step))
        | inl (step, less) ↦
            walk_behind fuel (next_op get_op_code_size m s) pos (omega arith) (omega arith)
              (omega arith) (ground (arith, step))
      ]

  -- The walk from an address returns, given more fuel than the hook has bytes and jumps lead on from
  -- the address, if the disassembler gives no instruction of length 0. The jumps that lead on are short
  -- jumps that move and `jmp [imm]` shorter than the hook, and end where there is neither.
  pub get_hook_address_and_size-finishes :
      (k a b fuel : ℕ)
      → ((x : ℕ) → 0 < get_op_code_size x)
      → Leads k a b
      → k + hook_op_size < fuel
      → get_hook_address_and_size get_op_code_size m fuel a hook_op_size ≢ endless
  unfolding get_hook_address_and_size walk next_op
  get_hook_address_and_size-finishes k a b zero pos leads enough e = absurd (omega arith)
  get_hook_address_and_size-finishes _ a _ (suc fuel) pos (leads_here _ eb ff) enough e =
      let some_size : 0 < get_op_code_size a = pos a in
      let start : HookWalk = record { buffer = a; final_address = a; op_size = 0 } in
      elim (walk_step_here start refl eb ff) [
        | inr (r, step, done) ↦ done (ground (arith, step))
        | inl (step, less) ↦
            walk_behind fuel (next_op get_op_code_size m start) pos (omega arith) (omega arith)
              (omega arith) (ground (arith, step))
      ]
  get_hook_address_and_size-finishes _ a b (suc fuel) pos (leads_short k _ _ eb moves leads) enough
        e =
      let rest : get_hook_address_and_size get_op_code_size m fuel _ hook_op_size ≢ endless =
        get_hook_address_and_size-finishes k
          (add32 (a + get_op_code_size a) (sign_extended (m (a + 1)))) b fuel pos leads
          (omega arith) in
      elim (walk_step_short a eb moves) [
        | inl step ↦ rest (ground (arith, step))
        | inr step ↦ ground (arith, step)
      ]
  get_hook_address_and_size-finishes _ a b (suc fuel) pos (leads_indirect k _ _ ff modrm less leads)
        enough e =
      get_hook_address_and_size-finishes k (dword_at m (dword_at m (a + 2))) b fuel pos leads
        (omega arith) (ground (arith, walk_step_indirect a ff modrm less))
