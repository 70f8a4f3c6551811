-- ===== src/Patch/Walk/Covered.antt =====
-- The instructions that the walk finds, and their copy.
use fvploader.Prelude.{
  ℕ, zero, suc, ◌+◌, ◌-◌, ◌≤◌, ◌<◌, ◌≡◌, ◌≢◌, refl, sym, ap, subst, subst₂, ◌⊎◌, inl, inr, true,
  List, [], ◌++◌, length, arith,
}
use fvploader.Patch.Memory.{Memory}
use fvploader.Patch.Copy.{copy_one_op_code, copy_trampoline_stub}
use fvploader.Patch.Walk.{
  HookWalk, WalkStep, WalkResult, found, returns, goes_on, next_op, short_jump_step,
  indirect_jump_step, walk_step, walk, get_hook_address_and_size,
}

module _ (get_op_code_size : ℕ → ℕ) (m : Memory) where
  -- `n` bytes from `a` are whole instructions, of which none returns.
  pub data Covers : ℕ → ℕ → Type 0 where
    covers_none : (a : ℕ) → Covers a 0
    covers_op :
        (a n k : ℕ)
        → m a ≢ 0xC2
        → m a ≢ 0xC3
        → k ≡ get_op_code_size a + n
        → Covers (a + get_op_code_size a) n
        → Covers a k

  -- A text of code is the copies that `CopyOneOpCode` makes of the whole instructions of `n` bytes from
  -- `a`, one behind the other from `target` on, each with the bytes that are copied from it on and before it.
  pub data IsCopied : ℕ → ℕ → ℕ → ℕ → ℕ → List ℕ → Type 0 where
    copied_none :
        (a target forward_size backward_size : ℕ)
        → IsCopied a 0 target forward_size backward_size []
    copied_op :
        (a n k target forward_size backward_size : ℕ) (code rest : List ℕ)
        → k ≡ get_op_code_size a + n
        → code ≡ copy_one_op_code m target a (get_op_code_size a) forward_size backward_size ++ rest
        → IsCopied
            (a + get_op_code_size a)
            n
            (target
              + length
                  (copy_one_op_code m target a (get_op_code_size a) forward_size backward_size))
            (forward_size - get_op_code_size a)
            (backward_size + get_op_code_size a)
            rest
        → IsCopied a k target forward_size backward_size code

  -- The instructions of a walk, up to where it stands.
  abbrev IsAhead : HookWalk → Type 0
  IsAhead s = (s.buffer ≡ s.final_address + s.op_size) × Covers s.final_address s.op_size

  -- A turn that goes on passes an instruction, or moves to where no instruction is passed yet.
  walk_step-goes_on :
      (hook_op_size : ℕ) (s next : HookWalk)
      → walk_step get_op_code_size m hook_op_size s ≡ goes_on next
      → ((next ≡ next_op get_op_code_size m s) × (m s.buffer ≢ 0xC2) × (m s.buffer ≢ 0xC3))
        ⊎ ((next.op_size ≡ 0) × (next.buffer ≡ next.final_address))
  unfolding walk_step short_jump_step indirect_jump_step
  walk_step-goes_on hook_op_size s next e = ground arith

  walk_step-found :
      (hook_op_size : ℕ) (s : HookWalk) (a n : ℕ)
      → walk_step get_op_code_size m hook_op_size s ≡ returns (found a n)
      → (a ≡ s.final_address) × (n ≡ s.op_size) × (hook_op_size ≤ n)
  unfolding walk_step short_jump_step indirect_jump_step
  walk_step-found hook_op_size s a n e = ground arith

  -- One more instruction behind those that are there.
  Covers-snoc :
      (a n b : ℕ)
      → b ≡ a + n
      → m b ≢ 0xC2
      → m b ≢ 0xC3
      → Covers a n
      → Covers a (n + get_op_code_size b)
  Covers-snoc a _ b e c2 c3 (covers_none _) =
      let same : b ≡ a = omega arith in
      let size : 0 + get_op_code_size b ≡ get_op_code_size a + 0 =
        omega (arith, ap get_op_code_size same) in
      covers_op a 0 (0 + get_op_code_size b) (subst (λ x. m x ≢ 0xC2) same c2)
        (subst (λ x. m x ≢ 0xC3) same c3) size (covers_none (a + get_op_code_size a))
  Covers-snoc a k b e c2 c3 (covers_op _ n _ no2 no3 f c) =
      covers_op a (n + get_op_code_size b) (k + get_op_code_size b) no2 no3 (omega arith)
        (Covers-snoc (a + get_op_code_size a) n b (omega arith) c2 c3 c)

  walk_step-cases :
      (w : WalkStep)
      → ((r : WalkResult) × (w ≡ returns r)) ⊎ ((next : HookWalk) × (w ≡ goes_on next))
  walk_step-cases (returns r) = inl (r, refl)
  walk_step-cases (goes_on next) = inr (next, refl)

  IsAhead-next :
      (hook_op_size : ℕ) (s next : HookWalk)
      → IsAhead s
      → walk_step get_op_code_size m hook_op_size s ≡ goes_on next
      → IsAhead next
  unfolding next_op
  IsAhead-next hook_op_size s next (at, c) e = elim (walk_step-goes_on hook_op_size s next e) [
    | inl (same, c2, c3) ↦
        subst IsAhead (sym same)
          (omega arith, Covers-snoc s.final_address s.op_size s.buffer at c2 c3 c)
    | inr (start, same) ↦ (
      omega arith,
      subst (Covers next.final_address) (sym start) (covers_none next.final_address),
    )
  ]

  -- What the walk gives has at least the size of the hook, and covers whole instructions, of which
  -- none is a `ret`.
  pub walk-Covers :
      (fuel hook_op_size : ℕ) (s : HookWalk) (a n : ℕ)
      → IsAhead s
      → walk get_op_code_size m fuel hook_op_size s ≡ found a n
      → (hook_op_size ≤ n) × Covers a n
  unfolding walk
  walk-Covers zero hook_op_size s a n ahead e = ground arith
  walk-Covers (suc fuel) hook_op_size s a n ahead e =
      elim (walk_step-cases (walk_step get_op_code_size m hook_op_size s)) [
        | inr (next, step) ↦
            walk-Covers fuel hook_op_size next a n (IsAhead-next hook_op_size s next ahead step)
              (ground (arith, step))
        | inl (r, step) ↦
            let (ea, en, le) = walk_step-found hook_op_size s a n (ground (arith, step)) in
            (le, subst₂ Covers (sym ea) (sym en) (ahead.1))
      ]

  -- The copy of instructions of which none returns succeeds, with more fuel than there are bytes.
  copy_trampoline_stub-Covers :
      (fuel target a n forward_size backward_size : ℕ)
      → ((x : ℕ) → 0 < get_op_code_size x)
      → n < fuel
      → Covers a n
      → (let r =
            copy_trampoline_stub get_op_code_size fuel m target a n forward_size backward_size in
          (r.1 ≡ true) × IsCopied a n target forward_size backward_size r.0)
  unfolding copy_trampoline_stub
  copy_trampoline_stub-Covers zero target a n forward_size backward_size pos h c =
      absurd (omega arith)
  copy_trampoline_stub-Covers (suc fuel) target a _ forward_size backward_size pos h
        (covers_none _) =
      (refl, copied_none a target forward_size backward_size)
  copy_trampoline_stub-Covers (suc fuel) target a k forward_size backward_size pos h
        (covers_op _ n _ no2 no3 e c) =
      let some_size : 0 < get_op_code_size a = pos a in
      let left : k - get_op_code_size a ≡ n = omega arith in
      let behind : ℕ =
        target
        + length (copy_one_op_code m target a (get_op_code_size a) forward_size backward_size) in
      let (done, copied) =
        copy_trampoline_stub-Covers fuel behind (a + get_op_code_size a) (k - get_op_code_size a)
          (forward_size - get_op_code_size a) (backward_size + get_op_code_size a) pos (omega arith)
          (subst (Covers (a + get_op_code_size a)) (sym left) c) in
      (
        ground (arith, done),
        copied_op a (k - get_op_code_size a) k target forward_size backward_size _ _ (omega arith)
            (ground arith) copied,
      )

  -- When `GetHookAddressAndSize` finds `n` bytes at `a` to replace, they are at least as many as the
  -- hook has, and `CopyTrampolineStub` succeeds on them: what it writes are the copies that
  -- `CopyOneOpCode` makes of the whole instructions of these `n` bytes, one behind the other. There is
  -- more fuel than bytes, and the disassembler gives no instruction of length 0.
  pub get_hook_address_and_size-copy_trampoline_stub :
      (fuel address hook_op_size a n target copy_fuel : ℕ)
      → ((x : ℕ) → 0 < get_op_code_size x)
      → get_hook_address_and_size get_op_code_size m fuel address hook_op_size ≡ found a n
      → n < copy_fuel
      → (hook_op_size ≤ n)
        × ((copy_trampoline_stub get_op_code_size copy_fuel m target a n n 0).1 ≡ true)
        × IsCopied a n target n 0
            (copy_trampoline_stub get_op_code_size copy_fuel m target a n n 0).0
  unfolding get_hook_address_and_size
  get_hook_address_and_size-copy_trampoline_stub fuel address hook_op_size a n target copy_fuel pos
        e h =
      let (le, c) = walk-Covers fuel hook_op_size _ a n (omega arith, covers_none address) e in
      let (done, copied) = copy_trampoline_stub-Covers copy_fuel target a n n 0 pos h c in
      (le, done, copied)
