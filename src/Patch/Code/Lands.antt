-- ===== src/Patch/Code/Lands.antt =====
-- The generated code goes to its target.
use fvploader.Prelude.{
  ℕ, zero, suc, ◌+◌, ◌*◌, ◌^◌, ◌≤◌, ◌<◌, ◌≡◌, refl, sym, ap, subst, ◌∙◌, some, List, [], ◌∷◌, ◌++◌,
  length, of_bytes, dword_bytes, of_bytes-dword_bytes, sub32, add32, arith,
}
use fvploader.Patch.Memory.{destination}
use fvploader.Patch.Code.{
  op_jump, op_call, op_push, op_jrax, get_size_of_hook_op_size, generate_hook_code,
}

-- The values that `OpMask` leaves: multiples of 2 ^ 28.
abbrev pub IsHookOp : ℕ → Type 0
IsHookOp op = (i : ℕ) × (i ≤ 9) × (op ≡ i * 0x10000000)

-- A displacement from behind the jump leads to the target.
displaced :
    (source target : ℕ) → target < 2 ^ 32 → add32 (source + 5) (sub32 target (source + 5)) ≡ target
displaced source target h = omega arith

-- What a hook of kind `op` at `source` does: its code has the announced size and goes to `target`.
abbrev pub IsLanding : ℕ → ℕ → ℕ → Type 0
IsLanding source target op =
    (n : ℕ) × (code : List ℕ) × (get_size_of_hook_op_size op ≡ some n)
    × (generate_hook_code source target op n ≡ some code)
    × (length code ≡ n)
    × (destination source code ≡ some target)

-- Seven bytes that move the target into a register and jump to it.
move-jump :
    (source target : ℕ)
    → target < 2 ^ 32
    → destination source (0xB8 ∷ (dword_bytes target ++ 0xFF ∷ 0xE0 ∷ [])) ≡ some target
unfolding destination dword_bytes
move-jump source target h = ap some (of_bytes-dword_bytes target h)

module _ (source target : ℕ) (h : target < 2 ^ 32) where
  jump-IsLanding : IsLanding source target op_jump
  unfolding get_size_of_hook_op_size generate_hook_code destination dword_bytes
  jump-IsLanding =
      let e : of_bytes (dword_bytes (sub32 target (source + 5))) ≡ sub32 target (source + 5) =
        of_bytes-dword_bytes (sub32 target (source + 5)) (omega arith) in
      (
        5,
        _,
        refl,
        refl,
        refl,
        ap some (ap (λ d. add32 (source + 5) d) e ∙ displaced source target h),
      )

  call-IsLanding : IsLanding source target op_call
  unfolding get_size_of_hook_op_size generate_hook_code destination dword_bytes
  call-IsLanding =
      let e : of_bytes (dword_bytes (sub32 target (source + 5))) ≡ sub32 target (source + 5) =
        of_bytes-dword_bytes (sub32 target (source + 5)) (omega arith) in
      (
        5,
        _,
        refl,
        refl,
        refl,
        ap some (ap (λ d. add32 (source + 5) d) e ∙ displaced source target h),
      )

  push-IsLanding : IsLanding source target op_push
  unfolding get_size_of_hook_op_size generate_hook_code destination dword_bytes
  push-IsLanding = (6, _, refl, refl, refl, ap some (of_bytes-dword_bytes target h))

  -- The seven kinds that jump through a register.
  register-IsLanding : (k : ℕ) → k ≤ 6 → IsLanding source target (op_jrax + k * 0x10000000)
  unfolding get_size_of_hook_op_size generate_hook_code dword_bytes
  register-IsLanding zero le = (7, _, refl, refl, refl, move-jump source target h)
  register-IsLanding (suc zero) le = (7, _, refl, refl, refl, move-jump source target h)
  register-IsLanding (suc (suc zero)) le = (7, _, refl, refl, refl, move-jump source target h)
  register-IsLanding (suc (suc (suc zero))) le = (7, _, refl, refl, refl, move-jump source target h)
  register-IsLanding (suc (suc (suc (suc zero)))) le =
      (7, _, refl, refl, refl, move-jump source target h)
  register-IsLanding (suc (suc (suc (suc (suc zero))))) le =
      (7, _, refl, refl, refl, move-jump source target h)
  register-IsLanding (suc (suc (suc (suc (suc (suc zero)))))) le =
      (7, _, refl, refl, refl, move-jump source target h)
  register-IsLanding (suc (suc (suc (suc (suc (suc (suc k))))))) le = absurd (omega arith)

  of_index : (i : ℕ) → i ≤ 9 → IsLanding source target (i * 0x10000000)
  of_index zero le = jump-IsLanding
  of_index (suc zero) le = call-IsLanding
  of_index (suc (suc zero)) le = push-IsLanding
  of_index (suc (suc (suc k))) le =
      let e : op_jrax + k * 0x10000000 ≡ suc (suc (suc k)) * 0x10000000 = omega arith in
      subst (IsLanding source target) e (register-IsLanding k (omega arith))

  -- For each of the ten kinds of hook that `OpMask` leaves, and a target of 32 bits, the announced
  -- size is that of the generated code, and the processor goes from the code, put at `source`, to
  -- the target.
  pub generate_hook_code-destination : (op : ℕ) → IsHookOp op → IsLanding source target op
  generate_hook_code-destination op (i, le, e) =
      subst (IsLanding source target) (sym e) (of_index i le)
