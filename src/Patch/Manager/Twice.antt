-- ===== src/Patch/Manager/Twice.antt =====
-- A function that is hooked twice.
use fvploader.Prelude.{
  ℕ, zero, suc, ◌+◌, ◌-◌, ◌^◌, ◌≤◌, ◌<◌, ◌≡◌, ◌≢◌, refl, ap, ◌∙◌, inl, inr, Bool, Option, some,
  List, [], ◌++◌, length, take, dword_bytes, arith, take-append,
}
use mathlib.Core.List.{append-nil}
use fvploader.Patch.Memory.{Memory, peek, destination}
use fvploader.Patch.Code.{op_call, generate_jump_back}
use fvploader.Patch.Copy.{relative_form, copy_one_op_code, copy_trampoline_stub}
use fvploader.Patch.Copy.Keeps.{IsOutside, copy_one_op_code-destination}
use fvploader.Patch.Manager.{TrampolineData}
use fvploader.Patch.Manager.Function.{FunctionPatch, plain_trampoline, address_of_jump_back}

-- The copy of a near jump has five bytes, wherever it goes.
length-copy_near_jump :
    (m : Memory) (target source forward_size backward_size : ℕ)
    → m source ≡ 0xE9
    → length (copy_one_op_code m target source 5 forward_size backward_size) ≡ 5
unfolding copy_one_op_code relative_form dword_bytes
length-copy_near_jump m target source forward_size backward_size e = ground arith

positive : (n : ℕ) → 0 < n → (k : ℕ) × (n ≡ suc k)
positive zero h = absurd (omega arith)
positive (suc n) h = (n, refl)

module _ (size : ℕ → ℕ) (m : Memory) where
  nothing_left :
      (fuel target source forward_size backward_size : ℕ)
      → (copy_trampoline_stub size fuel m target source 0 forward_size backward_size).0 ≡ []
  unfolding copy_trampoline_stub
  nothing_left zero target source forward_size backward_size = refl
  nothing_left (suc fuel) target source forward_size backward_size = refl

  stub_of_jump :
      (fuel t a : ℕ)
      → m a ≡ 0xE9
      → size a ≡ 5
      → (copy_trampoline_stub size (suc fuel) m t a 5 5 0).0 ≡ copy_one_op_code m t a 5 5 0
  unfolding copy_trampoline_stub
  stub_of_jump fuel t a e five =
      let code : List ℕ = copy_one_op_code m t a (size a) 5 0 in
      let left : 5 - size a ≡ 0 = omega arith in
      let rest : (copy_trampoline_stub size fuel m (t + length code) (a + size a) (5 - size a)
            (5 - size a) (0 + size a)).0
          ≡ [] =
        ap
          (λ n.
            (copy_trampoline_stub size fuel m (t + length code) (a + size a) n (5 - size a)
              (0 + size a)).0)
          left
        ∙ nothing_left fuel (t + length code) (a + size a) (5 - size a) (0 + size a) in
      let whole : (copy_trampoline_stub size (suc fuel) m t a 5 5 0).0 ≡ code ++ [] =
        ground (arith, e, rest) in
      whole ∙ append-nil code ∙ ap (λ n. copy_one_op_code m t a n 5 0) five

module _ (fuel : ℕ) (get_op_code_size : Memory → ℕ → ℕ) (protect_memory : ℕ → ℕ → Bool)
    (allocate : List TrampolineData → Option ℕ) (stack : List ℕ) where
  -- Where a function begins with a near jump to an address outside the jump, as a hook leaves it, and
  -- the disassembler gives the jump its five bytes, the first five bytes of the trampoline of another
  -- hook of it, which has five bytes and is no call, go to this address: a call of the function through its
  -- trampoline comes to the first hook. There is fuel for one instruction, and the jump does not wrap
  -- around the end of memory.
  pub plain_trampoline-destination :
      (p : FunctionPatch) (m : Memory) (a t d : ℕ)
      → 0 < fuel
      → p.hook_op ≢ op_call
      → m a ≡ 0xE9
      → get_op_code_size m a ≡ 5
      → destination a (peek m a 5) ≡ some d
      → a + 5 ≤ 2 ^ 32
      → IsOutside a d 5 0
      → destination t (
          take 5 (
            plain_trampoline fuel get_op_code_size protect_memory allocate stack p
              (record { hook_op_size = 5; at = a; copy_op_size = 5 })
              t
              m))
        ≡ some d
  unfolding plain_trampoline
  plain_trampoline-destination p m a t d f op e five goes fits outside =
      let code : List ℕ = copy_one_op_code m t a 5 5 0 in
      let (g, more) = positive fuel f in
      let stub : (copy_trampoline_stub (get_op_code_size m) fuel m t a 5 5 0).0 ≡ code =
        ap (λ n. (copy_trampoline_stub (get_op_code_size m) n m t a 5 5 0).0) more
        ∙ stub_of_jump (get_op_code_size m) m g t a e five in
      let whole : plain_trampoline fuel get_op_code_size protect_memory allocate stack p
            (record { hook_op_size = 5; at = a; copy_op_size = 5 }) t m
          ≡ code ++ generate_jump_back (address_of_jump_back t) =
        ground (arith, stub) in
      ap (λ b. destination t (take 5 b)) whole
      ∙ ap (destination t) (
          take-append code (generate_jump_back (address_of_jump_back t)) 5
            (length-copy_near_jump m t a 5 0 e))
      ∙ copy_one_op_code-destination m t a 5 5 0 d (inr (inr (inl (refl, inr e)))) goes fits
          (omega arith) (omega arith) outside
