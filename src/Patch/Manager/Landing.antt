-- ===== src/Patch/Manager/Landing.antt =====
-- Where a hooked function goes.
use fvploader.Prelude.{
  ℕ, ◌+◌, ◌-◌, ◌^◌, ◌≤◌, ◌<◌, ◌≡◌, ◌≢◌, sym, ap, ◌∙◌, ◌⊎◌, inl, inr, Bool, false, ◌==◌, ◌||◌,
  if◌then◌else◌, Option, some, List, [], ◌∷◌, ◌++◌, length, take, drop, add32, overlay, arith,
  Bool-cases, Option-cases, take-append,
}
use mathlib.Core.List.{append_assoc}
use fvploader.Patch.Memory.{Memory, peek, poke, destination}
use fvploader.Patch.Memory.Written.{take_within, peek-poke, poke_outside}
use fvploader.Patch.Code.{get_size_of_hook_op_size, generate_hook_code, nop_bytes}
use fvploader.Patch.Code.Lands.{IsHookOp, generate_hook_code-destination}
use fvploader.Patch.Walk.{found, get_hook_address_and_size}
use fvploader.Patch.Walk.Covered.{walk-Covers, covers_none}
use fvploader.Patch.Manager.{image_invalid_rva, success, TrampolineData, PatchState, written}
use fvploader.Patch.Manager.Function.{
  trampoline_size, FunctionPatch, Site, hook_bytes, write_hook, listed, finish, hook_plain,
  hook_site, handle_function_patch, plain_trampoline,
}
use fvploader.Patch.Manager.Restored.{length-hook_bytes}
use fvploader.Patch.Manager.Hooked.{walk_cases}

-- The hook stands first in the buffer.
hook_bytes_first :
    (stack : List ℕ) (site : Site) (code : List ℕ) (n : ℕ)
    → length code ≡ n
    → n ≤ site.copy_op_size
    → take n (hook_bytes stack site code) ≡ code
unfolding hook_bytes
hook_bytes_first stack site code n e h =
    let nops : List ℕ = nop_bytes (site.copy_op_size - site.hook_op_size) in
    take_within site.copy_op_size n (overlay (code ++ nops) stack) h
    ∙ ap (take n) (append_assoc code nops (drop (length (code ++ nops)) stack))
    ∙ take-append code (nops ++ drop (length (code ++ nops)) stack) n e

module _ (protect_memory : ℕ → ℕ → Bool) (stack : List ℕ) where
  write_hook-written :
      (site : Site) (code data_addresses : List ℕ) (s after : PatchState)
      → write_hook protect_memory stack site code data_addresses s ≡ (success, after)
      → after ≡ written site.at (hook_bytes stack site code) s
  unfolding write_hook
  write_hook-written site code data_addresses s after e = ground arith

  finish-written :
      (p : FunctionPatch) (site : Site) (t : ℕ) (trampoline code : List ℕ) (s after : PatchState)
      → finish protect_memory stack p site t trampoline code s ≡ (success, after)
      → after ≡ written site.at (hook_bytes stack site code) (listed p site t trampoline s)
  unfolding finish
  finish-written p site t trampoline code s after e =
      write_hook-written site code (t ∷ []) (listed p site t trampoline s) after (ground arith)

module _ (fuel : ℕ) (get_op_code_size : Memory → ℕ → ℕ) (protect_memory : ℕ → ℕ → Bool)
    (allocate : List TrampolineData → Option ℕ) (stack : List ℕ) where
  -- The memory that a hook which is not naked leaves.
  hook_plain-memory :
      (p : FunctionPatch) (site : Site) (s after : PatchState)
      → hook_plain fuel get_op_code_size protect_memory allocate stack p site s ≡ (success, after)
      → (code : List ℕ) × (generate_hook_code site.at p.target p.hook_op site.hook_op_size
          ≡ some code)
        × (after.memory ≡ poke s.memory site.at (hook_bytes stack site code))
  unfolding hook_plain listed
  hook_plain-memory p site s after e =
      elim (Option-cases (generate_hook_code site.at p.target p.hook_op site.hook_op_size)) [
        | inl g ↦ ground (arith, g)
        | inr (code, g) ↦ (
          code,
          g,
          elim (Bool-cases (p.trampoline == 0 || p.do_not_disassemble)) [
            | inl n ↦
                ap (λ u. u.memory)
                  (write_hook-written protect_memory stack site code [] s after
                    (ground (arith, n, g)))
            | inr n ↦ elim (Option-cases (allocate s.trampoline_list)) [
              | inl h ↦ ground (arith, n, h, g)
              | inr (t, h) ↦
                  ap (λ u. u.memory)
                    (finish-written protect_memory stack p site t
                      (plain_trampoline fuel get_op_code_size protect_memory allocate stack p site t
                        s.memory)
                      code s after (ground (arith, n, h, g)))
            ]
          ],
        )
      ]

  hook_site-memory :
      (p : FunctionPatch) (site : Site) (s after : PatchState)
      → p.naked_trampoline ≡ false
      → length stack ≡ trampoline_size
      → hook_site fuel get_op_code_size protect_memory allocate stack p site s ≡ (success, after)
      → (code : List ℕ) × (generate_hook_code site.at p.target p.hook_op site.hook_op_size
          ≡ some code)
        × (length (hook_bytes stack site code) ≡ site.copy_op_size)
        × (after.memory ≡ poke s.memory site.at (hook_bytes stack site code))
  unfolding hook_site
  hook_site-memory p site s after plain es e =
      let small : site.copy_op_size ≤ trampoline_size = ground arith in
      let (code, g, m) = hook_plain-memory p site s after (ground (arith, plain)) in
      (code, g, length-hook_bytes stack site code es small, m)

  -- What `HandleFunctionPatch` writes, from the place that the walk found on.
  abbrev pub IsLanded : FunctionPatch → ℕ → PatchState → PatchState → Type 0
  IsLanded p base s after =
      (n : ℕ) × (a : ℕ) × (size : ℕ) × (get_size_of_hook_op_size p.hook_op ≡ some n)
      × (get_hook_address_and_size (get_op_code_size s.memory) s.memory fuel
            (if p.virtual_address then p.source else add32 base p.source) n
          ≡ found a size)
      × (destination a (peek after.memory a n) ≡ some p.target)
      × ((x : ℕ) → (x < a) ⊎ (a + size ≤ x) → after.memory x ≡ s.memory x)

  site-IsLanded :
      (p : FunctionPatch) (base n a size : ℕ) (s after : PatchState)
      → IsHookOp p.hook_op
      → p.target < 2 ^ 32
      → p.naked_trampoline ≡ false
      → length stack ≡ trampoline_size
      → get_size_of_hook_op_size p.hook_op ≡ some n
      → get_hook_address_and_size
          (get_op_code_size s.memory)
          s.memory
          fuel
          (if p.virtual_address then p.source else add32 base p.source)
          n
        ≡ found a size
      → hook_site fuel get_op_code_size protect_memory allocate stack p
          (record { hook_op_size = n; at = a; copy_op_size = size })
          s
        ≡ (success, after)
      → IsLanded p base s after
  unfolding get_hook_address_and_size
  site-IsLanded p base n a size s after op small plain es h w e =
      let site : Site = record { hook_op_size = n; at = a; copy_op_size = size } in
      let (k, lands, sized, made, long, goes) =
        generate_hook_code-destination a p.target small p.hook_op op in
      let (code, g, full, m) = hook_site-memory p site s after plain es e in
      let (le, c) =
        walk-Covers (get_op_code_size s.memory) s.memory fuel n _ a size
          (omega arith, covers_none _) w in
      let nk : n ≡ k = ground (arith, h, sized) in
      let made_so : some code ≡ some lands =
        sym g ∙ ap (generate_hook_code a p.target p.hook_op) nk ∙ made in
      let same : code ≡ lands = ground (arith, made_so) in
      let size_of_code : length code ≡ n = ap length same ∙ long ∙ sym nk in
      let bytes : List ℕ = hook_bytes stack site code in
      let read : peek (poke s.memory a bytes) a n ≡ lands =
        peek-poke s.memory a bytes n (omega arith)
        ∙ hook_bytes_first stack site code n size_of_code le
        ∙ same in
      (
        n,
        a,
        size,
        h,
        w,
        ap (λ u. destination a (peek u a n)) m ∙ ap (destination a) read ∙ goes,
        λ x out. ap (λ u. u x) m ∙ poke_outside s.memory a size bytes x full out,
      )

  -- Every hook that is not naked and that `HandleFunctionPatch` puts in lands: the code at the place
  -- that the walk from the patch's source found goes to the target of the patch, and the memory before
  -- and behind the instructions that are replaced is what it was. The patch has a target of 32 bits, a
  -- source, and one of the ten kinds of hooks; the buffer for the hook has its 64 bytes.
  pub handle_function_patch-destination :
      (p : FunctionPatch) (base : ℕ) (s after : PatchState)
      → IsHookOp p.hook_op
      → p.target < 2 ^ 32
      → p.target ≢ 0
      → p.source ≢ image_invalid_rva
      → p.naked_trampoline ≡ false
      → length stack ≡ trampoline_size
      → handle_function_patch fuel get_op_code_size protect_memory allocate stack p base s
        ≡ (success, after)
      → IsLanded p base s after
  unfolding handle_function_patch
  handle_function_patch-destination p base s after op small target source plain es e =
      let address : ℕ = (if p.virtual_address then p.source else add32 base p.source) in
      elim (Option-cases (get_size_of_hook_op_size p.hook_op)) [
        | inl h ↦ ground (arith, h)
        | inr (n, h) ↦
            elim (walk_cases
              (get_hook_address_and_size (get_op_code_size s.memory) s.memory fuel address n)) [
                | inl (a, size, w) ↦
                    site-IsLanded p base n a size s after op small plain es h w
                      (ground (arith, h, w))
                | inr (inl w) ↦ ground (arith, h, w)
                | inr (inr w) ↦ ground (arith, h, w)
              ]
      ]
