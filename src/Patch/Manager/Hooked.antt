-- ===== src/Patch/Manager/Hooked.antt =====
-- What a successful `HandleFunctionPatch` leaves, and that taking it out undoes it.
use fvploader.Prelude.{
  ℕ, ◌≤◌, ◌<◌, ◌≡◌, ◌≢◌, refl, sym, ap, subst, ◌∙◌, ◌⊎◌, inl, inr, Bool, true, false, if◌then◌else◌,
  Option, none, some, List, [], ◌∷◌, ◌++◌, length, add32, arith, Bool-cases, Option-cases,
}
use fvploader.Patch.Memory.{Memory, peek}
use fvploader.Patch.Code.{get_size_of_hook_op_size, generate_hook_code}
use fvploader.Patch.Walk.{WalkResult, found, too_far, endless, get_hook_address_and_size}
use fvploader.Patch.Walk.Covered.{walk-Covers, covers_none}
use fvploader.Patch.Manager.{
  image_invalid_rva, Status, success, access_denied, TrampolineData, PatchState, written, data_at,
}
use fvploader.Patch.Manager.Function.{
  trampoline_size, FunctionPatch, Site, hook_bytes, write_hook, listed, finish, hook_naked,
  hook_plain, hook_site, handle_function_patch, plain_trampoline, generate_naked_trampoline,
}
use fvploader.Patch.Manager.Restored.{IsRestored, hooked-IsRestored}

-- The pointer is given the trampoline.
slots-listed :
    (p : FunctionPatch) (site : Site) (t : ℕ) (code : List ℕ) (s : PatchState)
    → p.trampoline ≢ 0
    → (listed p site t code s).slots p.trampoline ≡ t
unfolding listed
slots-listed p site t code s slot = ground arith

size_pos : (op n : ℕ) → get_size_of_hook_op_size op ≡ some n → 0 < n
unfolding get_size_of_hook_op_size
size_pos op n e = ground arith

pub walk_cases :
    (w : WalkResult) → ((a : ℕ) × (n : ℕ) × (w ≡ found a n)) ⊎ ((w ≡ too_far) ⊎ (w ≡ endless))
walk_cases (found a n) = inl (a, n, refl)
walk_cases too_far = inr (inl refl)
walk_cases endless = inr (inr refl)

module _ (fuel : ℕ) (get_op_code_size : Memory → ℕ → ℕ) (protect_memory : ℕ → ℕ → Bool)
    (allocate : List TrampolineData → Option ℕ) (stack : List ℕ) where
  -- The branch that leaves a trampoline, at a site, with the outcome of the last step.
  abbrev IsHooked : FunctionPatch → Site → Status → PatchState → PatchState → Type 0
  IsHooked p site r s after =
      (t : ℕ) × (trampoline : List ℕ) × (code : List ℕ) × (allocate s.trampoline_list ≡ some t)
      × (write_hook protect_memory stack site code (t ∷ []) (listed p site t trampoline s)
          ≡ (r, after))

  -- The outcomes of the last step.
  abbrev IsLast : Status → Type 0
  IsLast r = (r ≡ success) ⊎ (r ≡ access_denied)

  finish-IsHooked :
      (p : FunctionPatch) (site : Site) (t : ℕ) (trampoline code : List ℕ) (r : Status)
      (s after : PatchState)
      → IsLast r
      → allocate s.trampoline_list ≡ some t
      → finish protect_memory stack p site t trampoline code s ≡ (r, after)
      → IsHooked p site r s after
  unfolding finish
  finish-IsHooked p site t trampoline code r s after last h e =
      (t, trampoline, code, h, ground arith)

  write_hook-success :
      (site : Site) (code data_addresses : List ℕ) (s after : PatchState)
      → write_hook protect_memory stack site code data_addresses s ≡ (success, after)
      → (protect_memory site.at site.copy_op_size ≡ true)
        × (after ≡ written site.at (hook_bytes stack site code) s)
  unfolding write_hook
  write_hook-success site code data_addresses s after e = (ground arith, ground arith)

  write_hook-access_denied :
      (site : Site) (code data_addresses : List ℕ) (s after : PatchState)
      → write_hook protect_memory stack site code data_addresses s ≡ (access_denied, after)
      → after ≡ record s { freed = data_addresses ++ s.freed }
  unfolding write_hook
  write_hook-access_denied site code data_addresses s after e = ground arith

  hook_naked-IsHooked :
      (p : FunctionPatch) (site : Site) (r : Status) (s after : PatchState)
      → IsLast r
      → hook_naked fuel get_op_code_size protect_memory allocate stack p site s ≡ (r, after)
      → IsHooked p site r s after
  unfolding hook_naked
  hook_naked-IsHooked p site r s after last e = elim (Option-cases (allocate s.trampoline_list)) [
    | inl h ↦ ground (arith, h)
    | inr (t, h) ↦ elim (Option-cases (generate_hook_code site.at t p.hook_op site.hook_op_size)) [
      | inl g ↦ ground (arith, h, g)
      | inr (code, g) ↦
          finish-IsHooked p site t
            (generate_naked_trampoline fuel get_op_code_size protect_memory allocate stack p site t
              s.memory)
            code r s after last h (ground (arith, h, g))
    ]
  ]

  hook_plain-IsHooked :
      (p : FunctionPatch) (site : Site) (r : Status) (s after : PatchState)
      → IsLast r
      → p.trampoline ≢ 0
      → p.do_not_disassemble ≡ false
      → hook_plain fuel get_op_code_size protect_memory allocate stack p site s ≡ (r, after)
      → IsHooked p site r s after
  unfolding hook_plain
  hook_plain-IsHooked p site r s after last slot dis e =
      elim (Option-cases (generate_hook_code site.at p.target p.hook_op site.hook_op_size)) [
        | inl g ↦ ground (arith, g)
        | inr (code, g) ↦ elim (Option-cases (allocate s.trampoline_list)) [
          | inl h ↦ ground (arith, dis, h, g)
          | inr (t, h) ↦
              finish-IsHooked p site t
                (plain_trampoline fuel get_op_code_size protect_memory allocate stack p site t
                  s.memory)
                code r s after last h (ground (arith, dis, h, g))
        ]
      ]

  hook_site-IsHooked :
      (p : FunctionPatch) (site : Site) (r : Status) (s after : PatchState)
      → IsLast r
      → p.trampoline ≢ 0
      → (p.naked_trampoline ≡ true) ⊎ (p.do_not_disassemble ≡ false)
      → hook_site fuel get_op_code_size protect_memory allocate stack p site s ≡ (r, after)
      → IsHooked p site r s after × (site.copy_op_size ≤ trampoline_size)
  unfolding hook_site
  hook_site-IsHooked p site r s after last slot kind e =
      let small : site.copy_op_size ≤ trampoline_size = ground arith in
      elim (Bool-cases p.naked_trampoline) [
        | inl n ↦ (hook_naked-IsHooked p site r s after last (ground (arith, n)), small)
        | inr n ↦ (
          hook_plain-IsHooked p site r s after last slot (ground (arith, n)) (ground (arith, n)),
          small,
        )
      ]

  found_pos :
      (m : Memory) (address n a size : ℕ)
      → 0 < n
      → get_hook_address_and_size (get_op_code_size m) m fuel address n ≡ found a size
      → 0 < size
  unfolding get_hook_address_and_size
  found_pos m address n a size pos e =
      let (le, c) =
        walk-Covers (get_op_code_size m) m fuel n
          (record { buffer = address; final_address = address; op_size = 0 }) a size
          (omega arith, covers_none address) e in
      omega arith

  handle_function_patch-hook_site :
      (p : FunctionPatch) (base : ℕ) (r : Status) (s after : PatchState)
      → IsLast r
      → p.target ≢ 0
      → p.source ≢ image_invalid_rva
      → handle_function_patch fuel get_op_code_size protect_memory allocate stack p base s
        ≡ (r, after)
      → (site : Site) × (0 < site.copy_op_size)
        × (hook_site fuel get_op_code_size protect_memory allocate stack p site s ≡ (r, after))
  unfolding handle_function_patch
  handle_function_patch-hook_site p base r s after last target source e =
      let address : ℕ = (if p.virtual_address then p.source else add32 base p.source) in
      elim (Option-cases (get_size_of_hook_op_size p.hook_op)) [
        | inl h ↦ ground (arith, h)
        | inr (n, h) ↦
            elim (walk_cases
              (get_hook_address_and_size (get_op_code_size s.memory) s.memory fuel address n)) [
                | inl (a, size, w) ↦ (
                  record { hook_op_size = n; at = a; copy_op_size = size },
                  found_pos s.memory address n a size (size_pos p.hook_op n h) w,
                  ground (arith, h, w),
                )
                | inr (inl w) ↦ ground (arith, h, w)
                | inr (inr w) ↦ ground (arith, h, w)
              ]
      ]

  -- A hook with a trampoline that `HandleFunctionPatch` has put in is taken out by `RestoreMemory` of
  -- the pointer to the trampoline: it succeeds, every byte of memory and the list of trampolines are
  -- what they were, and the pointer is null. The patch has a target, a source and the address of a
  -- pointer, and is naked or disassembled; the heap gives new blocks that are not at 0, nothing at the
  -- address -1 can be protected, the buffer for the hook has its 64 bytes, and the list has memory.
  pub handle_function_patch-restore_trampoline :
      (p : FunctionPatch) (base : ℕ) (s after : PatchState)
      → length stack ≡ trampoline_size
      → p.target ≢ 0
      → p.source ≢ image_invalid_rva
      → p.trampoline ≢ 0
      → (p.naked_trampoline ≡ true) ⊎ (p.do_not_disassemble ≡ false)
      → ((ds : List TrampolineData) (t : ℕ)
          → allocate ds ≡ some t
          → (t ≢ 0) × (data_at t ds ≡ none))
      → ((n : ℕ) → protect_memory image_invalid_rva n ≡ false)
      → handle_function_patch fuel get_op_code_size protect_memory allocate stack p base s
        ≡ (success, after)
      → IsRestored protect_memory allocate p s after
  handle_function_patch-restore_trampoline p base s after es target source slot kind heap guard e =
      let (site, pos, h) =
        handle_function_patch-hook_site p base success s after (inl refl) target source e in
      let ((t, trampoline, code, a, w), le) =
        hook_site-IsHooked p site success s after (inl refl) slot kind h in
      let (some_t, fresh) = heap s.trampoline_list t a in
      let (protect, same) =
        write_hook-success site code (t ∷ []) (listed p site t trampoline s) after w in
      let valid : site.at ≢ image_invalid_rva = λ v. ground (
        arith,
        sym protect ∙ ap (λ x. protect_memory x site.copy_op_size) v ∙ guard site.copy_op_size,
      ) in
      subst (IsRestored protect_memory allocate p s) (sym same) (
        hooked-IsRestored stack protect_memory allocate p site t trampoline code s es slot some_t
          fresh le pos valid protect)

  -- When the pages of the instructions to replace cannot be made writable, `HandleFunctionPatch` has
  -- changed no byte of memory, but has freed the trampoline data that it keeps in the list of
  -- trampolines, and has given the program their address. The patch has a target, a source and the
  -- address of a pointer, and is naked or disassembled.
  pub handle_function_patch-freed :
      (p : FunctionPatch) (base : ℕ) (s after : PatchState)
      → p.target ≢ 0
      → p.source ≢ image_invalid_rva
      → p.trampoline ≢ 0
      → (p.naked_trampoline ≡ true) ⊎ (p.do_not_disassemble ≡ false)
      → handle_function_patch fuel get_op_code_size protect_memory allocate stack p base s
        ≡ (access_denied, after)
      → (d : TrampolineData) × (after.memory ≡ s.memory)
        × (after.trampoline_list ≡ s.trampoline_list ++ d ∷ [])
        × (after.slots p.trampoline ≡ d.address)
        × (after.freed ≡ d.address ∷ s.freed)
  unfolding listed
  handle_function_patch-freed p base s after target source slot kind e =
      let (site, pos, h) =
        handle_function_patch-hook_site p base access_denied s after (inr refl) target source e in
      let ((t, trampoline, code, a, w), le) =
        hook_site-IsHooked p site access_denied s after (inr refl) slot kind h in
      let same =
        write_hook-access_denied site code (t ∷ []) (listed p site t trampoline s) after w in
      (
        record {
          address = t;
          trampoline = trampoline;
          source = site.at;
          origin_size = site.copy_op_size;
          original_code = peek s.memory site.at site.copy_op_size;
        },
        ap (λ u. u.memory) same,
        ap (λ u. u.trampoline_list) same,
        ap (λ u. u.slots p.trampoline) same ∙ slots-listed p site t trampoline s slot,
        ap (λ u. u.freed) same,
      )
