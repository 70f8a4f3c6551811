-- ===== src/Patch/Manager/Restored.antt =====
-- Taking a hook out gives the memory back.
use fvploader.Prelude.{
  ℕ, ◌-◌, ◌≤◌, ◌<◌, ◌≡◌, ◌≢◌, refl, sym, ap, ◌∙◌, Bool, true, ◌==◌, if◌then◌else◌, Option, none,
  some, List, [], ◌∷◌, ◌++◌, length, take, drop, overlay, arith, length-take, length-append,
  length-drop, take-length,
}
use fvploader.Patch.Memory.{Memory, peek, poke, poke-peek, length-peek}
use fvploader.Patch.Code.{nop_bytes}
use fvploader.Patch.Manager.{
  image_invalid_rva, success, TrampolineData, PatchState, written, without, data_at,
  remove_trampoline_data, restore_memory, restore_trampoline, handle_memory_patch,
  write_memory_patch,
}
use fvploader.Patch.Manager.Function.{trampoline_size, FunctionPatch, Site, hook_bytes, listed}

-- Trampoline data at a new address are found and removed again.
data_at-snoc :
    (t : ℕ) (ds : List TrampolineData) (d : TrampolineData)
    → d.address ≡ t
    → data_at t ds ≡ none
    → data_at t (ds ++ d ∷ []) ≡ some d
unfolding data_at
data_at-snoc t [] d e h = ground (arith, e)
data_at-snoc t (x ∷ ds) d e h = ground (arith, h, data_at-snoc t ds d e)

without-snoc :
    (t : ℕ) (ds : List TrampolineData) (d : TrampolineData)
    → d.address ≡ t
    → data_at t ds ≡ none
    → without t (ds ++ d ∷ []) ≡ ds
unfolding data_at without
without-snoc t [] d e h = ground (arith, e)
without-snoc t (x ∷ ds) d e h = ground (arith, h, without-snoc t ds d e)

memory_back :
    (m : Memory) (a n : ℕ) (bytes : List ℕ) (x : ℕ)
    → length bytes ≡ n
    → poke (poke m a bytes) a (take n (peek m a n)) x ≡ m x
memory_back m a n bytes x e =
    let whole : take n (peek m a n) ≡ peek m a n =
      take-length (peek m a n) n (omega (arith, length-peek m a n)) in
    ap (λ b. poke (poke m a bytes) a b x) (whole ∙ ap (peek m a) (sym e)) ∙ poke-peek m a bytes x

module _ (protect_memory : ℕ → ℕ → Bool) (allocate : List TrampolineData → Option ℕ) where
  -- What taking out a hook through the pointer to its trampoline does.
  abbrev pub IsRestored : FunctionPatch → PatchState → PatchState → Type 0
  IsRestored p s after =
      (back : PatchState) × (restore_trampoline protect_memory allocate p.trampoline after
        ≡ some (success, back))
      × ((x : ℕ) → back.memory x ≡ s.memory x)
      × (back.trampoline_list ≡ s.trampoline_list)
      × (back.slots p.trampoline ≡ 0)

  -- The functions, at data that are listed.
  remove_trampoline_data_run :
      (d x : TrampolineData) (u : PatchState)
      → data_at d.address u.trampoline_list ≡ some x
      → remove_trampoline_data d u ≡ record u {
        trampoline_list = without d.address u.trampoline_list;
        freed = d.address ∷ u.freed;
      }
  unfolding remove_trampoline_data
  remove_trampoline_data_run d x u e = ground (arith, e)

  restore_memory_run :
      (d : TrampolineData) (u : PatchState)
      → 0 < d.origin_size
      → d.source ≢ image_invalid_rva
      → protect_memory d.source d.origin_size ≡ true
      → restore_memory protect_memory allocate d u ≡ (
        success,
        remove_trampoline_data d (written d.source (take d.origin_size d.original_code) u),
      )
  unfolding restore_memory handle_memory_patch write_memory_patch
  restore_memory_run d u pos valid protect = ground (arith, protect)

  restore_trampoline_run :
      (slot : ℕ) (d : TrampolineData) (u v : PatchState)
      → u.slots slot ≢ 0
      → data_at (u.slots slot) u.trampoline_list ≡ some d
      → restore_memory protect_memory allocate d u ≡ (success, v)
      → restore_trampoline protect_memory allocate slot u
        ≡ some (success, record v { slots = λ i. if i == slot then 0 else v.slots i })
  unfolding restore_trampoline
  restore_trampoline_run slot d u v h e f = ground (arith, e, f)

module _ (stack : List ℕ) where
  -- The state that a hook with a trampoline leaves.
  abbrev pub hooked : FunctionPatch → Site → ℕ → List ℕ → List ℕ → PatchState → PatchState
  hooked p site t trampoline code s =
      written site.at (hook_bytes stack site code) (listed p site t trampoline s)

  pub length-hook_bytes :
      (site : Site) (code : List ℕ)
      → length stack ≡ trampoline_size
      → site.copy_op_size ≤ trampoline_size
      → length (hook_bytes stack site code) ≡ site.copy_op_size
  unfolding hook_bytes
  length-hook_bytes site code e h =
      let got : List ℕ = code ++ nop_bytes (site.copy_op_size - site.hook_op_size) in
      omega (
        arith,
        length-take site.copy_op_size (overlay got stack),
        length-append got (drop (length got) stack),
        length-drop (length got) stack,
      )

  module _ (protect_memory : ℕ → ℕ → Bool) (allocate : List TrampolineData → Option ℕ) where
    pub hooked-IsRestored :
        (p : FunctionPatch) (site : Site) (t : ℕ) (trampoline code : List ℕ) (s : PatchState)
        → length stack ≡ trampoline_size
        → p.trampoline ≢ 0
        → t ≢ 0
        → data_at t s.trampoline_list ≡ none
        → site.copy_op_size ≤ trampoline_size
        → 0 < site.copy_op_size
        → site.at ≢ image_invalid_rva
        → protect_memory site.at site.copy_op_size ≡ true
        → IsRestored protect_memory allocate p s (hooked p site t trampoline code s)
    unfolding listed
    hooked-IsRestored p site t trampoline code s es slot some_t fresh le pos valid protect =
        let d : TrampolineData = record {
          address = t;
          trampoline = trampoline;
          source = site.at;
          origin_size = site.copy_op_size;
          original_code = peek s.memory site.at site.copy_op_size;
        } in
        let u : PatchState = hooked p site t trampoline code s in
        let back : List ℕ = take site.copy_op_size (peek s.memory site.at site.copy_op_size) in
        let w : PatchState = written site.at back u in
        let there : data_at t u.trampoline_list ≡ some d =
          data_at-snoc t s.trampoline_list d refl fresh in
        let v : PatchState = record w {
          trampoline_list = without t w.trampoline_list;
          freed = t ∷ w.freed;
        } in
        let pointer : u.slots p.trampoline ≡ t = ground arith in
        let named : u.slots p.trampoline ≢ 0 = ground (arith, pointer) in
        let restored : restore_memory protect_memory allocate d u ≡ (success, v) =
          restore_memory_run protect_memory allocate d u pos valid protect
          ∙ ap (λ r. (success, r))
              (remove_trampoline_data_run protect_memory allocate d d w there) in
        let found_there : data_at (u.slots p.trampoline) u.trampoline_list ≡ some d =
          ap (λ a. data_at a u.trampoline_list) pointer ∙ there in
        (
          record v { slots = λ i. if i == p.trampoline then 0 else v.slots i },
          restore_trampoline_run protect_memory allocate p.trampoline d u v named found_there
              restored,
          λ x.
              memory_back s.memory site.at site.copy_op_size (hook_bytes stack site code) x
                (length-hook_bytes site code es le),
          without-snoc t s.trampoline_list d refl fresh,
          ground arith,
        )
