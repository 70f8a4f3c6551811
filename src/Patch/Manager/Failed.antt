-- ===== src/Patch/Manager/Failed.antt =====
-- A failure among the patches that `PatchMemory` is given.
use fvploader.Prelude.{
  ℕ, ◌≡◌, ◌≢◌, refl, ap, ◌∙◌, ◌⊎◌, inl, inr, Bool, List, [], ◌∷◌, ◌++◌, Option, arith,
}
use fvploader.Patch.Memory.{Memory}
use fvploader.Patch.Manager.{
  Status, success, no_memory, buffer_too_small, invalid_parameter, access_denied, not_implemented,
  breaks, unfinished, TrampolineData, PatchState,
}
use fvploader.Patch.Manager.Function.{PatchData, handle_patch, patch_memory}

Status-cases : (r : Status) → (r ≡ success) ⊎ (r ≢ success)
Status-cases success = inl refl
Status-cases no_memory = inr (ground arith)
Status-cases buffer_too_small = inr (ground arith)
Status-cases invalid_parameter = inr (ground arith)
Status-cases access_denied = inr (ground arith)
Status-cases not_implemented = inr (ground arith)
Status-cases breaks = inr (ground arith)
Status-cases unfinished = inr (ground arith)

module _ (fuel : ℕ) (get_op_code_size : Memory → ℕ → ℕ) (protect_memory : ℕ → ℕ → Bool)
    (allocate : List TrampolineData → Option ℕ) (stack : List ℕ) where
  -- The handler and the loop with the parameters of this section.
  abbrev handled : PatchData → ℕ → PatchState → Status × PatchState
  handled = handle_patch fuel get_op_code_size protect_memory allocate stack

  abbrev patched : List PatchData → ℕ → PatchState → Status × PatchState
  patched = patch_memory fuel get_op_code_size protect_memory allocate stack

  -- Each of the patches has succeeded, one behind the other.
  abbrev pub Succeeds : List PatchData → ℕ → PatchState → PatchState → Type 0
  Succeeds [] base s u = s ≡ u
  Succeeds (p ∷ ps) base s u =
      (v : PatchState) × (handled p base s ≡ (success, v)) × Succeeds ps base v u

  step_success :
      (p : PatchData) (ps : List PatchData) (base : ℕ) (s u : PatchState)
      → handled p base s ≡ (success, u)
      → patched (p ∷ ps) base s ≡ patched ps base u
  unfolding patch_memory
  step_success p ps base s u e = ground (arith, e)

  step_failure :
      (p : PatchData) (ps : List PatchData) (base : ℕ) (s : PatchState) (r : Status)
      (u : PatchState)
      → r ≢ success
      → handled p base s ≡ (r, u)
      → patched (p ∷ ps) base s ≡ (r, u)
  unfolding patch_memory
  step_failure p ps base s r u h e = ground (arith, e)

  -- `PatchMemory` either succeeds, when each of the patches has succeeded, in their order; or its status
  -- is that of one of the patches, which failed: those before it have succeeded and stay in place, and
  -- those behind it are not tried.
  pub patch_memory-failure :
      (ps : List PatchData) (base : ℕ) (s : PatchState)
      → ((u : PatchState) × (patched ps base s ≡ (success, u)) × Succeeds ps base s u)
        ⊎ ((r : Status) × (after : PatchState) × (before : List PatchData) × (p : PatchData)
            × (behind : List PatchData) × (u : PatchState) × (patched ps base s ≡ (r, after))
            × (r ≢ success)
            × (ps ≡ before ++ p ∷ behind)
            × Succeeds before base s u
            × (handled p base u ≡ (r, after)))
  unfolding patch_memory
  patch_memory-failure [] base s = inl (s, refl, refl)
  patch_memory-failure (p ∷ ps) base s =
      let u : PatchState = (handled p base s).1 in
      elim (Status-cases (handled p base s).0) [
        | inl done ↦
            let first : handled p base s ≡ (success, u) = ap (λ r. (r, u)) done in
            let go = step_success p ps base s u first in
            elim (patch_memory-failure ps base u) [
              | inl (v, worked, all) ↦ inl (v, go ∙ worked, (u, first, all))
              | inr (r, after, before, q, behind, v, failed, ne, parts, all, at) ↦ inr (
                r,
                after,
                p ∷ before,
                q,
                behind,
                v,
                go ∙ failed,
                ne,
                ap (λ l. p ∷ l) parts,
                (u, first, all),
                at,
              )
            ]
        | inr other ↦
            let r = (handled p base s).0 in
            inr
              (r, u, [], p, ps, s, step_failure p ps base s r u other refl, other, refl, refl, refl)
      ]
