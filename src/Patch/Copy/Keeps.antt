-- ===== src/Patch/Copy/Keeps.antt =====
-- A copied branch goes where the branch went.
use fvploader.Prelude.{
  ℕ, ◌+◌, ◌-◌, ◌/◌, ◌^◌, ◌≤◌, ◌<◌, ◌≡◌, sym, ap, subst, ◌∙◌, ◌⊎◌, inl, inr, false, some, List, [],
  ◌∷◌, ◌++◌, length, of_bytes, dword_bytes, of_bytes-dword_bytes, sub32, add32, sign_extended,
  arith,
}
use fvploader.Patch.Memory.{Memory, peek, dword_at, destination}
use fvploader.Patch.Copy.{relative_form, is_inside, copy_one_op_code}

-- The branch goes to an address that is not copied with it: `forward_size` bytes from the
-- instruction on and `backward_size` bytes before it are.
abbrev pub IsOutside : ℕ → ℕ → ℕ → ℕ → Type 0
IsOutside source d forward_size backward_size =
    (d + backward_size < source) ⊎ (source + forward_size ≤ d)

-- A test that the code makes of the distance.
is_inside-outside :
    (source d forward_size backward_size : ℕ)
    → source + forward_size ≤ 2 ^ 32
    → backward_size ≤ source
    → 0 < forward_size
    → d < 2 ^ 32
    → IsOutside source d forward_size backward_size
    → is_inside (sub32 d source) forward_size backward_size ≡ false
unfolding is_inside
is_inside-outside source d forward_size backward_size fits behind some_bytes small out =
    ground arith

-- The instruction at `source` has `n` bytes and is a short jump, a short conditional jump, a near
-- call or jump, or a near conditional jump.
abbrev pub IsBranch : Memory → ℕ → ℕ → Type 0
IsBranch m source n =
    ((n ≡ 2) × (m source / 16 ≡ 7))
    ⊎ (((n ≡ 2) × (m source ≡ 0xEB))
        ⊎ (((n ≡ 5) × ((m source ≡ 0xE8) ⊎ (m source ≡ 0xE9)))
            ⊎ ((n ≡ 6) × (m source ≡ 0x0F) × (m (source + 1) / 16 ≡ 8))))

-- What the copy of such an instruction is, and where the instruction goes: the new operation code
-- has a near displacement.
abbrev IsRead : Memory → ℕ → ℕ → Type 0
IsRead m source n =
    (op_code : List ℕ) × (offset : ℕ) × (relative_form m source ≡ some (op_code, offset))
    × (destination source (peek m source n) ≡ some (add32 (source + n) offset))
    × ((target w : ℕ)
        → destination target (op_code ++ dword_bytes w)
          ≡ some (add32 (target + length op_code + 4) (of_bytes (dword_bytes w))))

shifted : (target k w : ℕ) → some (add32 (target + (k + 4)) w) ≡ some (add32 (target + k + 4) w)
shifted target k w = ap some (omega arith)

short_conditional : (m : Memory) (source : ℕ) → m source / 16 ≡ 7 → IsRead m source 2
unfolding relative_form destination dword_bytes
short_conditional m source e =
    let small : (0x80 + (m source - 0x70)) / 16 ≡ 8 = omega arith in
    (
      0x0F ∷ (0x80 + (m source - 0x70)) ∷ [],
      sign_extended (m (source + 1)),
      ground (arith, e),
      ground (arith, e),
      λ target w. ground (arith, small, shifted target 2 (of_bytes (dword_bytes w))),
    )

short_jump : (m : Memory) (source : ℕ) → m source ≡ 0xEB → IsRead m source 2
unfolding relative_form destination dword_bytes
short_jump m source e = (
  0xE9 ∷ [],
  sign_extended (m (source + 1)),
  ground (arith, e),
  ground (arith, e),
  λ target w. shifted target 1 (of_bytes (dword_bytes w)),
)

near_jump : (m : Memory) (source : ℕ) → (m source ≡ 0xE8) ⊎ (m source ≡ 0xE9) → IsRead m source 5
unfolding relative_form destination dword_bytes
near_jump m source e = (
  m source ∷ [],
  dword_at m (source + 1),
  ground (arith, e),
  ground (arith, e),
  λ target w. ground (arith, e, shifted target 1 (of_bytes (dword_bytes w))),
)

near_conditional :
    (m : Memory) (source : ℕ) → m source ≡ 0x0F → m (source + 1) / 16 ≡ 8 → IsRead m source 6
unfolding relative_form destination dword_bytes
near_conditional m source e f =
    let at : dword_at m (source + 1 + 1) ≡ dword_at m (source + 2) =
      ap (dword_at m) (omega arith) in
    (
      m source ∷ m (source + 1) ∷ [],
      dword_at m (source + 2),
      ground (arith, e, f),
      ground (arith, e, f, at),
      λ target w. ground (arith, e, f, shifted target 2 (of_bytes (dword_bytes w))),
    )

IsBranch-IsRead : (m : Memory) (source n : ℕ) → IsBranch m source n → IsRead m source n
IsBranch-IsRead m source n (inl (e, a)) =
    subst (IsRead m source) (sym e) (short_conditional m source a)
IsBranch-IsRead m source n (inr (inl (e, a))) =
    subst (IsRead m source) (sym e) (short_jump m source a)
IsBranch-IsRead m source n (inr (inr (inl (e, a)))) =
    subst (IsRead m source) (sym e) (near_jump m source a)
IsBranch-IsRead m source n (inr (inr (inr (e, a, b)))) =
    subst (IsRead m source) (sym e) (near_conditional m source a b)

-- A branch that leaves the copied bytes: the copy is written with a near displacement.
copy_outside :
    (m : Memory) (target source n offset forward_size backward_size : ℕ) (op_code : List ℕ)
    → relative_form m source ≡ some (op_code, offset)
    → is_inside (add32 n offset) forward_size backward_size ≡ false
    → copy_one_op_code m target source n forward_size backward_size
      ≡ op_code ++ dword_bytes (sub32 (source + n + offset) (target + length op_code + 4))
unfolding copy_one_op_code
copy_outside m target source n offset forward_size backward_size op_code e h = ground (arith, e, h)

-- A short jump (EB), a short conditional jump (70 to 7F), a near call or jump (E8, E9) or a near
-- conditional jump (0F 80 to 0F 8F), of which the disassembler gives the right length `n`, and that
-- goes to an address outside the bytes that are copied together, goes to the same address when the
-- copy that `CopyOneOpCode` writes at `target` is executed there. The bytes that are copied together
-- do not wrap around the end of memory, and one at least is from the branch on.
pub copy_one_op_code-destination :
    (m : Memory) (target source n forward_size backward_size d : ℕ)
    → IsBranch m source n
    → destination source (peek m source n) ≡ some d
    → source + forward_size ≤ 2 ^ 32
    → backward_size ≤ source
    → 0 < forward_size
    → IsOutside source d forward_size backward_size
    → destination target (copy_one_op_code m target source n forward_size backward_size) ≡ some d
copy_one_op_code-destination m target source n forward_size backward_size d branch e fits behind
      some_bytes h =
    let (op_code, offset, form, there, near) = IsBranch-IsRead m source n branch in
    let same : d ≡ add32 (source + n) offset = ground (arith, e, there) in
    let new : sub32 d source ≡ add32 n offset = omega arith in
    let outside : is_inside (add32 n offset) forward_size backward_size ≡ false =
      ap (λ o. is_inside o forward_size backward_size) (sym new)
      ∙ is_inside-outside source d forward_size backward_size fits behind some_bytes
          (omega (arith, same)) h in
    let w : ℕ = sub32 (source + n + offset) (target + length op_code + 4) in
    let back : of_bytes (dword_bytes w) ≡ w = of_bytes-dword_bytes w (omega arith) in
    let landed : add32 (target + length op_code + 4) (of_bytes (dword_bytes w)) ≡ d =
      ap (add32 (target + length op_code + 4)) back ∙ omega (arith, same) in
    ap (destination target)
      (copy_outside m target source n offset forward_size backward_size op_code form outside)
    ∙ near target w
    ∙ ap some landed
