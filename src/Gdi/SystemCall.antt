-- ===== src/Gdi/SystemCall.antt =====
-- `IsSystemCall` of source/FVPKernel/Gdi32Hook.cpp: whether code is the stub of a system call. The
-- size of an instruction is a parameter; `none` is a read behind the code.
pub mod Shape
use fvploader.Prelude.{
  ℕ, zero, suc, Bool, true, false, not, ◌==◌, ◌&&◌, ◌||◌, if◌then◌else◌, Option, none, some, List,
  [], ◌∷◌, drop,
}

-- what the `switch` makes of an instruction: `call` is each that sets `HasCall`, every FF but FF 15 and
-- FF 25 too, and `forbidden` is one of these two
pub data Kind : Type 0 where
  mov_eax call ret forbidden other : Kind

-- the cases of one byte
abbrev pub plain_kind : ℕ → Kind
plain_kind b =
    if b == 0xB8
    then mov_eax
    else if b == 0xE8
    then call
    else if b == 0xC2 || b == 0xC3
    then ret
    else other

-- The `case` labels. Bytes behind the first are read only where they decide.
unfoldable pub kind_of : List ℕ → Option Kind
kind_of [] = none
kind_of (b ∷ []) = if b == 0xFF || b == 0x64 then none else some (plain_kind b)
kind_of (b ∷ c ∷ []) =
    if b == 0x64
    then none
    else if b == 0xFF
    then some (if c == 0x15 || c == 0x25 then forbidden else call)
    else some (plain_kind b)
kind_of (b ∷ c ∷ d ∷ p) =
    if b == 0x64
    then some (if c == 0xFF && d == 0x15 then call else other)
    else if b == 0xFF
    then some (if c == 0x15 || c == 0x25 then forbidden else call)
    else some (plain_kind b)

-- `HasMovEax` and `HasCall`; with `HasRet` the loop ends.
pub record Seen : Type 0 where
  pub has_mov_eax : Bool
  pub has_call : Bool

module _ (opcode_size : List ℕ → ℕ) where
  -- The `for` loop over at most `count` instructions, and the result behind it.
  unfoldable pub scan_code : ℕ → Seen → List ℕ → Option Bool
  unfolding kind_of
  scan_code zero s code = some false
  scan_code (suc count) s code =
      let go : Seen → Option Bool = λ t. scan_code count t (drop (opcode_size code) code) in
      elim (kind_of code) [
        | none ↦ none
        | some k ↦ elim k [
          | mov_eax ↦
              if s.has_mov_eax || s.has_call
              then some false
              else go (record s { has_mov_eax = true })
          | call ↦
              if not s.has_mov_eax
              then some false
              else if s.has_call
              then some false
              else go (record s { has_call = true })
          | ret ↦ some (s.has_mov_eax && s.has_call)
          | forbidden ↦ some false
          | other ↦ go s
        ]
      ]

  -- `IsSystemCall`
  unfoldable pub is_system_call : List ℕ → Option Bool
  unfolding scan_code
  is_system_call code = scan_code 6 (record { has_mov_eax = false; has_call = false }) code
