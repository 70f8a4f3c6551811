-- ===== src/Patch/Memory.antt =====
-- Bytes in memory, and the destinations of x86 code.
pub mod Written
use fvploader.Prelude.{
  ℕ, zero, suc, ◌+◌, ◌-◌, ◌/◌, ◌%◌, ◌≤◌, ◌<◌, ◌≡◌, refl, ap, ◌∙◌, ◌==◌, ◌&&◌, ◌||◌, ltb, leb,
  if◌then◌else◌, Option, none, some, List, [], ◌∷◌, length, get_or, of_bytes, add32, sign_extended,
  arith, Bool-cases, inl, inr,
}

abbrev pub Memory : Type 0
Memory = ℕ → ℕ

-- the `n` bytes from an address
abbrev pub peek : Memory → ℕ → ℕ → List ℕ
peek m a zero = []
peek m a (suc n) = m a ∷ peek m (a + 1) n

-- `CopyMemory` to an address
abbrev pub poke : Memory → ℕ → List ℕ → Memory
poke m a bytes x = if leb a x && ltb x (a + length bytes) then get_or bytes (x - a) 0 else m x

-- the DWORD at an address
abbrev pub dword_at : Memory → ℕ → ℕ
dword_at m a = of_bytes (peek m a 4)

pub length-peek : (m : Memory) (a n : ℕ) → length (peek m a n) ≡ n
length-peek m a zero = refl
length-peek m a (suc n) = ap suc (length-peek m (a + 1) n)

get_or-peek : (m : Memory) (a n i : ℕ) → i < n → get_or (peek m a n) i 0 ≡ m (a + i)
get_or-peek m a zero i h = absurd (omega arith)
get_or-peek m a (suc n) zero h = ap m (omega arith)
get_or-peek m a (suc n) (suc i) h =
    let e : a + 1 + i ≡ a + suc i = omega arith in get_or-peek m (a + 1) n i (omega arith) ∙ ap m e

-- Bytes that are written back over others of the same number restore the memory.
pub poke-peek :
    (m : Memory) (a : ℕ) (bytes : List ℕ) (x : ℕ)
    → poke (poke m a bytes) a (peek m a (length bytes)) x ≡ m x
poke-peek m a bytes x = elim (Bool-cases (leb a x && ltb x (a + length bytes))) [
  | inl e ↦ ground (
    arith,
    e,
    length-peek m a (length bytes),
    get_or-peek m a (length bytes) (x - a) (ground arith),
    place (ground arith),
  )
  | inr e ↦ ground (arith, e, length-peek m a (length bytes))
]
  where
    place : a ≤ x → m (a + (x - a)) ≡ m x
    place h = ap m (omega arith)

-- Where code at `ip` goes: a relative jump or call, a conditional jump, `push imm; ret`, and
-- `mov r32, imm; jmp r32`.
unfoldable pub destination : ℕ → List ℕ → Option ℕ
destination ip (a ∷ b ∷ []) =
    if a == 0xEB || a / 16 == 7 then some (add32 (ip + 2) (sign_extended b)) else none
destination ip (a ∷ b ∷ c ∷ d ∷ e ∷ []) =
    if a == 0xE8 || a == 0xE9 then some (add32 (ip + 5) (of_bytes (b ∷ c ∷ d ∷ e ∷ []))) else none
destination ip (a ∷ b ∷ c ∷ d ∷ e ∷ f ∷ []) =
    if a == 0x68 && f == 0xC3
    then some (of_bytes (b ∷ c ∷ d ∷ e ∷ []))
    else if a == 0x0F && b / 16 == 8
    then some (add32 (ip + 6) (of_bytes (c ∷ d ∷ e ∷ f ∷ [])))
    else none
destination ip (a ∷ b ∷ c ∷ d ∷ e ∷ f ∷ g ∷ []) =
    if a / 8 == 0x17 && (f == 0xFF && g == 0xE0 + a % 8)
    then some (of_bytes (b ∷ c ∷ d ∷ e ∷ []))
    else none
destination ip _ = none
