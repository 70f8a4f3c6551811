-- ===== src/Gdi/SystemCall/Shape.antt =====
-- The shape of the code that `IsSystemCall` accepts.
use fvploader.Prelude.{
  ℕ, zero, suc, ◌≡◌, ◌≢◌, ◌∙◌, ◌⊎◌, refl, Bool, true, false, ◌&&◌, ◌||◌, ◌==◌, if◌then◌else◌, some,
  List, [], ◌∷◌, drop, arith,
}
use fvploader.Gdi.SystemCall.{
  Kind, mov_eax, call, ret, forbidden, other, plain_kind, kind_of, Seen, scan_code, is_system_call,
}

abbrev pub same_kind : Kind → Kind → Bool
same_kind mov_eax k = elim k [
  | mov_eax ↦ true
  | call ↦ false
  | ret ↦ false
  | forbidden ↦ false
  | other ↦ false
]
same_kind call k = elim k [
  | mov_eax ↦ false
  | call ↦ true
  | ret ↦ false
  | forbidden ↦ false
  | other ↦ false
]
same_kind ret k = elim k [
  | mov_eax ↦ false
  | call ↦ false
  | ret ↦ true
  | forbidden ↦ false
  | other ↦ false
]
same_kind forbidden k = elim k [
  | mov_eax ↦ false
  | call ↦ false
  | ret ↦ false
  | forbidden ↦ true
  | other ↦ false
]
same_kind other k = elim k [
  | mov_eax ↦ false
  | call ↦ false
  | ret ↦ false
  | forbidden ↦ false
  | other ↦ true
]

abbrev pub same_kinds : List Kind → List Kind → Bool
same_kinds [] [] = true
same_kinds [] (y ∷ ys) = false
same_kinds (x ∷ xs) [] = false
same_kinds (x ∷ xs) (y ∷ ys) = same_kind x y && same_kinds xs ys

-- the kinds that matter
abbrev pub relevant : List Kind → List Kind
relevant [] = []
relevant (k ∷ ks) = elim k [
  | mov_eax ↦ mov_eax ∷ relevant ks
  | call ↦ call ∷ relevant ks
  | ret ↦ ret ∷ relevant ks
  | forbidden ↦ forbidden ∷ relevant ks
  | other ↦ relevant ks
]

-- What the first instruction of code counts as. B8 loads eax; E8, 64 FF 15, and every FF but FF 15 and
-- FF 25 call; 0xC2 and 0xC3 return; FF 15 and FF 25 go through a pointer.
pub data Reads : List ℕ → Kind → Type 0 where
  reads_mov_eax : (p : List ℕ) → Reads (0xB8 ∷ p) mov_eax
  reads_call : (p : List ℕ) → Reads (0xE8 ∷ p) call
  reads_segment : (p : List ℕ) → Reads (0x64 ∷ 0xFF ∷ 0x15 ∷ p) call
  reads_group : (c : ℕ) (p : List ℕ) → c ≢ 0x15 → c ≢ 0x25 → Reads (0xFF ∷ c ∷ p) call
  reads_ret : (b : ℕ) (p : List ℕ) → (b ≡ 0xC2) ⊎ (b ≡ 0xC3) → Reads (b ∷ p) ret
  reads_pointer : (c : ℕ) (p : List ℕ) → (c ≡ 0x15) ⊎ (c ≡ 0x25) → Reads (0xFF ∷ c ∷ p) forbidden
  reads_prefix : (c d : ℕ) (p : List ℕ) → (c ≢ 0xFF) ⊎ (d ≢ 0x15) → Reads (0x64 ∷ c ∷ d ∷ p) other
  reads_other :
      (b : ℕ) (p : List ℕ)
      → b ≢ 0xB8
      → b ≢ 0xE8
      → b ≢ 0xC2
      → b ≢ 0xC3
      → b ≢ 0xFF
      → b ≢ 0x64
      → Reads (b ∷ p) other

-- The tests of one byte, however many follow it.
kind_of-plain : (b : ℕ) (p : List ℕ) → b ≢ 0xFF → b ≢ 0x64 → kind_of (b ∷ p) ≡ some (plain_kind b)
unfolding kind_of
kind_of-plain b [] ff prefix = ground arith
kind_of-plain b (c ∷ []) ff prefix = ground arith
kind_of-plain b (c ∷ d ∷ p) ff prefix = ground arith

kind_of-group :
    (c : ℕ) (p : List ℕ)
    → kind_of (0xFF ∷ c ∷ p) ≡ some (if c == 0x15 || c == 0x25 then forbidden else call)
unfolding kind_of
kind_of-group c [] = refl
kind_of-group c (d ∷ p) = refl

kind_of-Reads : (code : List ℕ) (k : Kind) → Reads code k → kind_of code ≡ some k
unfolding kind_of
kind_of-Reads _ _ (reads_mov_eax p) = kind_of-plain 0xB8 p (omega arith) (omega arith)
kind_of-Reads _ _ (reads_call p) = kind_of-plain 0xE8 p (omega arith) (omega arith)
kind_of-Reads _ _ (reads_segment p) = refl
kind_of-Reads _ _ (reads_group c p n15 n25) = kind_of-group c p ∙ ground arith
kind_of-Reads _ _ (reads_ret b p e) = kind_of-plain b p (omega arith) (omega arith) ∙ ground arith
kind_of-Reads _ _ (reads_pointer c p e) = kind_of-group c p ∙ ground arith
kind_of-Reads _ _ (reads_prefix c d p e) = ground arith
kind_of-Reads _ _ (reads_other b p n1 n2 n3 n4 n5 n6) =
    kind_of-plain b p (omega arith) (omega arith) ∙ ground arith

module _ (opcode_size : List ℕ → ℕ) where
  -- `ks` are the kinds of the instructions from here, at most `count` of them, up to the first return.
  pub data Decodes : ℕ → List ℕ → List Kind → Type 0 where
    stop : (code : List ℕ) → Decodes zero code []
    last : (count : ℕ) (code : List ℕ) → Reads code ret → Decodes (suc count) code (ret ∷ [])
    more :
        (count : ℕ) (code : List ℕ) (k : Kind) (ks : List Kind)
        → Reads code k
        → same_kind k ret ≡ false
        → Decodes count (drop (opcode_size code) code) ks
        → Decodes (suc count) code (k ∷ ks)

  abbrev at_start : Seen
  at_start = record { has_mov_eax = false; has_call = false }

  abbrev after_mov : Seen
  after_mov = record { has_mov_eax = true; has_call = false }

  abbrev after_call : Seen
  after_call = record { has_mov_eax = true; has_call = true }

  -- With a call seen only a return may follow.
  scan_after_call :
      (count : ℕ) (code : List ℕ) (ks : List Kind)
      → Decodes count code ks
      → scan_code opcode_size count after_call code ≡ some (same_kinds (relevant ks) (ret ∷ []))
  unfolding scan_code
  scan_after_call count code ks (stop c) = refl
  scan_after_call count code ks (last n c e) = ground (arith, kind_of-Reads c ret e)
  scan_after_call count code ks (more n c mov_eax js e ne d) =
      ground (arith, kind_of-Reads c mov_eax e)
  scan_after_call count code ks (more n c call js e ne d) = ground (arith, kind_of-Reads c call e)
  scan_after_call count code ks (more n c ret js e ne d) = cc
  scan_after_call count code ks (more n c forbidden js e ne d) =
      ground (arith, kind_of-Reads c forbidden e)
  scan_after_call count code ks (more n c other js e ne d) =
      ground (arith, kind_of-Reads c other e, scan_after_call n _ js d)

  -- With the number loaded a call comes next.
  scan_after_mov :
      (count : ℕ) (code : List ℕ) (ks : List Kind)
      → Decodes count code ks
      → scan_code opcode_size count after_mov code
        ≡ some (same_kinds (relevant ks) (call ∷ ret ∷ []))
  unfolding scan_code
  scan_after_mov count code ks (stop c) = refl
  scan_after_mov count code ks (last n c e) = ground (arith, kind_of-Reads c ret e)
  scan_after_mov count code ks (more n c mov_eax js e ne d) =
      ground (arith, kind_of-Reads c mov_eax e)
  scan_after_mov count code ks (more n c call js e ne d) =
      ground (arith, kind_of-Reads c call e, scan_after_call n _ js d)
  scan_after_mov count code ks (more n c ret js e ne d) = cc
  scan_after_mov count code ks (more n c forbidden js e ne d) =
      ground (arith, kind_of-Reads c forbidden e)
  scan_after_mov count code ks (more n c other js e ne d) =
      ground (arith, kind_of-Reads c other e, scan_after_mov n _ js d)

  -- At first the number is loaded.
  scan_at_start :
      (count : ℕ) (code : List ℕ) (ks : List Kind)
      → Decodes count code ks
      → scan_code opcode_size count at_start code
        ≡ some (same_kinds (relevant ks) (mov_eax ∷ call ∷ ret ∷ []))
  unfolding scan_code
  scan_at_start count code ks (stop c) = refl
  scan_at_start count code ks (last n c e) = ground (arith, kind_of-Reads c ret e)
  scan_at_start count code ks (more n c mov_eax js e ne d) =
      ground (arith, kind_of-Reads c mov_eax e, scan_after_mov n _ js d)
  scan_at_start count code ks (more n c call js e ne d) = ground (arith, kind_of-Reads c call e)
  scan_at_start count code ks (more n c ret js e ne d) = cc
  scan_at_start count code ks (more n c forbidden js e ne d) =
      ground (arith, kind_of-Reads c forbidden e)
  scan_at_start count code ks (more n c other js e ne d) =
      ground (arith, kind_of-Reads c other e, scan_at_start n _ js d)

  -- `IsSystemCall` accepts exactly the code whose instructions, up to the first return and at most
  -- six, load eax (B8), call and return (0xC2, 0xC3) once each, in this order, with no FF 15 or FF 25 among
  -- them; all others are passed over. A call is E8, 64 FF 15, or any instruction with FF as its first byte
  -- but FF 15 and FF 25, jumps and pushes among them.
  pub is_system_call-kinds :
      (code : List ℕ) (ks : List Kind)
      → Decodes 6 code ks
      → is_system_call opcode_size code
        ≡ some (same_kinds (relevant ks) (mov_eax ∷ call ∷ ret ∷ []))
  unfolding is_system_call
  is_system_call-kinds code ks d = scan_at_start 6 code ks d
