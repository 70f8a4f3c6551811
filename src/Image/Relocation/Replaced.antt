-- ===== src/Image/Relocation/Replaced.antt =====
-- Which memory the relocations change.
use fvploader.Prelude.{
  ℕ, zero, suc, ◌+◌, ◌-◌, ◌*◌, ◌%◌, ◌^◌, ◌≤◌, ◌<◌, ◌≡◌, ◌≢◌, refl, ap, ap₂, Bool, not, ◌==◌, ◌&&◌,
  ltb, leb, Bool-cases, inl, inr, dword_bytes, if◌then◌else◌, ◌∙◌, ◌⊎◌, some, List, [], ◌∷◌, length,
  length-dword_bytes, arith,
}
use fvploader.Patch.Memory.{Memory, poke, dword_at}
use fvploader.Image.{field}
use fvploader.Image.Relocation.{
  RelocateAddressInfo, relocate_entry, entry_loop, entry_count, block_loop, process_one_relocate,
}

-- a block: its address and its entries
abbrev pub block_size : List ℕ → ℕ
block_size ws = 8 + 2 * length ws

-- The entries from a place on.
abbrev pub AreEntries : List ℕ → ℕ → List ℕ → Type 0
AreEntries table pos [] = Unit {0}
AreEntries table pos (w ∷ ws) = (field table pos 2 ≡ some w) × AreEntries table (pos + 2) ws

-- The blocks from a place on, of `left` bytes.
abbrev pub AreBlocks : List ℕ → ℕ → ℕ → List (ℕ × List ℕ) → Type 0
AreBlocks table pos left [] = left ≡ 0
AreBlocks table pos left ((va, ws) ∷ bs) =
    ((field table pos 4 ≡ some va)
      × (field table (pos + 4) 4 ≡ some (block_size ws))
      × (block_size ws < 2 ^ 31)
      × (pos + block_size ws < 2 ^ 32)
      × (block_size ws ≤ left)
      × AreEntries table (pos + 8) ws)
    × AreBlocks table (pos + block_size ws) (left - block_size ws) bs

-- An address is in no slot that an entry of the block lists.
abbrev pub IsOutsideBlock : ℕ → ℕ → List ℕ → Type 0
IsOutsideBlock x base [] = Unit {0}
IsOutsideBlock x base (w ∷ ws) =
    ((x < base + w % 4096) ⊎ (base + w % 4096 + 4 ≤ x)) × IsOutsideBlock x base ws

abbrev pub IsOutside : ℕ → ℕ → List (ℕ × List ℕ) → Type 0
IsOutside x image_base [] = Unit {0}
IsOutside x image_base ((va, ws) ∷ bs) =
    IsOutsideBlock x (image_base + va) ws × IsOutside x image_base bs

-- One round of the outer loop.
block_step :
    (info : RelocateAddressInfo) (table : List ℕ) (image_base fuel left pos va size : ℕ)
    (m m1 : Memory)
    → left ≢ 0
    → field table pos 4 ≡ some va
    → field table (pos + 4) 4 ≡ some size
    → entry_loop info table (entry_count size) (pos + 8) (image_base + va) m ≡ some m1
    → block_loop info table image_base (suc fuel) left pos m
      ≡ block_loop info table image_base fuel
          (if leb (2 ^ 31) size then left + (2 ^ 32 - size) else left - size)
          ((pos + size) % 2 ^ 32)
          m1
unfolding block_loop
block_step info table image_base fuel left pos va size m m1 nz e1 e2 run = ground arith

module _ (info : RelocateAddressInfo) where
  -- An entry stands for a replacement: it is not 0, its type is one of the first four, the DWORD that it
  -- lists is the address to relocate, and the place may be changed.
  abbrev pub is_replaced : ℕ → ℕ → Memory → Bool
  is_replaced base w m =
      not (w == 0)
      && (ltb w 0x4000
          && (dword_at m (base + w % 4096) == info.address_to_relocate
              && info.can_relocate (base + w % 4096)))

  -- The memory with the new address in the place that an entry lists, if that is replaced.
  abbrev pub replaced_entry : ℕ → ℕ → Memory → Memory
  replaced_entry base w m =
      if is_replaced base w m then poke m (base + w % 4096) (dword_bytes info.new_address) else m

  relocate_entry-replaced :
      (base w : ℕ) (m : Memory) → relocate_entry info base w m ≡ replaced_entry base w m
  unfolding relocate_entry
  relocate_entry-replaced base w m = elim (Bool-cases (info.can_relocate (base + w % 4096))) [
    | inl y ↦ ground (arith, y)
    | inr n ↦ ground (arith, n)
  ]

  -- the entries of a block and of all blocks, one behind the other
  abbrev pub relocate_entries : ℕ → List ℕ → Memory → Memory
  relocate_entries base [] m = m
  relocate_entries base (w ∷ ws) m = relocate_entries base ws (replaced_entry base w m)

  abbrev pub relocate_blocks : ℕ → List (ℕ × List ℕ) → Memory → Memory
  relocate_blocks image_base [] m = m
  relocate_blocks image_base ((va, ws) ∷ bs) m =
      relocate_blocks image_base bs (relocate_entries (image_base + va) ws m)

  relocate_entry_kept :
      (x base w : ℕ) (m : Memory)
      → (x < base + w % 4096) ⊎ (base + w % 4096 + 4 ≤ x)
      → replaced_entry base w m x ≡ m x
  relocate_entry_kept x base w m out = ground (arith, length-dword_bytes info.new_address)

  relocate_entries_kept :
      (x base : ℕ) (ws : List ℕ) (m : Memory)
      → IsOutsideBlock x base ws
      → relocate_entries base ws m x ≡ m x
  relocate_entries_kept x base [] m out = refl
  relocate_entries_kept x base (w ∷ ws) m (out, rest) =
      relocate_entries_kept x base ws (replaced_entry base w m) rest
      ∙ relocate_entry_kept x base w m out

  relocate_blocks_kept :
      (x image_base : ℕ) (bs : List (ℕ × List ℕ)) (m : Memory)
      → IsOutside x image_base bs
      → relocate_blocks image_base bs m x ≡ m x
  relocate_blocks_kept x image_base [] m out = refl
  relocate_blocks_kept x image_base ((va, ws) ∷ bs) m (out, rest) =
      relocate_blocks_kept x image_base bs (relocate_entries (image_base + va) ws m) rest
      ∙ relocate_entries_kept x (image_base + va) ws m out

  entry_loop_lem :
      (table : List ℕ) (pos base : ℕ) (ws : List ℕ) (m : Memory)
      → AreEntries table pos ws
      → entry_loop info table (length ws) pos base m ≡ some (relocate_entries base ws m)
  unfolding entry_loop
  entry_loop_lem table pos base [] m h = refl
  entry_loop_lem table pos base (w ∷ ws) m (e, h) = ground (
    arith,
    relocate_entry-replaced base w m,
    entry_loop_lem table (pos + 2) base ws (replaced_entry base w m) h,
  )

  block_loop_lem :
      (table : List ℕ) (image_base fuel left pos : ℕ) (bs : List (ℕ × List ℕ)) (m : Memory)
      → left < fuel
      → AreBlocks table pos left bs
      → block_loop info table image_base fuel left pos m ≡ some (relocate_blocks image_base bs m)
  unfolding block_loop
  block_loop_lem table image_base zero left pos bs m lt h = absurd (omega arith)
  block_loop_lem table image_base (suc fuel) left pos [] m lt h = ground arith
  block_loop_lem table image_base (suc fuel) left pos ((va, ws) ∷ bs) m lt
        ((e1, e2, small, near, fits, entries), h) =
      let size = block_size ws in
      let m1 : Memory = relocate_entries (image_base + va) ws m in
      let count : entry_count size ≡ length ws = ground arith in
      let run : entry_loop info table (entry_count size) (pos + 8) (image_base + va) m ≡ some m1 =
        ap (λ n. entry_loop info table n (pos + 8) (image_base + va) m) count
        ∙ entry_loop_lem table (pos + 8) (image_base + va) ws m entries in
      let less_left : (if leb (2 ^ 31) size then left + (2 ^ 32 - size) else left - size)
          ≡ left - size =
        ground arith in
      let next : (pos + size) % 2 ^ 32 ≡ pos + size = omega arith in
      let rest : block_loop info table image_base fuel
            (if leb (2 ^ 31) size then left + (2 ^ 32 - size) else left - size)
            ((pos + size) % 2 ^ 32) m1
          ≡ some (relocate_blocks image_base bs m1) =
        ap₂ (λ l p. block_loop info table image_base fuel l p m1) less_left next
        ∙ block_loop_lem table image_base fuel (left - size) (pos + size) bs m1 (omega arith) h in
      block_step info table image_base fuel left pos va size m m1 (λ z. omega arith) e1 e2 run
      ∙ rest

  -- `ProcessOneRelocate` over relocations that are blocks of the given size comes to its end. For the
  -- entries in their order, it writes the new address into the place that an entry lists, where the entry is
  -- not 0 and of one of the first four types, the place holds the address to relocate, and it may be
  -- changed; it changes no byte outside of the four that an entry lists.
  pub process_one_relocate-relocate_blocks :
      (table : List ℕ) (image_base size_of_relocation : ℕ) (bs : List (ℕ × List ℕ)) (m : Memory)
      → AreBlocks table 0 size_of_relocation bs
      → (process_one_relocate info table image_base size_of_relocation m
          ≡ some (relocate_blocks image_base bs m))
        × ((x : ℕ) → IsOutside x image_base bs → relocate_blocks image_base bs m x ≡ m x)
  unfolding process_one_relocate
  process_one_relocate-relocate_blocks table image_base size_of_relocation bs m h = (
    block_loop_lem table image_base (suc size_of_relocation) size_of_relocation 0 bs m (omega arith)
        h,
    λ x out. relocate_blocks_kept x image_base bs m out,
  )
