-- ===== src/Container/Hash.antt =====
-- The hash of a `HashTableT`: `Initialize`, `Update`, `HashData` and `HashString` of
-- source/NativeLib/my.h. A `ULONG` is a number below 2 ^ 32, and sums wrap.
use fvploader.Prelude.{ℕ, zero, suc, ◌+◌, ◌*◌, ◌/◌, ◌%◌, ◌^◌, List, [], ◌∷◌, replicate, set, get_or}
use Prim.Native.Nat.{bit_xor}
use fvploader.Container.HashTable.{HashValue}

abbrev pub u32 : ℕ → ℕ
u32 a = a % 2 ^ 32

-- `Seed = (Seed * 125 + 3) % 0x2AAAAB`
abbrev pub next_seed : ℕ → ℕ
next_seed seed = u32 (seed * 125 + 3) % 0x2AAAAB

-- the two draws of one round: `temp1 | temp2`, and the seed after them
unfoldable pub draw : ℕ → ℕ × ℕ
draw seed =
    let s1 = next_seed seed in
    let s2 = next_seed s1 in (u32 (s1 % 2 ^ 16 * 2 ^ 16) + s2 % 2 ^ 16, s2)

-- `for (index2 = index1, i = 5; i != 0; index2 += 0x100, --i)`
unfoldable pub fill_column : ℕ → ℕ → ℕ → List ℕ → List ℕ × ℕ
unfolding draw
fill_column zero index2 seed table = (table, seed)
fill_column (suc i) index2 seed table =
    let (value, seed') = draw seed in fill_column i (index2 + 0x100) seed' (set table index2 value)

-- `for (index1 = 0; index1 != 0x100; index1++)`, with the rounds that are left
unfoldable pub fill_columns : ℕ → ℕ → ℕ → List ℕ → List ℕ
unfolding fill_column
fill_columns zero index1 seed table = table
fill_columns (suc rounds) index1 seed table =
    let (table', seed') = fill_column 5 index1 seed table in
    fill_columns rounds (index1 + 1) seed' table'

-- the `CalcTable` that `Initialize` fills
unfoldable pub calc_table : List ℕ
unfolding fill_columns
calc_table = fill_columns 0x100 0 0x00100001 (replicate 0x500 0)

-- `Update`: the new `v1` and `v2`
unfoldable pub update : List ℕ → ℕ → ℕ → ℕ → ℕ → ℕ × ℕ
update table b v1 v2 t =
    let w1 = bit_xor (get_or table (t * 2 ^ 8 + b) 0) (u32 (v1 + v2)) in
    (w1, u32 (b + w1 + v2 + v2 * 2 ^ 5 + 3))

-- the three running words with their seeds
pub record Lanes : Type 0 where
  pub index : ℕ
  pub low : ℕ
  pub high : ℕ
  pub seed1 : ℕ
  pub seed2 : ℕ
  pub seed3 : ℕ

abbrev pub start_lanes : Lanes
start_lanes = record {
  index = 0x7FED7FED;
  low = 0x7FED7FED;
  high = 0x7FED7FED;
  seed1 = 0xEEEEEEEE;
  seed2 = 0xEEEEEEEE;
  seed3 = 0xEEEEEEEE;
}

-- the loop of `HashData`
unfoldable pub hash_bytes : List ℕ → List ℕ → Lanes → Lanes
unfolding update
hash_bytes table [] l = l
hash_bytes table (b ∷ bs) l =
    let (i, s1) = update table b l.index l.seed1 0 in
    let (lo, s2) = update table b l.low l.seed2 1 in
    let (hi, s3) = update table b l.high l.seed3 2 in
    hash_bytes table bs
      (record { index = i; low = lo; high = hi; seed1 = s1; seed2 = s2; seed3 = s3 })

-- `HashData`
unfoldable pub hash_data : List ℕ → List ℕ → HashValue
unfolding hash_bytes
hash_data table bytes =
    let l = hash_bytes table bytes start_lanes in
    record { index = l.index; key = l.low + l.high * 2 ^ 32 }

-- the bytes of UTF-16 code units, low byte first
unfoldable pub bytes_of_units : List ℕ → List ℕ
bytes_of_units [] = []
bytes_of_units (u ∷ us) = (u % 256) ∷ (u / 256 % 256) ∷ bytes_of_units us

-- `HashString(PCWSTR)`, of the units before the terminator
unfoldable pub hash_string : List ℕ → List ℕ → HashValue
unfolding hash_data bytes_of_units
hash_string table units = hash_data table (bytes_of_units units)
