-- ===== src/Text/Words.antt =====
-- `StrLengthA`, `StrCopyA`, `StrCopyW` and the concatenations of source/NativeLib/my.cpp, which read a
-- word of four bytes at a time from an aligned address. A text is the memory from its start;
-- `none` is a read behind that.
pub mod ZeroByte
pub mod Copied
use fvploader.Prelude.{
  ℕ, zero, suc, ◌+◌, ◌%◌, ◌^◌, Bool, true, false, ◌==◌, if◌then◌else◌, Option, none, some, List, [],
  ◌∷◌, ◌++◌, ◌-◌, take, drop, of_bytes,
}
use Prim.Native.Nat.{bit_and, bit_xor}

-- `(0x7EFEFEFF + ch) ^ (ch ^ -1)` and the mask
unfoldable pub word_test : ℕ → ℕ
word_test ch = bit_and (bit_xor ((0x7EFEFEFF + ch) % 2 ^ 32) (bit_xor ch (2 ^ 32 - 1))) 0x81010100

-- the word of four bytes in memory
abbrev pub word_of : ℕ → ℕ → ℕ → ℕ → ℕ
word_of a b c d = of_bytes (a ∷ b ∷ c ∷ d ∷ [])

-- a length, and the bytes that were passed
abbrev pub plus : ℕ → Option ℕ → Option ℕ
plus k o = elim o [ none ↦ none | some n ↦ some (k + n) ]

-- The loop of `StrLengthA` over words.
unfoldable pub length_words : List ℕ → Option ℕ
unfolding word_test
length_words (a ∷ b ∷ c ∷ d ∷ rest) =
    let later : Option ℕ = plus 4 (length_words rest) in
    if word_test (word_of a b c d) == 0
    then later
    else if a == 0
    then some 0
    else if b == 0
    then some 1
    else if c == 0
    then some 2
    else if d == 0
    then some 3
    else later
length_words _ = none

-- `StrLengthA`, of a text whose address is `lead` bytes before a multiple of four
unfoldable pub str_length_a : ℕ → List ℕ → Option ℕ
unfolding length_words
str_length_a zero text = length_words text
str_length_a (suc lead) [] = none
str_length_a (suc lead) (c ∷ text) = if c == 0 then some 0 else plus 1 (str_length_a lead text)

-- bytes written before others
abbrev pub before : List ℕ → Option (List ℕ) → Option (List ℕ)
before w o = elim o [ none ↦ none | some r ↦ some (w ++ r) ]

-- The loop of `StrCopyA` over words: the memory at the destination afterwards.
unfoldable pub copy_words : List ℕ → List ℕ → Option (List ℕ)
unfolding word_test
copy_words (a ∷ b ∷ c ∷ d ∷ rest) dest =
    let word = a ∷ b ∷ c ∷ d ∷ [] in
    let later : Option (List ℕ) = before word (copy_words rest (drop 4 dest)) in
    if word_test (word_of a b c d) == 0
    then later
    else if a == 0
    then some (a ∷ drop 1 dest)
    else if b == 0
    then some (a ∷ b ∷ drop 2 dest)
    else if c == 0
    then some (a ∷ b ∷ c ∷ drop 3 dest)
    else if d == 0
    then some (a ∷ b ∷ c ∷ d ∷ drop 4 dest)
    else later
copy_words _ dest = none

-- `StrCopyA`, of pointers that are not NULL, into memory that the source is not in
unfoldable pub str_copy_a : ℕ → List ℕ → List ℕ → Option (List ℕ)
unfolding copy_words
str_copy_a zero dest source = copy_words source dest
str_copy_a (suc lead) dest [] = none
str_copy_a (suc lead) dest (c ∷ source) =
    if c == 0
    then some (c ∷ drop 1 dest)
    else before (c ∷ []) (str_copy_a lead (drop 1 dest) source)

-- `StrConcatenateA`: the addresses of both texts are given by their distances from a multiple of four.
unfoldable pub str_concatenate_a : ℕ → ℕ → List ℕ → List ℕ → Option (List ℕ)
unfolding str_length_a str_copy_a
str_concatenate_a dest_lead source_lead dest source = elim (str_length_a dest_lead dest) [
  | none ↦ none
  | some n ↦ before (take n dest) (str_copy_a source_lead (drop n dest) source)
]

-- The loop of `StrCopyW` over words of two units.
unfoldable pub copy_pairs : List ℕ → List ℕ → Option (List ℕ)
copy_pairs (a ∷ b ∷ rest) dest =
    let later : Option (List ℕ) = before (a ∷ b ∷ []) (copy_pairs rest (drop 2 dest)) in
    if a == 0 then some (a ∷ drop 1 dest) else if b == 0 then some (a ∷ b ∷ drop 2 dest) else later
copy_pairs _ dest = none

-- `StrCopyW`, of a source whose address is a multiple of four or only of two
unfoldable pub str_copy_w : Bool → List ℕ → List ℕ → Option (List ℕ)
unfolding copy_pairs
str_copy_w true dest source = copy_pairs source dest
str_copy_w false dest [] = none
str_copy_w false dest (c ∷ source) =
    if c == 0 then some (c ∷ drop 1 dest) else before (c ∷ []) (copy_pairs source (drop 1 dest))
