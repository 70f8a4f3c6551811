-- ===== src/Text/Words/Copied.antt =====
-- The routines on words against those that take a byte at a time.
use fvploader.Prelude.{
  ℕ, zero, suc, ◌+◌, ◌≤◌, ◌<◌, ◌≡◌, ◌≢◌, refl, ap, ◌∙◌, Bool, true, false, some, List, [], ◌∷◌,
  ◌++◌, take, drop, length, overlay, arith, take-append, drop-append,
}
use fvploader.Text.Words.{
  length_words, copy_words, copy_pairs, str_length_a, str_copy_a, str_copy_w, str_concatenate_a,
  plus, before,
}
use fvploader.Text.Words.ZeroByte.{word_test-nonzero}

-- Bytes of a text before its terminator.
abbrev pub IsByteText : List ℕ → Type 0
IsByteText [] = Unit {0}
IsByteText (c ∷ cs) = ((c < 256) × (c ≢ 0)) × IsByteText cs

-- bytes
abbrev pub IsBytes : List ℕ → Type 0
IsBytes [] = Unit {0}
IsBytes (c ∷ cs) = (c < 256) × IsBytes cs

drop_nil : (k : ℕ) → drop {A = ℕ} k [] ≡ []
drop_nil zero = refl
drop_nil (suc k) = refl

-- what lies behind a word
drop_word : (k : ℕ) (xs : List ℕ) → drop k (drop 4 xs) ≡ drop (suc (suc (suc (suc k)))) xs
drop_word k [] = drop_nil k
drop_word k (a ∷ []) = drop_nil k
drop_word k (a ∷ b ∷ []) = drop_nil k
drop_word k (a ∷ b ∷ c ∷ []) = drop_nil k
drop_word k (a ∷ b ∷ c ∷ d ∷ xs) = refl

-- The loop over words copies a text with its terminator, and no byte more.
copy_words-overlay :
    (us rest dest : List ℕ)
    → IsByteText us
    → IsBytes rest
    → 3 ≤ length rest
    → copy_words (us ++ 0 ∷ rest) dest ≡ some (overlay (us ++ 0 ∷ []) dest)
unfolding copy_words
copy_words-overlay (a ∷ b ∷ c ∷ d ∷ us) rest dest (ha, (hb, (hc, (hd, h)))) hr long =
    let later : before (a ∷ b ∷ c ∷ d ∷ []) (copy_words (us ++ 0 ∷ rest) (drop 4 dest))
        ≡ some (overlay ((a ∷ b ∷ c ∷ d ∷ us) ++ 0 ∷ []) dest) =
      ap (before (a ∷ b ∷ c ∷ d ∷ [])) (copy_words-overlay us rest (drop 4 dest) h hr long)
      ∙ ap (λ t. some (a ∷ b ∷ c ∷ d ∷ ((us ++ 0 ∷ []) ++ t)))
          (drop_word (length (us ++ 0 ∷ [])) dest) in
    ground arith
copy_words-overlay (a ∷ b ∷ c ∷ []) (x ∷ y ∷ z ∷ rest) dest (ha, (hb, (hc, h))) hr long =
    ground (arith, word_test-nonzero a b c 0 (ha.0, hb.0, hc.0, omega arith))
copy_words-overlay (a ∷ b ∷ []) (x ∷ y ∷ z ∷ rest) dest (ha, (hb, h)) (hx, hr) long =
    ground (arith, word_test-nonzero a b 0 x (ha.0, hb.0, omega arith, hx))
copy_words-overlay (a ∷ []) (x ∷ y ∷ z ∷ rest) dest (ha, h) (hx, (hy, hr)) long =
    ground (arith, word_test-nonzero a 0 x y (ha.0, omega arith, hx, hy))
copy_words-overlay [] (x ∷ y ∷ z ∷ rest) dest h (hx, (hy, (hz, hr))) long =
    ground (arith, word_test-nonzero 0 x y z (omega arith, hx, hy, hz))
copy_words-overlay _ _ dest h hr long = absurd (omega arith)

-- The loop over words finds the terminator.
length_words-length :
    (us rest : List ℕ)
    → IsByteText us
    → IsBytes rest
    → 3 ≤ length rest
    → length_words (us ++ 0 ∷ rest) ≡ some (length us)
unfolding length_words
length_words-length (a ∷ b ∷ c ∷ d ∷ us) rest (ha, (hb, (hc, (hd, h)))) hr long =
    let later : plus 4 (length_words (us ++ 0 ∷ rest)) ≡ some (4 + length us) =
      ap (plus 4) (length_words-length us rest h hr long) in
    ground arith
length_words-length (a ∷ b ∷ c ∷ []) (x ∷ y ∷ z ∷ rest) (ha, (hb, (hc, h))) hr long =
    ground (arith, word_test-nonzero a b c 0 (ha.0, hb.0, hc.0, omega arith))
length_words-length (a ∷ b ∷ []) (x ∷ y ∷ z ∷ rest) (ha, (hb, h)) (hx, hr) long =
    ground (arith, word_test-nonzero a b 0 x (ha.0, hb.0, omega arith, hx))
length_words-length (a ∷ []) (x ∷ y ∷ z ∷ rest) (ha, h) (hx, (hy, hr)) long =
    ground (arith, word_test-nonzero a 0 x y (ha.0, omega arith, hx, hy))
length_words-length [] (x ∷ y ∷ z ∷ rest) h (hx, (hy, (hz, hr))) long =
    ground (arith, word_test-nonzero 0 x y z (omega arith, hx, hy, hz))
length_words-length _ _ h hr long = absurd (omega arith)

-- `StrLengthA` gives the number of bytes before the terminator, for every alignment of the text. The
-- three bytes behind the terminator are in memory.
pub str_length_a-length :
    (lead : ℕ) (us rest : List ℕ)
    → IsByteText us
    → IsBytes rest
    → 3 ≤ length rest
    → str_length_a lead (us ++ 0 ∷ rest) ≡ some (length us)
unfolding str_length_a
str_length_a-length zero us rest h hr long = length_words-length us rest h hr long
str_length_a-length (suc lead) [] rest h hr long = refl
str_length_a-length (suc lead) (c ∷ us) rest (hc, h) hr long =
    ground (arith, str_length_a-length lead us rest h hr long)

drop_byte : (k : ℕ) (xs : List ℕ) → drop k (drop 1 xs) ≡ drop (suc k) xs
drop_byte k [] = drop_nil k
drop_byte k (x ∷ xs) = refl

-- `StrCopyA` writes the bytes of the text and its terminator to the destination and nothing behind
-- them, for every alignment of the text. The three bytes behind the terminator are in memory.
pub str_copy_a-overlay :
    (lead : ℕ) (us rest dest : List ℕ)
    → IsByteText us
    → IsBytes rest
    → 3 ≤ length rest
    → str_copy_a lead dest (us ++ 0 ∷ rest) ≡ some (overlay (us ++ 0 ∷ []) dest)
unfolding str_copy_a
str_copy_a-overlay zero us rest dest h hr long = copy_words-overlay us rest dest h hr long
str_copy_a-overlay (suc lead) [] rest dest h hr long = refl
str_copy_a-overlay (suc lead) (c ∷ us) rest dest (hc, h) hr long =
    let later : before (c ∷ []) (str_copy_a lead (drop 1 dest) (us ++ 0 ∷ rest))
        ≡ some (overlay ((c ∷ us) ++ 0 ∷ []) dest) =
      ap (before (c ∷ [])) (str_copy_a-overlay lead us rest (drop 1 dest) h hr long)
      ∙ ap (λ t. some (c ∷ ((us ++ 0 ∷ []) ++ t))) (drop_byte (length (us ++ 0 ∷ [])) dest) in
    ground arith

-- `StrConcatenateA` keeps the text at the destination and puts the bytes of the other text and its
-- terminator behind it, and writes nothing behind them, for every alignment of both. Three
-- bytes behind each terminator are in memory.
pub str_concatenate_a-append :
    (dest_lead lead : ℕ) (ds room us rest : List ℕ)
    → IsByteText ds
    → IsBytes room
    → 3 ≤ length room
    → IsByteText us
    → IsBytes rest
    → 3 ≤ length rest
    → str_concatenate_a dest_lead lead (ds ++ 0 ∷ room) (us ++ 0 ∷ rest)
      ≡ some (ds ++ overlay (us ++ 0 ∷ []) (0 ∷ room))
unfolding str_concatenate_a
str_concatenate_a-append dest_lead lead ds room us rest hd hroom lroom h hr long =
    let dest = ds ++ 0 ∷ room in
    let n = length ds in
    let copied : List ℕ = overlay (us ++ 0 ∷ []) (0 ∷ room) in
    let copy : before (take n dest) (str_copy_a lead (drop n dest) (us ++ 0 ∷ rest))
        ≡ some (ds ++ copied) =
      ap (λ d. before (take n dest) (str_copy_a lead d (us ++ 0 ∷ rest)))
        (drop-append ds (0 ∷ room) n refl)
      ∙ ap (before (take n dest)) (str_copy_a-overlay lead us rest (0 ∷ room) h hr long)
      ∙ ap (λ t. some (t ++ copied)) (take-append ds (0 ∷ room) n refl) in
    ground (arith, str_length_a-length dest_lead ds room hd hroom lroom, copy)

drop_pair : (k : ℕ) (xs : List ℕ) → drop k (drop 2 xs) ≡ drop (suc (suc k)) xs
drop_pair k [] = drop_nil k
drop_pair k (a ∷ []) = drop_nil k
drop_pair k (a ∷ b ∷ xs) = refl

-- units of a text before its terminator
abbrev pub IsWideText : List ℕ → Type 0
IsWideText [] = Unit {0}
IsWideText (c ∷ cs) = (c ≢ 0) × IsWideText cs

copy_pairs-overlay :
    (us rest dest : List ℕ)
    → IsWideText us
    → 1 ≤ length rest
    → copy_pairs (us ++ 0 ∷ rest) dest ≡ some (overlay (us ++ 0 ∷ []) dest)
unfolding copy_pairs
copy_pairs-overlay (a ∷ b ∷ us) rest dest (ha, (hb, h)) long =
    let later : before (a ∷ b ∷ []) (copy_pairs (us ++ 0 ∷ rest) (drop 2 dest))
        ≡ some (overlay ((a ∷ b ∷ us) ++ 0 ∷ []) dest) =
      ap (before (a ∷ b ∷ [])) (copy_pairs-overlay us rest (drop 2 dest) h long)
      ∙ ap (λ t. some (a ∷ b ∷ ((us ++ 0 ∷ []) ++ t))) (drop_pair (length (us ++ 0 ∷ [])) dest) in
    ground arith
copy_pairs-overlay (a ∷ []) (x ∷ rest) dest (ha, h) long = ground arith
copy_pairs-overlay [] (x ∷ rest) dest h long = refl
copy_pairs-overlay _ [] dest h long = absurd (omega arith)

-- `StrCopyW` writes the units of the text and its terminator to the destination and nothing behind
-- them, for both alignments of the text. The unit behind the terminator is in memory.
pub str_copy_w-overlay :
    (aligned : Bool) (us rest dest : List ℕ)
    → IsWideText us
    → 1 ≤ length rest
    → str_copy_w aligned dest (us ++ 0 ∷ rest) ≡ some (overlay (us ++ 0 ∷ []) dest)
unfolding str_copy_w
str_copy_w-overlay true us rest dest h long = copy_pairs-overlay us rest dest h long
str_copy_w-overlay false [] rest dest h long = refl
str_copy_w-overlay false (c ∷ us) rest dest (hc, h) long =
    let later : before (c ∷ []) (copy_pairs (us ++ 0 ∷ rest) (drop 1 dest))
        ≡ some (overlay ((c ∷ us) ++ 0 ∷ []) dest) =
      ap (before (c ∷ [])) (copy_pairs-overlay us rest (drop 1 dest) h long)
      ∙ ap (λ t. some (c ∷ ((us ++ 0 ∷ []) ++ t))) (drop_byte (length (us ++ 0 ∷ [])) dest) in
    ground arith
