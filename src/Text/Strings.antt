-- ===== src/Text/Strings.antt =====
-- Searches in texts of source/NativeLib/my.cpp: `StrLengthW`, `StrFindCharW`, `StrFindLastCharW`,
-- `PeekLineW`, `IsShiftJISChar` and `IsShiftJISString`. A text is the units from a pointer to the end
-- of its memory; the outer `none` of a result is a read behind it, the inner one is NULL.
pub mod Search
pub mod Lines
pub mod ShiftJis
use fvploader.Prelude.{
  ℕ, zero, suc, ◌+◌, ◌-◌, ◌*◌, ◌/◌, ◌%◌, Bool, true, false, not, ◌==◌, ◌&&◌, ◌||◌, ltb, leb,
  if◌then◌else◌, Option, none, some, List, [], ◌∷◌, ◌++◌, length,
}

abbrev pub plus : ℕ → Option ℕ → Option ℕ
plus k r = elim r [ none ↦ none | some n ↦ some (k + n) ]

-- The loop of `StrLengthW` over aligned pairs of units; the pair of the terminator lies in one
-- aligned word, of which the second unit is not looked at.
unfoldable pub pair_loop : List ℕ → Option ℕ
pair_loop [] = none
pair_loop (a ∷ []) = if a == 0 then some 0 else none
pair_loop (a ∷ b ∷ p) =
    let later : Option ℕ = plus 2 (pair_loop p) in
    if a == 0 then some 0 else if b == 0 then some 1 else later

-- `StrLengthW` of a text at an even address, which is `aligned` to four bytes or not
unfoldable pub str_length : Bool → List ℕ → Option ℕ
unfolding pair_loop
str_length true text = pair_loop text
str_length false [] = none
str_length false (c ∷ p) = if c == 0 then some 0 else plus 1 (pair_loop p)

-- The loop of `StrFindCharW` from the offset `i`.
unfoldable pub find_loop : ℕ → ℕ → List ℕ → Option (Option ℕ)
find_loop c i [] = none
find_loop c i (ch ∷ p) =
    let later : Option (Option ℕ) = find_loop c (i + 1) p in
    if ch == 0 then some none else if ch == c then some (some i) else later

abbrev pub at_end : Option ℕ → Option (Option ℕ)
at_end r = elim r [ none ↦ none | some n ↦ some (some n) ]

-- `StrFindCharW` of a text that is not NULL
unfoldable pub str_find_char : Bool → List ℕ → ℕ → Option (Option ℕ)
unfolding find_loop str_length
str_find_char aligned text c =
    if c == 0 then at_end (str_length aligned text) else find_loop c 0 text

-- The loop of `StrFindLastCharW` at the offset `pos`, with `CurPos` so far.
unfoldable pub find_last_loop : ℕ → ℕ → ℕ → List ℕ → Option ℕ
find_last_loop c pos cur [] = none
find_last_loop c pos cur (ch ∷ p) =
    let next : ℕ = if ch == c then pos else cur in
    let later : Option ℕ = find_last_loop c (pos + 1) next p in if ch == 0 then some next else later

-- `StrFindLastCharW` of a text that is not NULL; the offset 0 is taken for no match.
unfoldable pub str_find_last_char : Bool → List ℕ → ℕ → Option (Option ℕ)
unfolding find_last_loop str_length
str_find_last_char aligned text c =
    if c == 0 then at_end (str_length aligned text) else elim (find_last_loop c 0 0 text) [
      | none ↦ none
      | some cur ↦ some (if cur == 0 then none else some cur)
    ]

-- What `PeekLineW` has written when it leaves its loop, what is left of the buffer's size, and the
-- text that is ahead of `pStart`.
pub record Peeked : Type 0 where
  pub written : List ℕ
  pub buffer_left : ℕ
  pub ahead : List ℕ

abbrev pub line_feed : ℕ
line_feed = 10

abbrev pub carriage_return : ℕ
carriage_return = 13

-- `while (pStart < pEnd)`. `BufferSize` may fall below 0, which like 0 stops the copy.
unfoldable pub peek_loop : ℕ → List ℕ → Peeked
peek_loop size [] = record { written = []; buffer_left = size; ahead = [] }
peek_loop size (ch ∷ p) =
    let kept : Peeked = peek_loop (size - 2) p in
    let skipped : Peeked = peek_loop size p in
    if ch == line_feed
    then record { written = []; buffer_left = size; ahead = p }
    else if ltb 0 size && not (ch == carriage_return)
    then record { written = ch ∷ kept.written; buffer_left = kept.buffer_left; ahead = kept.ahead }
    else skipped

-- The output buffer, `*pcbOutBuffer` and the result of `PeekLineW`.
pub record PeekResult : Type 0 where
  pub output : List ℕ
  pub cb_out : ℕ
  pub next : Option (List ℕ)

abbrev pub or_null : List ℕ → Option (List ℕ)
or_null p = elim p [ [] ↦ none | c ∷ cs ↦ some (c ∷ cs) ]

abbrev pub finish : Peeked → PeekResult
finish k = record {
  output = if ltb 0 k.buffer_left then k.written ++ 0 ∷ [] else k.written;
  cb_out = length k.written * 2;
  next = if length k.written * 2 == 0 then or_null k.ahead else some k.ahead;
}

-- `PeekLineW` of the units up to `pEndOfBuffer`, with an output buffer of `size` bytes
unfoldable pub peek_line : ℕ → List ℕ → PeekResult
unfolding peek_loop
peek_line size [] = record { output = []; cb_out = 0; next = none }
peek_line size (c ∷ p) = finish (peek_loop size (if c == 0xFEFF then p else c ∷ p))

-- `IsShiftJISChar`
unfoldable pub is_shift_jis_char : ℕ → Bool
is_shift_jis_char u =
    let low = u % 256 in
    let high = u / 256 % 256 in
    if leb 0x80 high && leb high 0x9F || leb 0xE0 high && leb high 0xFC
    then leb 0x40 low && leb low 0x7E || leb 0x80 low && leb low 0xFC
    else false

-- The loop of `IsShiftJISString` over `length` bytes; a byte above 127 is a negative `Char`.
unfoldable pub shift_jis_loop : Bool → ℕ → List ℕ → Option Bool
unfolding is_shift_jis_char
shift_jis_loop seen length [] = if length == 0 then some seen else none
shift_jis_loop seen length (c ∷ []) =
    if length == 0
    then some seen
    else if c == 0
    then some seen
    else if ltb c 128
    then (if length == 1 then some seen else none)
    else if length == 1
    then some seen
    else none
shift_jis_loop seen length (c ∷ d ∷ p) =
    let single : Option Bool = shift_jis_loop seen (length - 1) (d ∷ p) in
    let double : Option Bool = shift_jis_loop true (length - 2) p in
    if length == 0
    then some seen
    else if c == 0
    then some seen
    else if ltb c 128
    then single
    else if length == 1
    then some seen
    else if is_shift_jis_char (c * 256 + d)
    then double
    else some false

-- `IsShiftJISString` of a string that is not NULL
unfoldable pub is_shift_jis_string : List ℕ → ℕ → Option Bool
unfolding shift_jis_loop
is_shift_jis_string text length = shift_jis_loop false length text
