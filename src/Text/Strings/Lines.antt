-- ===== src/Text/Strings/Lines.antt =====
-- `PeekLineW` on a line that fits into the output buffer.
use fvploader.Prelude.{
  ℕ, suc, ◌-◌, ◌*◌, ◌≤◌, ◌<◌, ◌≡◌, ◌≢◌, ap, ◌∙◌, Bool, true, ◌==◌, ltb, if◌then◌else◌, some, List,
  [], ◌∷◌, ◌++◌, length, arith, ℕ_discrete, ne→==_false,
}
use fvploader.Text.Strings.{
  line_feed, carriage_return, peek_loop, PeekResult, or_null, finish, peek_line,
}

abbrev pub NoLineFeed : List ℕ → Type 0
NoLineFeed [] = Unit {0}
NoLineFeed (c ∷ cs) = (c ≢ line_feed) × NoLineFeed cs

-- a line without its carriage returns
abbrev pub printed : List ℕ → List ℕ
printed [] = []
printed (c ∷ cs) = if c == carriage_return then printed cs else c ∷ printed cs

peek_loop-line :
    (size : ℕ) (cs rest : List ℕ)
    → NoLineFeed cs
    → length (printed cs) * 2 ≤ size
    → peek_loop size (cs ++ line_feed ∷ rest)
      ≡ record { written = printed cs; buffer_left = size - length (printed cs) * 2; ahead = rest }
unfolding peek_loop
peek_loop-line size [] rest h fits =
    ap (λ n. record { written = []; buffer_left = n; ahead = rest }) (omega arith)
peek_loop-line size (c ∷ cs) rest (a, h) fits = elim (ℕ_discrete c carriage_return) [
  | yes p ↦ ground (arith, p, peek_loop-line size cs rest h (ground arith))
  | no p ↦
      let room : suc (length (printed cs)) * 2 ≤ size = ground arith in
      let left : size - 2 - length (printed cs) * 2 ≡ size - suc (length (printed cs)) * 2 =
        omega arith in
      ground (arith, p, room, left, peek_loop-line (size - 2) cs rest h (omega arith))
]

-- `PeekLineW` of a line that does not begin with a byte order mark and fits into the buffer with a
-- terminator gives the line without carriage returns, its size in bytes, and the text behind the
-- line feed; it gives NULL where both the line and that text are empty.
pub peek_line-line :
    (size c : ℕ) (cs rest : List ℕ)
    → NoLineFeed (c ∷ cs)
    → c ≢ 0xFEFF
    → length (printed (c ∷ cs)) * 2 < size
    → peek_line size ((c ∷ cs) ++ line_feed ∷ rest) ≡ record {
      output = printed (c ∷ cs) ++ 0 ∷ [];
      cb_out = length (printed (c ∷ cs)) * 2;
      next = if length (printed (c ∷ cs)) * 2 == 0 then or_null rest else some rest;
    }
unfolding peek_line
peek_line-line size c cs rest h nb fits =
    let line = printed (c ∷ cs) in
    let run = peek_loop-line size (c ∷ cs) rest h (omega arith) in
    let room : ltb 0 (size - length line * 2) ≡ true = ground arith in
    rw (ne→==_false c 0xFEFF nb) (ap finish run ∙ ap (λ (b : Bool). finished b) room)
  where
    finished : Bool → PeekResult
    finished b = record {
      output = if b then printed (c ∷ cs) ++ 0 ∷ [] else printed (c ∷ cs);
      cb_out = length (printed (c ∷ cs)) * 2;
      next = if length (printed (c ∷ cs)) * 2 == 0 then or_null rest else some rest;
    }
