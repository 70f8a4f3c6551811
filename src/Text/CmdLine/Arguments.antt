-- ===== src/Text/CmdLine/Arguments.antt =====
-- The arguments that `CmdLineToArgvW` finds in a command line of quoted and plain words.
use fvploader.Prelude.{
  ℕ, suc, ◌+◌, ◌≡◌, ◌≢◌, refl, ap₂, subst, Bool, true, false, ◌==◌, if◌then◌else◌, some, List, [],
  ◌∷◌, ◌++◌, map, length, drop, arith, length-append, drop-append,
}
use mathlib.Core.List.{append_assoc}
use fvploader.Text.CmdLine.{
  quote, space, is_blank, Walk, scan_argument, skip_blanks, Parsed, parse_arguments,
}

-- the C string at an offset
abbrev pub until_zero : List ℕ → List ℕ
until_zero [] = []
until_zero (c ∷ p) = if c == 0 then [] else c ∷ until_zero p

pub string_at : List ℕ → ℕ → List ℕ
string_at buffer i = until_zero (drop i buffer)

-- an argument as it is typed: plain, or between quotes
pub data Word : Type 0 where
  plain : ℕ → List ℕ → Word
  quoted : List ℕ → Word

abbrev pub text_of : Word → List ℕ
text_of (plain c cs) = c ∷ cs
text_of (quoted cs) = cs

abbrev pub Without : ℕ → List ℕ → Type 0
Without s [] = Unit {0}
Without s (c ∷ cs) = (c ≢ s) × (c ≢ 0) × Without s cs

-- A plain word does not begin with a quote or a blank and holds no space; a quoted one holds no quote.
abbrev pub IsWord : Word → Type 0
IsWord (plain c cs) = (c ≢ quote) × (c ≢ 0) × (is_blank c ≡ false) × Without space cs
IsWord (quoted cs) = Without quote cs

abbrev pub AllWords : List Word → Type 0
AllWords [] = Unit {0}
AllWords (w ∷ ws) = IsWord w × AllWords ws

abbrev pub print_word : Word → List ℕ
print_word (plain c cs) = c ∷ cs
print_word (quoted cs) = quote ∷ (cs ++ quote ∷ [])

-- a command line: the words with a space between
abbrev pub print_words : List Word → List ℕ
print_words [] = []
print_words (w ∷ []) = print_word w
print_words (w ∷ v ∷ ws) = print_word w ++ space ∷ print_words (v ∷ ws)

pub scan_argument-separator :
    (cut : Bool) (s : ℕ) (cs rest : List ℕ)
    → Without s cs
    → scan_argument cut s (cs ++ s ∷ rest)
      ≡ some (record { behind = cs ++ (if cut then 0 else s) ∷ []; ahead = rest })
unfolding scan_argument
scan_argument-separator cut s [] rest h = ground arith
scan_argument-separator cut s (c ∷ cs) rest (a, b, h) =
    ground (arith, scan_argument-separator cut s cs rest h)

pub scan_argument-end :
    (cut : Bool) (s : ℕ) (cs rest : List ℕ)
    → s ≢ 0
    → Without s cs
    → scan_argument cut s (cs ++ 0 ∷ rest) ≡ some (record { behind = cs; ahead = 0 ∷ rest })
unfolding scan_argument
scan_argument-end cut s [] rest nz h = ground arith
scan_argument-end cut s (c ∷ cs) rest nz (a, b, h) =
    ground (arith, scan_argument-end cut s cs rest nz h)

pub skip_blanks-stop :
    (c : ℕ) (rest : List ℕ)
    → is_blank c ≡ false
    → skip_blanks (c ∷ rest) ≡ some (record { behind = []; ahead = c ∷ rest })
unfolding skip_blanks
skip_blanks-stop c rest h = rw h

pub skip_blanks-space :
    (c : ℕ) (rest : List ℕ)
    → is_blank c ≡ false
    → skip_blanks (space ∷ c ∷ rest) ≡ some (record { behind = space ∷ []; ahead = c ∷ rest })
unfolding skip_blanks
skip_blanks-space c rest h = rw h

until_zero-append : (s : ℕ) (cs rest : List ℕ) → Without s cs → until_zero (cs ++ 0 ∷ rest) ≡ cs
until_zero-append s [] rest h = refl
until_zero-append s (c ∷ cs) rest (a, b, h) = ground (arith, until_zero-append s cs rest h)

-- One round of the worker.
parse_round :
    (rounds at : ℕ) (cut : Bool) (first : ℕ) (p : List ℕ) (w b : Walk) (q : Parsed)
    → first ≢ 0
    → scan_argument cut (if first == quote then quote else space) p ≡ some w
    → skip_blanks w.ahead ≡ some b
    → parse_arguments rounds cut (at + length (first ∷ (w.behind ++ b.behind))) b.ahead ≡ some q
    → parse_arguments (suc rounds) cut at (first ∷ p)
      ≡ some (record {
        argc = q.argc + 1;
        argv = (at + (if first == quote then 1 else 0)) ∷ q.argv;
        buffer = (first ∷ (w.behind ++ b.behind)) ++ q.buffer;
        cmd_line_length = q.cmd_line_length;
      })
unfolding parse_arguments
parse_round rounds at cut first p w b q nz hs hb hq = ground arith

-- What the worker makes of `text` behind `pre`: these words, up to a terminator that `left` units
-- follow.
pub record Finds (rounds : ℕ) (cut : Bool) (left : ℕ) (pre text : List ℕ) (ws : List Word)
    : Type 0 where
  pub parsed : Parsed
  pub run : parse_arguments rounds cut (length pre) text ≡ some parsed
  pub argc : parsed.argc ≡ length ws
  pub end_lem : parsed.cmd_line_length + left ≡ length pre + length text
  pub strings : cut ≡ true → map (string_at (pre ++ parsed.buffer)) parsed.argv ≡ map text_of ws

-- A round in front of later ones.
pub Finds-cons :
    (rounds : ℕ) (cut : Bool) (left : ℕ) (pre : List ℕ) (first : ℕ) (p : List ℕ) (w b : Walk)
    (word : Word) (ws : List Word)
    → first ≢ 0
    → scan_argument cut (if first == quote then quote else space) p ≡ some w
    → skip_blanks w.ahead ≡ some b
    → (f : Finds rounds cut left (pre ++ first ∷ (w.behind ++ b.behind)) b.ahead ws)
    → (cut ≡ true
        → string_at
            (pre ++ ((first ∷ (w.behind ++ b.behind)) ++ f.parsed.buffer))
            (length pre + (if first == quote then 1 else 0))
          ≡ text_of word)
    → length (w.behind ++ b.behind) + length b.ahead ≡ length p
    → Finds (suc rounds) cut left pre (first ∷ p) (word ∷ ws)
Finds-cons rounds cut left pre first p w b word ws nz hs hb f here sum =
    let units = first ∷ (w.behind ++ b.behind) in
    record {
      parsed = _;
      run = parse_round rounds (length pre) cut first p w b f.parsed nz hs hb (
          subst (λ (k : ℕ). parse_arguments rounds cut k b.ahead ≡ some f.parsed)
            (length-append pre units) f.run);
      argc = omega (arith, f.argc);
      end_lem = omega (arith, f.end_lem, sum, length-append pre units);
      strings = λ e. ap₂ ◌∷◌ (here e) (
          subst (λ (z : List ℕ). map (string_at z) f.parsed.argv ≡ map text_of ws)
            (append_assoc pre units f.parsed.buffer) (f.strings e));
    }

unfoldable pub Finds-nil :
    (rounds : ℕ) (cut : Bool) (pre rest : List ℕ)
    → Finds (suc rounds) cut (length rest) pre (0 ∷ rest) []
unfolding parse_arguments
Finds-nil rounds cut pre rest = record {
  parsed = record { argc = 0; argv = []; buffer = 0 ∷ rest; cmd_line_length = length pre + 1 };
  run = refl;
  argc = refl;
  end_lem = omega arith;
  strings = λ e. refl;
}

-- The string of a word that starts right behind `pre`, and one behind a quote.
pub string_at-plain :
    (pre : List ℕ) (s c : ℕ) (cs rest : List ℕ)
    → c ≢ 0
    → Without s cs
    → string_at (pre ++ (c ∷ (cs ++ 0 ∷ rest))) (length pre + 0) ≡ c ∷ cs
unfolding string_at
string_at-plain pre s c cs rest nz h =
    let e : length pre ≡ length pre + 0 = omega arith in
    rw (drop-append pre (c ∷ (cs ++ 0 ∷ rest)) (length pre + 0) e)
      (ground (arith, until_zero-append s cs rest h))

pub string_at-quoted :
    (pre : List ℕ) (s c : ℕ) (cs rest : List ℕ)
    → Without s cs
    → string_at (pre ++ (c ∷ (cs ++ 0 ∷ rest))) (length pre + 1) ≡ cs
unfolding string_at
string_at-quoted pre s c cs rest h =
    let e : length (pre ++ c ∷ []) ≡ length pre + 1 = omega (arith, length-append pre (c ∷ [])) in
    rw
      (
        ← append_assoc pre (c ∷ []) (cs ++ 0 ∷ rest),
        drop-append (pre ++ c ∷ []) (cs ++ 0 ∷ rest) (length pre + 1) e,
      )
      (until_zero-append s cs rest h)
