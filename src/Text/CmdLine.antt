-- ===== src/Text/CmdLine.antt =====
-- `CmdLineToArgvW` of source/NativeLib/my.cpp, and its worker, which is called twice: to count, and
-- with `pArgv` to cut the copy of the command line into arguments.
pub mod Passes
pub mod Arguments
pub mod Words
use fvploader.Prelude.{
  ℕ, zero, suc, ◌+◌, Bool, true, false, ◌==◌, ◌||◌, if◌then◌else◌, Option, none, some, List, [],
  ◌∷◌, ◌++◌, length, take,
}

abbrev pub quote : ℕ
quote = b'"'

abbrev pub space : ℕ
space = b' '

-- `*pszCmdLine == '\t' || *pszCmdLine == ' '`
abbrev pub is_blank : ℕ → Bool
is_blank c = c == 9 || c == space

-- what a loop over the text did: the units behind it as they now are, and the text before it
pub record Walk : Type 0 where
  pub behind : List ℕ
  pub ahead : List ℕ

abbrev pub walk_on : ℕ → Option Walk → Option Walk
walk_on c r = elim r [
  | none ↦ none
  | some w ↦ some (record { behind = c ∷ w.behind; ahead = w.ahead })
]

-- The loop to the end of an argument; with `cut` the separator becomes a terminator.
unfoldable pub scan_argument : Bool → ℕ → List ℕ → Option Walk
scan_argument cut separator [] = none
scan_argument cut separator (ch ∷ p) =
    let rest : Option Walk = walk_on ch (scan_argument cut separator p) in
    if ch == separator
    then some (record { behind = (if cut then 0 else ch) ∷ []; ahead = p })
    else if ch == 0
    then some (record { behind = []; ahead = ch ∷ p })
    else rest

-- `while (*pszCmdLine == '\t' || *pszCmdLine == ' ') ++pszCmdLine;`
unfoldable pub skip_blanks : List ℕ → Option Walk
skip_blanks [] = none
skip_blanks (ch ∷ p) =
    let rest : Option Walk = walk_on ch (skip_blanks p) in
    if is_blank ch then rest else some (record { behind = []; ahead = ch ∷ p })

-- `argc`, the offsets stored through `pArgv`, the text from the start as it now is, and
-- `*pCmdLineLength`
pub record Parsed : Type 0 where
  pub argc : ℕ
  pub argv : List ℕ
  pub buffer : List ℕ
  pub cmd_line_length : ℕ

-- the results of the later rounds, behind one argument that started at `start`
abbrev pub add_argument : ℕ → List ℕ → Option Parsed → Option Parsed
add_argument start units r = elim r [
  | none ↦ none
  | some q ↦ some (record {
    argc = q.argc + 1;
    argv = start ∷ q.argv;
    buffer = units ++ q.buffer;
    cmd_line_length = q.cmd_line_length;
  })
]

-- `CmdLineToArgvWorkerW` from the offset `at`; every round takes at least one unit, so as many
-- rounds as there are units are enough.
unfoldable pub parse_arguments : ℕ → Bool → ℕ → List ℕ → Option Parsed
unfolding scan_argument skip_blanks
parse_arguments zero cut at p = none
parse_arguments (suc rounds) cut at [] = none
parse_arguments (suc rounds) cut at (first ∷ p) =
    let separator = if first == quote then quote else space in
    let start = at + (if first == quote then 1 else 0) in
    elim (first == 0) [
      | true ↦ some (record { argc = 0; argv = []; buffer = first ∷ p; cmd_line_length = at + 1 })
      | false ↦ elim (scan_argument cut separator p) [
        | none ↦ none
        | some w ↦ elim (skip_blanks w.ahead) [
          | none ↦ none
          | some b ↦
              let units = first ∷ (w.behind ++ b.behind) in
              add_argument start units (parse_arguments rounds cut (at + length units) b.ahead)
        ]
      ]
    ]

-- `CmdLineToArgvW`; `none` inside is a failed allocation, `none` outside a read past the text.
unfoldable pub cmd_line_to_argv : Bool → List ℕ → Option (Option Parsed)
unfolding parse_arguments
cmd_line_to_argv allocated text = elim (parse_arguments (length text) false 0 text) [
  | none ↦ none
  | some counted ↦
      if allocated
      then elim (parse_arguments (length text) true 0 (take counted.cmd_line_length text)) [
        | none ↦ none
        | some parsed ↦ some (some parsed)
      ]
      else some none
]
