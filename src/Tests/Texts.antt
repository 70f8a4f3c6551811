-- ===== src/Tests/Texts.antt =====
-- The readers of texts at concrete texts.
use fvploader.Prelude.{
  ℕ, ◌≤◌, ◌<◌, ◌≡◌, refl, inl, inr, true, false, some, List, [], ◌∷◌, ◌++◌, map, length, arith,
}
use fvploader.Text.CmdLine.{
  scan_argument, skip_blanks, Parsed, parse_arguments, cmd_line_to_argv, space,
}
use fvploader.Text.CmdLine.Arguments.{string_at, Word, plain, quoted, print_words}
use fvploader.Text.CmdLine.Words.{cmd_line_to_argv-words}
use fvploader.Text.CmdLine.Passes.{Agree, parse_arguments_total, parse_arguments-cut}
use fvploader.Text.Numbers.{
  string_to_int32_a, string_to_int32_w, string_to_int64_a, string_to_int64_w,
}
use fvploader.Text.Numbers.Decimal.{signed_text, string_to_int-digits}

-- the words of `a.exe "b c"`
abbrev some_words : List Word
some_words = plain b'a' (b'.' ∷ b'e' ∷ []) ∷ quoted (b'b' ∷ space ∷ b'c' ∷ []) ∷ []

cmd_line_to_argv-words_example :
    (q : Parsed) × (cmd_line_to_argv true (print_words some_words ++ 0 ∷ []) ≡ some (some q))
    × (q.argc ≡ 2)
    × (map (string_at q.buffer) q.argv
        ≡ (b'a' ∷ b'.' ∷ b'e' ∷ []) ∷ (b'b' ∷ space ∷ b'c' ∷ []) ∷ [])
cmd_line_to_argv-words_example = cmd_line_to_argv-words some_words (
  (omega arith, omega arith, refl, (omega arith, omega arith, (omega arith, omega arith, tt))),
  ((omega arith, omega arith, (omega arith, omega arith, (omega arith, omega arith, tt))), tt),
)

abbrev typed : List ℕ
typed = b'a' ∷ space ∷ b'b' ∷ 0 ∷ []

parse_arguments_total_example :
    (r : Parsed) × (parse_arguments 4 true 0 typed ≡ some r)
    × (length r.buffer ≡ 4)
    × (r.cmd_line_length ≤ 4)
    × (0 < r.cmd_line_length)
parse_arguments_total_example =
    parse_arguments_total 4 true 0 typed (inr (inr (inr (inl refl)))) (omega arith)

abbrev counted : Parsed
counted = record { argc = 2; argv = 0 ∷ 2 ∷ []; buffer = typed; cmd_line_length = 4 }

counted_run : parse_arguments 4 false 0 typed ≡ some counted
unfolding parse_arguments scan_argument skip_blanks
counted_run = refl

parse_arguments-cut_example :
    (r : Parsed) × (parse_arguments 4 true 0 typed ≡ some r) × Agree r counted
parse_arguments-cut_example = parse_arguments-cut 4 0 typed counted counted_run

string_to_int-digits_example :
    (string_to_int32_a (signed_text true (4 ∷ 2 ∷ []) []) ≡ some 4294967254)
    × (string_to_int32_w (signed_text true (4 ∷ 2 ∷ []) []) ≡ some 4294967254)
    × (string_to_int64_a (signed_text true (4 ∷ 2 ∷ []) []) ≡ some 18446744073709551574)
    × (string_to_int64_w (signed_text true (4 ∷ 2 ∷ []) []) ≡ some 18446744073709551574)
string_to_int-digits_example =
    string_to_int-digits true (4 ∷ 2 ∷ []) [] (omega arith, (omega arith, tt))
