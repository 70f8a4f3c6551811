-- ===== src/Text/CmdLine/Words.antt =====
-- `CmdLineToArgvW` on a command line that is typed from words.
use fvploader.Prelude.{
  ℕ, zero, suc, ◌≤◌, ◌<◌, ◌≡◌, refl, sym, ap, subst, ◌∙◌, Bool, true, false, if◌then◌else◌, some,
  List, [], ◌∷◌, ◌++◌, map, length, take, take-append, arith, length-append, ne→==_false,
}
use mathlib.Core.List.{append_assoc, append-nil}
use fvploader.Text.CmdLine.{quote, space, is_blank, Walk, Parsed, cmd_line_to_argv}
use fvploader.Text.CmdLine.Arguments.{
  string_at, Word, plain, quoted, text_of, IsWord, AllWords, print_word, print_words,
  scan_argument-separator, scan_argument-end, skip_blanks-stop, skip_blanks-space, Finds,
  Finds-cons, Finds-nil, string_at-plain, string_at-quoted,
}

module _ (rounds : ℕ) (cut : Bool) (left : ℕ) (pre : List ℕ) where
  plain_then :
      (c : ℕ) (cs : List ℕ) (d : ℕ) (tail : List ℕ) (ws : List Word)
      → IsWord (plain c cs)
      → is_blank d ≡ false
      → ((before : List ℕ) → Finds rounds cut left before (d ∷ tail) ws)
      → Finds (suc rounds) cut left pre (c ∷ (cs ++ space ∷ d ∷ tail)) (plain c cs ∷ ws)
  plain_then c cs d tail ws (nq, nz, nb, h) blank later =
      let no = ne→==_false c quote nq in
      let w : Walk = record { behind = cs ++ (if cut then 0 else space) ∷ []; ahead = d ∷ tail } in
      let b : Walk = record { behind = []; ahead = d ∷ tail } in
      Finds-cons rounds cut left pre c (cs ++ space ∷ d ∷ tail) w b (plain c cs) ws nz
        (rw no (scan_argument-separator cut space cs (d ∷ tail) h)) (skip_blanks-stop d tail blank)
        (later _)
        (λ y. rw (no, y) (simp (append_assoc, append-nil) (string_at-plain pre space c cs _ nz h)))
        (omega (
          arith,
          length-append cs ((if cut then 0 else space) ∷ []),
          length-append cs (space ∷ d ∷ tail),
          length-append (cs ++ (if cut then 0 else space) ∷ []) [],
        ))

  plain_last :
      (c : ℕ) (cs rest : List ℕ)
      → IsWord (plain c cs)
      → Finds (suc (suc rounds)) cut (length rest) pre (c ∷ (cs ++ 0 ∷ rest)) (plain c cs ∷ [])
  unfolding Finds-nil
  plain_last c cs rest (nq, nz, nb, h) =
      let no = ne→==_false c quote nq in
      let w : Walk = record { behind = cs; ahead = 0 ∷ rest } in
      let b : Walk = record { behind = []; ahead = 0 ∷ rest } in
      Finds-cons (suc rounds) cut (length rest) pre c (cs ++ 0 ∷ rest) w b (plain c cs) [] nz
        (rw no (scan_argument-end cut space cs rest (omega arith) h)) (skip_blanks-stop 0 rest refl)
        (Finds-nil rounds cut _ rest)
        (λ y. rw (no, append-nil) (string_at-plain pre space c cs rest nz h))
        (omega (arith, length-append cs [], length-append cs (0 ∷ rest)))

  quoted_then :
      (cs : List ℕ) (d : ℕ) (tail : List ℕ) (ws : List Word)
      → IsWord (quoted cs)
      → is_blank d ≡ false
      → ((before : List ℕ) → Finds rounds cut left before (d ∷ tail) ws)
      → Finds (suc rounds) cut left pre (quote ∷ (cs ++ quote ∷ space ∷ d ∷ tail)) (quoted cs ∷ ws)
  quoted_then cs d tail ws h blank later =
      let w : Walk = record {
        behind = cs ++ (if cut then 0 else quote) ∷ [];
        ahead = space ∷ d ∷ tail;
      } in
      let b : Walk = record { behind = space ∷ []; ahead = d ∷ tail } in
      Finds-cons rounds cut left pre quote (cs ++ quote ∷ space ∷ d ∷ tail) w b (quoted cs) ws
        (omega arith) (scan_argument-separator cut quote cs (space ∷ d ∷ tail) h)
        (skip_blanks-space d tail blank) (later _)
        (λ y. rw y (simp append_assoc (string_at-quoted pre quote quote cs _ h)))
        (omega (
          arith,
          length-append (cs ++ (if cut then 0 else quote) ∷ []) (space ∷ []),
          length-append cs ((if cut then 0 else quote) ∷ []),
          length-append cs (quote ∷ space ∷ d ∷ tail),
        ))

  quoted_last :
      (cs rest : List ℕ)
      → IsWord (quoted cs)
      → Finds
          (suc (suc rounds))
          cut
          (length rest)
          pre
          (quote ∷ (cs ++ quote ∷ 0 ∷ rest))
          (quoted cs ∷ [])
  unfolding Finds-nil
  quoted_last cs rest h =
      let w : Walk = record { behind = cs ++ (if cut then 0 else quote) ∷ []; ahead = 0 ∷ rest } in
      let b : Walk = record { behind = []; ahead = 0 ∷ rest } in
      Finds-cons (suc rounds) cut (length rest) pre quote (cs ++ quote ∷ 0 ∷ rest) w b (quoted cs)
        [] (omega arith) (scan_argument-separator cut quote cs (0 ∷ rest) h)
        (skip_blanks-stop 0 rest refl) (Finds-nil rounds cut _ rest)
        (λ y. rw y (simp (append_assoc, append-nil) (string_at-quoted pre quote quote cs _ h)))
        (omega (
          arith,
          length-append (cs ++ (if cut then 0 else quote) ∷ []) [],
          length-append cs ((if cut then 0 else quote) ∷ []),
          length-append cs (quote ∷ 0 ∷ rest),
        ))

-- What follows a space in a printed command line is no blank.
first_of_words :
    (w : Word) (ws : List Word) (rest : List ℕ)
    → IsWord w
    → (d : ℕ) × (tail : List ℕ) × (print_words (w ∷ ws) ++ rest ≡ d ∷ tail) × (is_blank d ≡ false)
first_of_words (plain c cs) [] rest h = (c, cs ++ rest, refl, h.2)
first_of_words (plain c cs) (v ∷ ws) rest h = (c, _, refl, h.2)
first_of_words (quoted cs) [] rest h = (quote, _, refl, refl)
first_of_words (quoted cs) (v ∷ ws) rest h = (quote, _, refl, refl)

-- The worker finds the words of a printed command line, with more rounds than there are words.
pub Finds-words :
    (ws : List Word) (rounds : ℕ) (cut : Bool) (pre rest : List ℕ)
    → AllWords ws
    → length ws < rounds
    → Finds rounds cut (length rest) pre (print_words ws ++ 0 ∷ rest) ws
Finds-words ws zero cut pre rest h lt = absurd (omega arith)
Finds-words [] (suc r) cut pre rest h lt = Finds-nil r cut pre rest
Finds-words (w ∷ []) (suc zero) cut pre rest h lt = absurd (omega arith)
Finds-words (plain c cs ∷ []) (suc (suc r)) cut pre rest h lt =
    plain_last r cut (length rest) pre c cs rest h.0
Finds-words (quoted cs ∷ []) (suc (suc r)) cut pre rest h lt =
    subst (λ (z : List ℕ). Finds (suc (suc r)) cut (length rest) pre (quote ∷ z) (quoted cs ∷ []))
      (sym (append_assoc cs (quote ∷ []) (0 ∷ rest)))
      (quoted_last r cut (length rest) pre cs rest h.0)
Finds-words (plain c cs ∷ v ∷ ws) (suc r) cut pre rest h lt =
    let (d, tail, e, blank) = first_of_words v ws (0 ∷ rest) h.1.0 in
    let same : c ∷ (cs ++ space ∷ (d ∷ tail)) ≡ print_words (plain c cs ∷ v ∷ ws) ++ 0 ∷ rest =
      ap (λ (z : List ℕ). c ∷ (cs ++ space ∷ z)) (sym e)
      ∙ ap (λ (z : List ℕ). c ∷ z)
          (sym (append_assoc cs (space ∷ print_words (v ∷ ws)) (0 ∷ rest))) in
    subst (λ (z : List ℕ). Finds (suc r) cut (length rest) pre z (plain c cs ∷ v ∷ ws)) same
      (plain_then r cut (length rest) pre c cs d tail (v ∷ ws) h.0 blank (λ before.
        subst (λ (z : List ℕ). Finds r cut (length rest) before z (v ∷ ws)) e
          (Finds-words (v ∷ ws) r cut before rest h.1 (omega arith))))
Finds-words (quoted cs ∷ v ∷ ws) (suc r) cut pre rest h lt =
    let (d, tail, e, blank) = first_of_words v ws (0 ∷ rest) h.1.0 in
    let same : quote ∷ (cs ++ quote ∷ space ∷ (d ∷ tail))
        ≡ print_words (quoted cs ∷ v ∷ ws) ++ 0 ∷ rest =
      ap (λ (z : List ℕ). quote ∷ (cs ++ quote ∷ space ∷ z)) (sym e)
      ∙ ap (λ (z : List ℕ). quote ∷ z) (simp append_assoc) in
    subst (λ (z : List ℕ). Finds (suc r) cut (length rest) pre z (quoted cs ∷ v ∷ ws)) same
      (quoted_then r cut (length rest) pre cs d tail (v ∷ ws) h.0 blank (λ before.
        subst (λ (z : List ℕ). Finds r cut (length rest) before z (v ∷ ws)) e
          (Finds-words (v ∷ ws) r cut before rest h.1 (omega arith))))

-- There are at least as many units as words.
words_length : (ws : List Word) → length ws ≤ length (print_words ws)
words_length [] = omega arith
words_length (plain c cs ∷ []) = omega arith
words_length (quoted cs ∷ []) = omega arith
words_length (w ∷ v ∷ ws) =
    omega
      (arith, words_length (v ∷ ws), length-append (print_word w) (space ∷ print_words (v ∷ ws)))

words_shorter : (ws : List Word) → length ws < length (print_words ws ++ 0 ∷ [])
words_shorter ws = omega (arith, words_length ws, length-append (print_words ws) (0 ∷ []))

-- A command line printed from words, each one plain or in quotes and one space apart, is taken
-- apart into those words: `CmdLineToArgvW` succeeds with as many arguments, and the strings at the
-- stored offsets are the words.
pub cmd_line_to_argv-words :
    (ws : List Word)
    → AllWords ws
    → (q : Parsed) × (cmd_line_to_argv true (print_words ws ++ 0 ∷ []) ≡ some (some q))
      × (q.argc ≡ length ws)
      × (map (string_at q.buffer) q.argv ≡ map text_of ws)
unfolding cmd_line_to_argv
cmd_line_to_argv-words ws h =
    let text = print_words ws ++ 0 ∷ [] in
    let many = Finds-words ws (length text) false [] [] h (words_shorter ws) in
    let f = Finds-words ws (length text) true [] [] h (words_shorter ws) in
    let all : take many.parsed.cmd_line_length text ≡ text =
      ap (take many.parsed.cmd_line_length) (sym (append-nil text))
      ∙ take-append text [] many.parsed.cmd_line_length (omega (arith, many.end_lem)) in
    (f.parsed, ground (arith, many.run, all, f.run), f.argc, f.strings refl)
