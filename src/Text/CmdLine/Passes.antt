-- ===== src/Text/CmdLine/Passes.antt =====
-- The two calls of the worker: they do not run past a terminated text, and agree on the arguments.
use fvploader.Prelude.{
  ℕ, zero, suc, ◌+◌, ◌≤◌, ◌<◌, ◌≡◌, ◌≢◌, refl, sym, ap, subst, ◌∙◌, ◌⊎◌, inl, inr, Bool, true,
  false, ◌==◌, if◌then◌else◌, some, List, [], ◌∷◌, ◌++◌, length, arith, length-append, ℕ_discrete,
  Bool-cases, Option-cases,
}
use fvploader.Text.CmdLine.{
  quote, space, is_blank, Walk, scan_argument, skip_blanks, Parsed, parse_arguments,
}

-- The text holds a terminator.
abbrev pub Terminated : List ℕ → Type 0
Terminated [] = ⊥
Terminated (c ∷ p) = (c ≡ 0) ⊎ Terminated p

-- What a loop over a terminated text leaves: the terminator is ahead, and no unit is lost.
pub record Walked (p : List ℕ) (w : Walk) : Type 0 where
  pub ahead : Terminated w.ahead
  pub length_lem : length w.behind + length w.ahead ≡ length p

pub scan_argument-Walked :
    (cut : Bool) (s : ℕ) (p : List ℕ)
    → s ≢ 0
    → Terminated p
    → (w : Walk) × (scan_argument cut s p ≡ some w) × Walked p w
unfolding scan_argument
scan_argument-Walked cut s [] nz h = elim h [ ]
scan_argument-Walked cut s (c ∷ p) nz h = elim (ℕ_discrete c s) [
  | yes e ↦ (
    record { behind = (if cut then 0 else c) ∷ []; ahead = p },
    ground arith,
    record { ahead = rest e h; length_lem = omega arith },
  )
  | no n ↦ elim (ℕ_discrete c 0) [
    | yes z ↦ (
      record { behind = []; ahead = c ∷ p },
      ground arith,
      record { ahead = inl z; length_lem = omega arith },
    )
    | no nc ↦
        let (w, run, k) = scan_argument-Walked cut s p nz (later nc h) in
        (
          record { behind = c ∷ w.behind; ahead = w.ahead },
          ground (arith, run),
          record { ahead = k.ahead; length_lem = omega (arith, k.length_lem) },
        )
  ]
]
  where
    later : c ≢ 0 → (c ≡ 0) ⊎ Terminated p → Terminated p
    later n (inl z) = absurd (n z)
    later n (inr t) = t

    rest : c ≡ s → (c ≡ 0) ⊎ Terminated p → Terminated p
    rest e t = later (λ z. nz (sym e ∙ z)) t

pub skip_blanks-Walked :
    (p : List ℕ) → Terminated p → (w : Walk) × (skip_blanks p ≡ some w) × Walked p w
unfolding skip_blanks
skip_blanks-Walked [] h = elim h [ ]
skip_blanks-Walked (c ∷ p) h = elim (Bool-cases (is_blank c)) [
  | inr n ↦
      (record { behind = []; ahead = c ∷ p }, rw n, record { ahead = h; length_lem = omega arith })
  | inl y ↦
      let (w, run, k) = skip_blanks-Walked p (later y h) in
      (
        record { behind = c ∷ w.behind; ahead = w.ahead },
        rw (y, run),
        record { ahead = k.ahead; length_lem = omega (arith, k.length_lem) },
      )
]
  where
    later : is_blank c ≡ true → (c ≡ 0) ⊎ Terminated p → Terminated p
    later y (inl z) = absurd (ground arith)
    later y (inr t) = t

-- Two results with the same arguments at the same places.
pub record Agree (q r : Parsed) : Type 0 where
  pub argc : q.argc ≡ r.argc
  pub argv : q.argv ≡ r.argv
  pub length_lem : q.cmd_line_length ≡ r.cmd_line_length
  pub buffer : length q.buffer ≡ length r.buffer

-- `cut` changes no walk but for the separator itself.
scan_argument-cut :
    (s : ℕ) (p : List ℕ) (w : Walk)
    → scan_argument false s p ≡ some w
    → (v : Walk) × (scan_argument true s p ≡ some v)
      × (v.ahead ≡ w.ahead)
      × (length v.behind ≡ length w.behind)
unfolding scan_argument
scan_argument-cut s [] w h = cc
scan_argument-cut s (c ∷ p) w h = elim (ℕ_discrete c s) [
  | yes e ↦ (record { behind = 0 ∷ []; ahead = p }, ground arith, ground arith, ground arith)
  | no n ↦ elim (ℕ_discrete c 0) [
    | yes z ↦ (record { behind = []; ahead = c ∷ p }, ground arith, ground arith, ground arith)
    | no nc ↦ elim (Option-cases (scan_argument false s p)) [
      | inl e ↦ absurd (ground arith)
      | inr (u, e) ↦
          let (v, run, a, l) = scan_argument-cut s p u e in
          (
            record { behind = c ∷ v.behind; ahead = v.ahead },
            ground (arith, run),
            ground arith,
            ground arith,
          )
    ]
  ]
]

-- A terminated text is parsed within as many rounds as it has units: the worker reads no unit
-- behind the terminator, keeps the length of the text, and counts at least one unit and no more
-- than there are.
pub parse_arguments_total :
    (rounds : ℕ) (cut : Bool) (at : ℕ) (p : List ℕ)
    → Terminated p
    → length p ≤ rounds
    → (r : Parsed) × (parse_arguments rounds cut at p ≡ some r)
      × (length r.buffer ≡ length p)
      × (r.cmd_line_length ≤ at + length p)
      × (at < r.cmd_line_length)
unfolding parse_arguments
parse_arguments_total rounds cut at [] h le = elim h [ ]
parse_arguments_total zero cut at (c ∷ p) h le = absurd (omega arith)
parse_arguments_total (suc rounds) cut at (c ∷ p) h le = elim (ℕ_discrete c 0) [
  | yes z ↦ (
    record { argc = 0; argv = []; buffer = c ∷ p; cmd_line_length = at + 1 },
    ground arith,
    refl,
    omega arith,
    omega arith,
  )
  | no nz ↦
      let s = if c == quote then quote else space in
      let (w, r1, k) = scan_argument-Walked cut s p (ground arith) (later nz h) in
      let (b, r2, l) = skip_blanks-Walked w.ahead k.ahead in
      let units = c ∷ (w.behind ++ b.behind) in
      let sum : length units + length b.ahead ≡ length (c ∷ p) =
        omega (arith, length-append w.behind b.behind, k.length_lem, l.length_lem) in
      let (r, r3, e, lo, hi) =
        parse_arguments_total rounds cut (at + length units) b.ahead l.ahead (omega arith) in
      (
        record {
          argc = r.argc + 1;
          argv = (at + (if c == quote then 1 else 0)) ∷ r.argv;
          buffer = units ++ r.buffer;
          cmd_line_length = r.cmd_line_length;
        },
        ground (arith, r1, r2, r3),
        omega (arith, length-append units r.buffer, e),
        omega arith,
        omega arith,
      )
]
  where
    later : c ≢ 0 → (c ≡ 0) ⊎ Terminated p → Terminated p
    later n (inl z) = absurd (n z)
    later n (inr t) = t

-- Where the first pass over a text ends, the second one over the same text does, and finds as
-- many arguments, at the same offsets, in as many units.
pub parse_arguments-cut :
    (rounds at : ℕ) (p : List ℕ) (q : Parsed)
    → parse_arguments rounds false at p ≡ some q
    → (r : Parsed) × (parse_arguments rounds true at p ≡ some r) × Agree r q
unfolding parse_arguments
parse_arguments-cut zero at p q h = cc
parse_arguments-cut (suc rounds) at [] q h = cc
parse_arguments-cut (suc rounds) at (c ∷ p) q h = elim (ℕ_discrete c 0) [
  | yes z ↦ (q, ground arith, record { argc = refl; argv = refl; length_lem = refl; buffer = refl })
  | no nz ↦
      let s = if c == quote then quote else space in
      elim (Option-cases (scan_argument false s p)) [
        | inl e ↦ absurd (ground arith)
        | inr (w, ew) ↦ elim (Option-cases (skip_blanks w.ahead)) [
          | inl e ↦ absurd (ground arith)
          | inr (b, eb) ↦
              elim (Option-cases
                (parse_arguments rounds false (at + length (c ∷ (w.behind ++ b.behind))) b.ahead)) [
                  | inl e ↦ absurd (ground arith)
                  | inr (u, eu) ↦
                      let (v, run, a, l) = scan_argument-cut s p w ew in
                      let (r, again, k) = parse_arguments-cut rounds _ b.ahead u eu in
                      let same : length (c ∷ (w.behind ++ b.behind))
                          ≡ length (c ∷ (v.behind ++ b.behind)) =
                        omega (
                          arith,
                          length-append w.behind b.behind,
                          length-append v.behind b.behind,
                          l,
                        ) in
                      let moved =
                        subst (λ (n : ℕ). parse_arguments rounds true (at + n) b.ahead ≡ some r)
                          same again in
                      let blanks = ap skip_blanks a ∙ eb in
                      (
                        record {
                          argc = r.argc + 1;
                          argv = (at + (if c == quote then 1 else 0)) ∷ r.argv;
                          buffer = (c ∷ (v.behind ++ b.behind)) ++ r.buffer;
                          cmd_line_length = r.cmd_line_length;
                        },
                        ground (arith, run, blanks, moved),
                        record {
                          argc = ground (arith, k.argc);
                          argv = ground (arith, k.argv);
                          length_lem = ground (arith, k.length_lem);
                          buffer = ground (
                            arith,
                            k.buffer,
                            same,
                            length-append (c ∷ (w.behind ++ b.behind)) u.buffer,
                            length-append (c ∷ (v.behind ++ b.behind)) r.buffer,
                          );
                        },
                      )
                ]
        ]
      ]
]
