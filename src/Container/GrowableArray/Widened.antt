-- ===== src/Container/GrowableArray/Widened.antt =====
-- What an array holds, and `SetSizeInternal` for one more element.
use fvploader.Prelude.{
  ◌⊎◌, inl, inr, ℕ, zero, suc, ◌+◌, ◌-◌, ◌*◌, ◌/◌, ◌%◌, ◌^◌, ◌≤◌, ◌<◌, ◌≡◌, ◌≢◌, refl, sym, ap, ◌∙◌,
  inl, inr, Bool, true, false, ltb, leb, some, List, [], ◌∷◌, ◌++◌, length, take, drop, set,
  replicate, arith, dec_lt, Bool-cases, length-append, drop-append, take-append, take-length,
  length-replicate, Option-cases,
}
use mathlib.Core.List.{append_assoc, append-nil}
use native.Mathlib.Nat.{div-le_self, mod-eq_of_lt, mul-div_cancel}
use fvploader.Container.GrowableArray.{
  Array, status_success, ulong_ptr_max, grown_size, cells_of, is_null, resized, set_size_internal,
  add, shifted, insert, new_array,
}

module _ {ℓ} {V : Type ℓ} where
  -- The first `m_Size` of the `m_MaxSize` cells are these elements.
  pub record Holds (a : Array V) (xs : List V) : Type ℓ where
    pub slack : List V
    pub cells : cells_of a.cells ≡ xs ++ slack
    pub size : a.size ≡ length xs
    pub room : a.max_size ≡ length xs + length slack
    pub null : is_null a.cells ≡ true → a.max_size ≡ 0

  new_array-Holds : Holds new_array []
  new_array-Holds = record { slack = []; cells = refl; size = refl; room = refl; null = λ e. refl }

  -- Writing behind the elements.
  pub set-append :
      (xs slack : List V) (s v : V) → set (xs ++ s ∷ slack) (length xs) v ≡ xs ++ v ∷ slack
  set-append [] slack s v = refl
  set-append (x ∷ xs) slack s v = ap (λ r. x ∷ r) (set-append xs slack s v)

  module _ (size_of : ℕ) (alloc : ℕ → Bool) (junk blank : V) where
    -- One more element fits: there is a free cell, or the reallocation is not too large and succeeds.
    abbrev pub CanHold : Array V → Type 0
    CanHold a =
        let grown = grown_size (a.size + 1) a.max_size in
        (0 < size_of)
        × (a.size + 1 ≤ ulong_ptr_max / size_of)
        × ((a.size + 1 ≤ a.max_size)
            ⊎ ((grown * size_of < 2 ^ 32) × (alloc (grown * size_of) ≡ true)))

    -- `SetSizeInternal` for one more element leaves a free cell behind the elements.
    pub record Widened (xs : List V) (n : ℕ) (a a1 : Array V) : Type ℓ where
      pub spare : V
      pub slack : List V
      pub cells : a1.cells ≡ some (xs ++ spare ∷ slack)
      pub size : a1.size ≡ n
      pub room : a1.max_size ≡ length xs + suc (length slack)

    grown_enough : (n m : ℕ) → n ≤ ulong_ptr_max → n ≤ grown_size n m
    unfolding grown_size
    grown_enough n m h = ground arith

    length-empty : (ys : List V) → length ys ≡ 0 → ys ≡ []
    length-empty [] e = refl
    length-empty (y ∷ ys) e = absurd (omega arith)

    replicate-next : (k : ℕ) → 0 < k → replicate k junk ≡ junk ∷ replicate (k - 1) junk
    replicate-next zero h = absurd (omega arith)
    replicate-next (suc k) h = ap (λ m. junk ∷ replicate m junk) (omega arith)

    -- The cells of a grown array, which had no free one.
    regrown :
        (a : Array V) (xs : List V) (k : ℕ)
        → Holds a xs
        → a.max_size < a.size + 1
        → a.size + 1 ≤ k
        → resized junk k (cells_of a.cells) ≡ xs ++ junk ∷ replicate (k - length xs - 1) junk
    regrown a xs k h full le =
        let none_left = length-empty h.slack (omega (arith, h.room, h.size)) in
        let cells : cells_of a.cells ≡ xs = h.cells ∙ ap (λ r. xs ++ r) none_left ∙ append-nil xs in
        let size = h.size in
        ap (resized junk k) cells
        ∙ ap (λ r. r ++ replicate (k - length xs) junk) (take-length xs k (omega arith))
        ∙ ap (λ r. xs ++ r) (replicate-next (k - length xs) (omega arith))

    widen_run :
        (a : Array V) (n : ℕ) {cs : List V}
        → ltb (ulong_ptr_max / size_of) (a.size + 1) ≡ false
        → ltb a.max_size (a.size + 1) ≡ true
        → grown_size (a.size + 1) a.max_size * size_of % 2 ^ 32
          ≡ grown_size (a.size + 1) a.max_size * size_of
        → alloc (grown_size (a.size + 1) a.max_size * size_of) ≡ true
        → grown_size (a.size + 1) a.max_size * size_of % 2 ^ 32 / size_of
          ≡ grown_size (a.size + 1) a.max_size
        → resized junk (grown_size (a.size + 1) a.max_size) (cells_of a.cells) ≡ cs
        → set_size_internal size_of alloc junk blank (a.size + 1) (record a { size = n }) ≡ (
          status_success,
          record { cells = some cs; size = n; max_size = grown_size (a.size + 1) a.max_size },
        )
    unfolding set_size_internal
    widen_run a n fits full bytes ok count cells = ground (arith, Bool-cases (is_null a.cells))

    free_run :
        (a : Array V) (n : ℕ)
        → ltb (ulong_ptr_max / size_of) (a.size + 1) ≡ false
        → ltb a.max_size (a.size + 1) ≡ false
        → is_null a.cells ≡ false
        → set_size_internal size_of alloc junk blank (a.size + 1) (record a { size = n })
          ≡ (status_success, record a { size = n })
    unfolding set_size_internal
    free_run a n fits free there = ground arith

    nonempty : (ys : List V) → 0 < length ys → (y : V) × (zs : List V) × (ys ≡ y ∷ zs)
    nonempty [] h = absurd (omega arith)
    nonempty (y ∷ ys) h = (y, ys, refl)

    pub allocated :
        (a : Array V) {xs : List V}
        → Holds a xs
        → a.max_size ≢ 0
        → a.cells ≡ some (cells_of a.cells)
    allocated a h nz = elim (Option-cases a.cells) [
      | inl e ↦ absurd (nz (h.null (ap is_null e)))
      | inr (cs, e) ↦ e ∙ ap some (sym (ap cells_of e))
    ]

    pub add_run :
        (a a1 : Array V) (v : V) (cs : List V)
        → a.size + 1 < 2 ^ 32
        → set_size_internal size_of alloc junk blank (a.size + 1) (record a { size = a.size + 1 })
          ≡ (status_success, a1)
        → a1.cells ≡ some cs
        → a.size < length cs
        → add size_of alloc junk blank v a
          ≡ some (status_success, record a1 { cells = some (set cs a.size v) })
    unfolding add
    add_run a a1 v cs small run cells fits =
        let e : (a.size + 1) % 2 ^ 32 ≡ a.size + 1 = omega arith in
        let i : a.size + 1 - 1 ≡ a.size = omega arith in
        let b : ltb a.size (length cs) ≡ true = ground arith in ground (arith, e, run, i, cells, b)

    pub insert_run :
        (a a1 : Array V) (index : ℕ) (v : V) (cs : List V)
        → a.size + 1 < 2 ^ 32
        → index ≤ a.size
        → set_size_internal size_of alloc junk blank (a.size + 1) (record a { size = a.size })
          ≡ (status_success, a1)
        → a1.cells ≡ some cs
        → a1.size + 1 ≤ length cs
        → insert size_of alloc junk blank index v a
          ≡ some (
            status_success,
            record a1 {
              cells = some (shifted size_of alloc junk blank index a1.size v cs);
              size = a1.size + 1;
            },
          )
    unfolding insert
    insert_run a a1 index v cs small le run cells fits =
        let e : (a.size + 1) % 2 ^ 32 ≡ a.size + 1 = omega arith in
        let i : ltb a.size index ≡ false = ground arith in
        let b : leb (a1.size + 1) (length cs) ≡ true = ground arith in
        ground (arith, e, run, i, cells, b)

    pub shifted-append :
        (xs ys slack : List V) (s v : V) (n : ℕ)
        → n ≡ length xs + length ys
        → shifted size_of alloc junk blank (length xs) n v ((xs ++ ys) ++ s ∷ slack)
          ≡ xs ++ v ∷ (ys ++ slack)
    shifted-append xs ys slack s v n e =
        let whole = append_assoc xs ys (s ∷ slack) in
        let behind : drop (length xs) ((xs ++ ys) ++ s ∷ slack) ≡ ys ++ s ∷ slack =
          ap (drop (length xs)) whole ∙ drop-append xs (ys ++ s ∷ slack) (length xs) refl in
        let front : take (length xs) ((xs ++ ys) ++ s ∷ slack) ≡ xs =
          ap (take (length xs)) whole ∙ take-append xs (ys ++ s ∷ slack) (length xs) refl in
        let middle : take (n - length xs) (ys ++ s ∷ slack) ≡ ys =
          take-append ys (s ∷ slack) (n - length xs) (omega arith) in
        let parts = append_assoc (xs ++ ys) (s ∷ []) slack in
        let last : drop (n + 1) ((xs ++ ys) ++ s ∷ slack) ≡ slack =
          ap (drop (n + 1)) (sym parts)
          ∙ drop-append ((xs ++ ys) ++ s ∷ []) slack (n + 1)
              (omega (arith, e, length-append xs ys, length-append (xs ++ ys) (s ∷ []))) in
        rw (front, behind, middle, last)

    pub widen_lem :
        (a : Array V) (xs : List V) (n : ℕ)
        → Holds a xs
        → CanHold a
        → (a1 : Array V) × (set_size_internal size_of alloc junk blank
              (a.size + 1)
              (record a { size = n })
            ≡ (status_success, a1))
          × Widened xs n a a1
    widen_lem a xs n h (pos, fits, room) = elim (dec_lt a.max_size (a.size + 1)) [
      | yes full ↦
          let (small, ok) : (grown_size (a.size + 1) a.max_size * size_of < 2 ^ 32)
              × (alloc (grown_size (a.size + 1) a.max_size * size_of) ≡ true) =
            elim room [ inl free ↦ absurd (omega arith) | inr grows ↦ grows ] in
          let grown = grown_size (a.size + 1) a.max_size in
          let le : a.size + 1 ≤ grown =
            grown_enough (a.size + 1) a.max_size
              (omega (arith, fits, div-le_self ulong_ptr_max size_of)) in
          let bytes : grown * size_of % 2 ^ 32 ≡ grown * size_of = mod-eq_of_lt small in
          let cells_count : grown * size_of % 2 ^ 32 / size_of ≡ grown =
            ap (λ b. b / size_of) bytes ∙ mul-div_cancel grown pos in
          let cells = regrown a xs grown h full le in
          (
            record a {
              cells = some (xs ++ junk ∷ replicate (grown - length xs - 1) junk);
              size = n;
              max_size = grown;
            },
            widen_run a n (ground arith) (ground arith) bytes ok cells_count cells,
            record {
              spare = junk;
              slack = replicate (grown - length xs - 1) junk;
              cells = refl;
              size = refl;
              room = omega (arith, length-replicate (grown - length xs - 1) junk, h.size, le);
            },
          )
      | no free ↦
          let (spare, slack, split) = nonempty h.slack (omega (arith, h.room, h.size)) in
          let cells = allocated a h (omega arith) ∙ ap some (h.cells ∙ ap (λ r. xs ++ r) split) in
          (
            record a { size = n },
            free_run a n (ground arith) (ground arith) (ap is_null cells),
            record {
              spare = spare;
              slack = slack;
              cells = cells;
              size = refl;
              room = omega (arith, h.room, ap length split);
            },
          )
    ]
