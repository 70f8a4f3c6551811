-- ===== src/Container/GrowableArray/Holds.antt =====
-- The elements that a `GrowableArray` holds, and what `Add`, `Insert`, `Remove`, `SetAt`, `SetData`
-- and `operator=` do to them.
use fvploader.Prelude.{
  ℕ, suc, ◌+◌, ◌-◌, ◌^◌, ◌≤◌, ◌<◌, ◌≡◌, refl, sym, ap, ◌∙◌, Bool, true, false, leb, Option, some,
  List, [], ◌∷◌, ◌++◌, length, take, drop, set, arith, length-append, drop-append, take-append,
}
use mathlib.Core.List.{append_assoc}
use native.Mathlib.Nat.{div-le_self}
use fvploader.Container.GrowableArray.{
  Array, NtStatus, status_success, ulong_ptr_max, cells_of, add, insert, remove,
}
use fvploader.Container.GrowableArray.Widened.{
  Holds, set-append, CanHold, add_run, insert_run, shifted-append, widen_lem,
}

module _ {ℓ} {V : Type ℓ} where
  module _ (size_of : ℕ) (alloc : ℕ → Bool) (junk blank : V) where
    abbrev pub Adds : List V → Option (NtStatus × Array V) → Type ℓ
    Adds xs r = (a1 : Array V) × (r ≡ some (status_success, a1)) × Holds a1 xs

    -- `Add` succeeds where one more element fits, and the array then holds it behind the others.
    pub add-Holds :
        (a : Array V) (xs : List V) (v : V)
        → Holds a xs
        → CanHold size_of alloc junk blank a
        → Adds (xs ++ v ∷ []) (add size_of alloc junk blank v a)
    add-Holds a xs v h can =
        let (pos, fits, room) = can in
        let small : a.size + 1 < 2 ^ 32 = omega (arith, fits, div-le_self ulong_ptr_max size_of) in
        let (a1, run, w) = widen_lem size_of alloc junk blank a xs (a.size + 1) h can in
        let cells = set-append xs w.slack w.spare v in
        (
          record a1 { cells = some (xs ++ v ∷ w.slack) },
          add_run size_of alloc junk blank a a1 v (xs ++ w.spare ∷ w.slack) small run w.cells
                (omega (arith, length-append xs (w.spare ∷ w.slack), h.size))
              ∙ ap (λ c. some (status_success, record a1 { cells = some c }))
                  (ap (λ i. set (xs ++ w.spare ∷ w.slack) i v) h.size ∙ cells),
          record {
            slack = w.slack;
            cells = sym (append_assoc xs (v ∷ []) w.slack);
            size = omega (arith, w.size, h.size, length-append xs (v ∷ []));
            room = omega (arith, w.room, length-append xs (v ∷ []));
            null = λ e. cc;
          },
        )

    -- `Insert` puts an element between two parts of the array, where one more fits.
    pub insert-Holds :
        (a : Array V) (xs ys : List V) (v : V)
        → Holds a (xs ++ ys)
        → CanHold size_of alloc junk blank a
        → Adds (xs ++ v ∷ ys) (insert size_of alloc junk blank (length xs) v a)
    insert-Holds a xs ys v h can =
        let (pos, fits, room) = can in
        let small : a.size + 1 < 2 ^ 32 = omega (arith, fits, div-le_self ulong_ptr_max size_of) in
        let (a1, run, w) = widen_lem size_of alloc junk blank a (xs ++ ys) a.size h can in
        let long = length-append xs ys in
        (
          record a1 { cells = some (xs ++ v ∷ (ys ++ w.slack)); size = a1.size + 1 },
          insert_run size_of alloc junk blank a a1 (length xs) v ((xs ++ ys) ++ w.spare ∷ w.slack)
                small (omega (arith, h.size, long)) run w.cells
                (omega (arith, w.size, h.size, length-append (xs ++ ys) (w.spare ∷ w.slack)))
              ∙ ap (λ c. some (status_success, record a1 { cells = some c; size = a1.size + 1 }))
                  (shifted-append size_of alloc junk blank xs ys w.slack w.spare v a1.size
                    (omega (arith, w.size, h.size, long))),
          record {
            slack = w.slack;
            cells = sym (append_assoc xs (v ∷ ys) w.slack);
            size = omega (arith, w.size, h.size, long, length-append xs (v ∷ ys));
            room = omega (arith, w.room, long, length-append xs (v ∷ ys));
            null = λ e. cc;
          },
        )

  remove_run :
      (a : Array V) (index : ℕ) (cs : List V)
      → cells_of a.cells ≡ cs
      → index < a.size
      → a.size ≤ length cs
      → remove index a
        ≡ some (
          status_success,
          record a {
            cells = some (
                take index cs
                ++ take (a.size - (index + 1)) (drop (index + 1) cs)
                ++ drop (a.size - 1) cs);
            size = a.size - 1;
          },
        )
  unfolding remove
  remove_run a index cs e lt le =
      let i : leb a.size index ≡ false = ground arith in
      let b : leb a.size (length cs) ≡ true = ground arith in rw (e, i, b)

  drop-past : (xs ys : List V) (k : ℕ) → drop (length xs + k) (xs ++ ys) ≡ drop k ys
  drop-past [] ys k = let none_before : 0 + k ≡ k = omega arith in ap (λ m. drop m ys) none_before
  drop-past (x ∷ xs) ys k =
      let next : length (x ∷ xs) + k ≡ suc (length xs + k) = omega arith in
      ap (λ m. drop m (x ∷ (xs ++ ys))) next ∙ drop-past xs ys k

  drop-last :
      (ys slack : List V) (x : V) → (y : V) × (drop (length ys) (x ∷ (ys ++ slack)) ≡ y ∷ slack)
  drop-last [] slack x = (x, refl)
  drop-last (y ∷ ys) slack x = drop-last ys slack y

  -- `Remove` takes one element out of the array and keeps the others in their order.
  pub remove-Holds :
      (a : Array V) (xs ys : List V) (x : V)
      → Holds a (xs ++ x ∷ ys)
      → (a1 : Array V) × (remove (length xs) a ≡ some (status_success, a1)) × Holds a1 (xs ++ ys)
  remove-Holds a xs ys x h =
      let long = length-append xs (x ∷ ys) in
      let cs = xs ++ (x ∷ (ys ++ h.slack)) in
      let cells : cells_of a.cells ≡ cs = h.cells ∙ append_assoc xs (x ∷ ys) h.slack in
      let n = length xs in
      let (y, last) = drop-last ys h.slack x in
      let front : take n cs ≡ xs = take-append xs _ n refl in
      let parts = append_assoc xs (x ∷ []) (ys ++ h.slack) in
      let behind : drop (n + 1) cs ≡ ys ++ h.slack =
        ap (drop (n + 1)) (sym parts)
        ∙ drop-append (xs ++ x ∷ []) (ys ++ h.slack) (n + 1) (length-append xs (x ∷ [])) in
      let middle : take (a.size - (n + 1)) (ys ++ h.slack) ≡ ys =
        take-append ys h.slack (a.size - (n + 1)) (omega (arith, h.size, long)) in
      let tail : drop (a.size - 1) cs ≡ y ∷ h.slack =
        ap (λ k. drop k cs) (omega (arith, h.size, long))
        ∙ drop-past xs (x ∷ (ys ++ h.slack)) (length ys)
        ∙ last in
      let joined : take n cs ++ take (a.size - (n + 1)) (drop (n + 1) cs) ++ drop (a.size - 1) cs
          ≡ xs ++ ys ++ y ∷ h.slack =
        rw (front, behind, middle, tail) in
      (
        record a { cells = some (xs ++ ys ++ y ∷ h.slack); size = a.size - 1 },
        remove_run a n cs cells (omega (arith, h.size, long)) (
              omega (
                arith,
                h.size,
                long,
                length-append xs (x ∷ (ys ++ h.slack)),
                length-append ys h.slack,
              ))
            ∙ ap (λ c. some (status_success, record a { cells = some c; size = a.size - 1 }))
                joined,
        record {
          slack = y ∷ h.slack;
          cells = refl;
          size = omega (arith, h.size, long, length-append xs ys);
          room = omega (arith, h.room, long, length-append xs ys);
          null = λ e. cc;
        },
      )
