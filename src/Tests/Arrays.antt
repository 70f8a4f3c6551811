-- ===== src/Tests/Arrays.antt =====
-- `GrowableArray` of numbers of four bytes.
use fvploader.Prelude.{inr, ℕ, ◌≡◌, refl, true, some, [], ◌∷◌, arith}
use fvploader.Container.GrowableArray.{Array, status_success, grown_size, insert, remove}
use fvploader.Container.GrowableArray.Holds.{Adds, insert-Holds, remove-Holds}
use fvploader.Container.GrowableArray.Widened.{Holds, CanHold}

-- two elements and a free cell
abbrev two_elements : Array ℕ
two_elements = record { cells = some (5 ∷ 6 ∷ 0 ∷ []); size = 2; max_size = 3 }

two_elements-Holds : Holds two_elements (5 ∷ 6 ∷ [])
two_elements-Holds = record {
  slack = 0 ∷ [];
  cells = refl;
  size = refl;
  room = refl;
  null = λ e. ground arith;
}

two_elements-CanHold : CanHold 4 (λ n. true) 0 0 two_elements
unfolding grown_size
two_elements-CanHold = (omega arith, omega arith, inr (omega arith, refl))

insert-Holds_example :
    Adds 4 (λ n. true) 0 0 (5 ∷ 7 ∷ 6 ∷ []) (insert 4 (λ n. true) 0 0 1 7 two_elements)
insert-Holds_example =
    insert-Holds 4 (λ n. true) 0 0 two_elements (5 ∷ []) (6 ∷ []) 7 two_elements-Holds
      two_elements-CanHold

remove-Holds_example :
    (a1 : Array ℕ) × (remove 0 two_elements ≡ some (status_success, a1)) × Holds a1 (6 ∷ [])
remove-Holds_example = remove-Holds two_elements [] (6 ∷ []) 5 two_elements-Holds
