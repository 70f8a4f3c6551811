-- ===== src/Tests/Paths.antt =====
-- A path with its parts.
use fvploader.Prelude.{ℕ, ◌≡◌, refl, some, List, [], ◌∷◌, ◌++◌, arith}
use fvploader.Text.Paths.{findextw, findnamew}
use fvploader.Text.Paths.Parts.{findnamew-findextw}

-- `C:\g.d\`, `a.b` and `exe`
abbrev some_dir : List ℕ
some_dir = b'C' ∷ b':' ∷ b'\\' ∷ b'g' ∷ b'.' ∷ b'd' ∷ []

abbrev some_name : List ℕ
some_name = (b'a' ∷ b'.' ∷ b'b' ∷ []) ++ b'.' ∷ (b'e' ∷ b'x' ∷ b'e' ∷ [])

findnamew-findextw_example :
    (findnamew (some_dir ++ (b'\\' ∷ (some_name ++ 0 ∷ []))) 4294967295 ≡ some 7)
    × (findextw (some_dir ++ (b'\\' ∷ (some_name ++ 0 ∷ []))) ≡ some 10)
findnamew-findextw_example =
    findnamew-findextw some_dir (b'a' ∷ b'.' ∷ b'b' ∷ []) (b'e' ∷ b'x' ∷ b'e' ∷ []) [] b'\\'
      (
        (λ e. omega arith),
        (
          (λ e. omega arith),
          (
            (λ e. omega arith),
            ((λ e. omega arith), ((λ e. omega arith), ((λ e. omega arith), tt))),
          ),
        ),
      )
      (λ e. omega arith) refl
      (((λ e. omega arith), refl), (((λ e. omega arith), refl), (((λ e. omega arith), refl), tt)))
      (
        ((λ e. omega arith), refl, (λ e. omega arith)),
        (
          ((λ e. omega arith), refl, (λ e. omega arith)),
          (((λ e. omega arith), refl, (λ e. omega arith)), tt),
        ),
      )
      (omega arith)
