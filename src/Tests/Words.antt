-- ===== src/Tests/Words.antt =====
-- Texts that are copied a word at a time.
use fvploader.Prelude.{ℕ, ◌≡◌, some, List, [], ◌∷◌, ◌++◌, overlay, arith}
use fvploader.Text.Words.{str_concatenate_a}
use fvploader.Text.Words.Copied.{IsByteText, IsBytes, str_concatenate_a-append}

-- "Hello", with a byte that the test takes for a zero byte
abbrev hello : List ℕ
hello = b'H' ∷ b'e' ∷ b'l' ∷ 0x80 ∷ b'o' ∷ []

abbrev three : List ℕ
three = 1 ∷ 2 ∷ 3 ∷ []

hello-IsByteText : IsByteText hello
hello-IsByteText = (
  (omega arith, λ e. omega arith),
  (
    (omega arith, λ e. omega arith),
    (
      (omega arith, λ e. omega arith),
      ((omega arith, λ e. omega arith), ((omega arith, λ e. omega arith), tt)),
    ),
  ),
)

three-IsBytes : IsBytes three
three-IsBytes = (omega arith, (omega arith, (omega arith, tt)))

str_concatenate_a-append_example :
    str_concatenate_a 0 3 (hello ++ 0 ∷ three) (hello ++ 0 ∷ three)
    ≡ some (hello ++ overlay (hello ++ 0 ∷ []) (0 ∷ three))
str_concatenate_a-append_example =
    str_concatenate_a-append 0 3 hello three hello three hello-IsByteText three-IsBytes
      (omega arith) hello-IsByteText three-IsBytes (omega arith)
