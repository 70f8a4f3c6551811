-- ===== src/Text/Numbers/Decimal.antt =====
-- What the decimal readers make of a text of digits.
use fvploader.Prelude.{
  ℕ, zero, suc, ◌+◌, ◌*◌, ◌/◌, ◌%◌, ◌^◌, ◌<◌, ◌≡◌, refl, sym, ap, ◌∙◌, Bool, true, false, ◌==◌,
  if◌then◌else◌, none, some, List, [], ◌∷◌, ◌++◌, ne→==_false, arith,
}
use native.Mathlib.Nat.{div-add-mod, zero-mod, add-mul-mod_self_right}
use fvploader.Text.Numbers.{
  negated, digit, look_up, decimal_loop, signed_number, string_to_int32_a, string_to_int32_w,
  string_to_int64_a, string_to_int64_w,
}

-- the text of a list of digits
abbrev pub digits_text : List ℕ → List ℕ
digits_text [] = []
digits_text (d ∷ ds) = (b'0' + d) ∷ digits_text ds

abbrev pub AllBelow : ℕ → List ℕ → Type 0
AllBelow b [] = Unit {0}
AllBelow b (d ∷ ds) = (d < b) × AllBelow b ds

-- the number that digits stand for, behind those that gave `n`
abbrev pub value_from : ℕ → ℕ → List ℕ → ℕ
value_from base n [] = n
value_from base n (d ∷ ds) = value_from base (n * base + d) ds

-- The table holds the ten digits in a row.
look_up_digit : (d : ℕ) → d < 10 → look_up (b'0' + d) ≡ digit d
unfolding look_up
look_up_digit zero h = refl
look_up_digit (suc zero) h = refl
look_up_digit (suc (suc zero)) h = refl
look_up_digit (suc (suc (suc zero))) h = refl
look_up_digit (suc (suc (suc (suc zero)))) h = refl
look_up_digit (suc (suc (suc (suc (suc zero))))) h = refl
look_up_digit (suc (suc (suc (suc (suc (suc zero)))))) h = refl
look_up_digit (suc (suc (suc (suc (suc (suc (suc zero))))))) h = refl
look_up_digit (suc (suc (suc (suc (suc (suc (suc (suc zero)))))))) h = refl
look_up_digit (suc (suc (suc (suc (suc (suc (suc (suc (suc zero))))))))) h = refl
look_up_digit (suc (suc (suc (suc (suc (suc (suc (suc (suc (suc d)))))))))) h = absurd (omega arith)

-- Reading a digit keeps the value of the digits so far, modulo the word.
pub step_value :
    (word base m n d : ℕ) → m ≡ n % word → (m * base + d) % word ≡ (n * base + d) % word
step_value word base m n d e =
    let whole : n * base + d ≡ (m * base + d) + ((n / word) * base) * word =
      ap (λ k. k * base + d) (sym (div-add-mod n word) ∙ ap (λ r. word * (n / word) + r) (sym e))
      ∙ spread word (n / word) m base d in
    sym (ap (λ k. k % word) whole ∙ add-mul-mod_self_right (m * base + d) ((n / word) * base) word)
  where
    spread : (w q r b c : ℕ) → (w * q + r) * b + c ≡ (r * b + c) + (q * b) * w
    spread w q r b c = omega arith

digit_step :
    (bits : ℕ) (outside : ℕ → ℕ) (m d : ℕ) (p : List ℕ)
    → d < 10
    → decimal_loop bits outside m ((b'0' + d) ∷ p)
      ≡ decimal_loop bits outside ((m * 10 + d) % 2 ^ bits) p
unfolding decimal_loop
digit_step bits outside m d p h = ground (arith, look_up_digit d h)

-- The loop over digits that follow `n`.
decimal_digits :
    (bits : ℕ) (outside : ℕ → ℕ) (m n : ℕ) (ds p : List ℕ)
    → AllBelow 10 ds
    → m ≡ n % 2 ^ bits
    → decimal_loop bits outside m (digits_text ds ++ p)
      ≡ decimal_loop bits outside (value_from 10 n ds % 2 ^ bits) p
decimal_digits bits outside m n [] p h e = ap (λ r. decimal_loop bits outside r p) e
decimal_digits bits outside m n (d ∷ ds) p (lt, h) e =
    digit_step bits outside m d (digits_text ds ++ p) lt
    ∙ decimal_digits bits outside ((m * 10 + d) % 2 ^ bits) (n * 10 + d) ds p h
        (step_value (2 ^ bits) 10 m n d e)

-- The digits of a number, with or without a sign, that end at a terminator.
abbrev pub signed_text : Bool → List ℕ → List ℕ → List ℕ
signed_text minus ds rest =
    if minus then b'-' ∷ (digits_text ds ++ 0 ∷ rest) else digits_text ds ++ 0 ∷ rest

-- the word that such a text stands for
abbrev pub signed_value : ℕ → Bool → List ℕ → ℕ
signed_value bits minus ds =
    if minus then negated bits (value_from 10 0 ds % 2 ^ bits) else value_from 10 0 ds % 2 ^ bits

loop_value :
    (bits : ℕ) (outside : ℕ → ℕ) (ds rest : List ℕ)
    → AllBelow 10 ds
    → decimal_loop bits outside 0 (digits_text ds ++ 0 ∷ rest)
      ≡ some (value_from 10 0 ds % 2 ^ bits)
unfolding decimal_loop
loop_value bits outside ds rest h =
    decimal_digits bits outside 0 0 ds (0 ∷ rest) h (sym (zero-mod (2 ^ bits)))

-- A reader as a whole, with a minus sign in front and without one.
signed_minus :
    (bits : ℕ) (outside : ℕ → ℕ) (p : List ℕ) (r : ℕ)
    → decimal_loop bits outside 0 p ≡ some r
    → signed_number bits outside (b'-' ∷ p) ≡ some (negated bits r)
unfolding signed_number
signed_minus bits outside p r e = rw e

signed_plus :
    (bits : ℕ) (outside : ℕ → ℕ) (c : ℕ) (p : List ℕ)
    → (c == b'-') ≡ false
    → signed_number bits outside (c ∷ p) ≡ decimal_loop bits outside 0 (c ∷ p)
unfolding signed_number
signed_plus bits outside c p e = rw e

no_sign : (d : ℕ) → (b'0' + d == b'-') ≡ false
no_sign d = ne→==_false (b'0' + d) b'-' (omega arith)

signed_run :
    (bits : ℕ) (outside : ℕ → ℕ) (minus : Bool) (ds rest : List ℕ)
    → AllBelow 10 ds
    → signed_number bits outside (signed_text minus ds rest) ≡ some (signed_value bits minus ds)
signed_run bits outside true ds rest h =
    signed_minus bits outside _ _ (loop_value bits outside ds rest h)
signed_run bits outside false [] rest h =
    signed_plus bits outside 0 rest refl ∙ loop_value bits outside [] rest h
signed_run bits outside false (d ∷ ds) rest h =
    signed_plus bits outside (b'0' + d) _ (no_sign d) ∙ loop_value bits outside (d ∷ ds) rest h

module _ (minus : Bool) (ds rest : List ℕ) (h : AllBelow 10 ds) where
  -- The four readers agree on the digits of a number, with a minus sign or without one: each gives
  -- its value as a word of 32 or 64 bits.
  pub string_to_int-digits :
      (string_to_int32_a (signed_text minus ds rest) ≡ some (signed_value 32 minus ds))
      × (string_to_int32_w (signed_text minus ds rest) ≡ some (signed_value 32 minus ds))
      × (string_to_int64_a (signed_text minus ds rest) ≡ some (signed_value 64 minus ds))
      × (string_to_int64_w (signed_text minus ds rest) ≡ some (signed_value 64 minus ds))
  unfolding string_to_int32_a string_to_int32_w string_to_int64_a string_to_int64_w
  string_to_int-digits = (
    signed_run 32 (λ r. 0) minus ds rest h,
    signed_run 32 (λ r. r) minus ds rest h,
    signed_run 64 (λ r. 0) minus ds rest h,
    signed_run 64 (λ r. r) minus ds rest h,
  )

at_letter :
    (bits : ℕ) (outside : ℕ → ℕ) (m : ℕ) (p : List ℕ)
    → decimal_loop bits outside m (b'H' ∷ p) ≡ none
unfolding decimal_loop look_up
at_letter bits outside m p = refl

loop_run :
    (bits : ℕ) (outside : ℕ → ℕ) (es p : List ℕ)
    → AllBelow 10 es
    → decimal_loop bits outside 0 (digits_text es ++ b'H' ∷ p) ≡ none
loop_run bits outside es p k =
    decimal_digits bits outside 0 0 es (b'H' ∷ p) k (sym (zero-mod (2 ^ bits)))
    ∙ at_letter bits outside _ p

overread_run :
    (bits : ℕ) (outside : ℕ → ℕ) (es p : List ℕ)
    → AllBelow 10 es
    → signed_number bits outside (digits_text es ++ b'H' ∷ p) ≡ none
overread_run bits outside [] p k =
    signed_plus bits outside b'H' p refl ∙ loop_run bits outside [] p k
overread_run bits outside (d ∷ es) p k =
    signed_plus bits outside (b'0' + d) _ (no_sign d) ∙ loop_run bits outside (d ∷ es) p k

-- A letter H behind the digits is taken as an index one behind the table of digits: none of the
-- readers ends there.
pub string_to_int-overread :
    (ds rest : List ℕ)
    → AllBelow 10 ds
    → (string_to_int32_a (digits_text ds ++ b'H' ∷ rest) ≡ none)
      × (string_to_int32_w (digits_text ds ++ b'H' ∷ rest) ≡ none)
      × (string_to_int64_a (digits_text ds ++ b'H' ∷ rest) ≡ none)
      × (string_to_int64_w (digits_text ds ++ b'H' ∷ rest) ≡ none)
unfolding string_to_int32_a string_to_int32_w string_to_int64_a string_to_int64_w
string_to_int-overread ds rest h = (
  overread_run 32 (λ r. 0) ds rest h,
  overread_run 32 (λ r. r) ds rest h,
  overread_run 64 (λ r. 0) ds rest h,
  overread_run 64 (λ r. r) ds rest h,
)
