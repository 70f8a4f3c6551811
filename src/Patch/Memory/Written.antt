-- ===== src/Patch/Memory/Written.antt =====
-- What is read after a write.
use fvploader.Prelude.{
  ℕ, zero, suc, ◌+◌, ◌-◌, ◌≤◌, ◌<◌, ◌≡◌, refl, sym, ap, ap₂, ◌∙◌, ◌⊎◌, List, [], ◌∷◌, length, take,
  drop, get_or, arith,
}
use fvploader.Patch.Memory.{Memory, peek, poke}

pub take_within : (k n : ℕ) (xs : List ℕ) → n ≤ k → take n (take k xs) ≡ take n xs
take_within k zero xs h = refl
take_within zero (suc n) xs h = absurd (omega arith)
take_within (suc k) (suc n) [] h = refl
take_within (suc k) (suc n) (x ∷ xs) h = ap (λ r. x ∷ r) (take_within k n xs (omega arith))

-- Bytes that are written are read back.
get_or-drop :
    (xs : List ℕ) (i n : ℕ)
    → i < length xs
    → take (suc n) (drop i xs) ≡ get_or xs i 0 ∷ take n (drop (suc i) xs)
get_or-drop [] i n h = absurd (omega arith)
get_or-drop (x ∷ xs) zero n h = refl
get_or-drop (x ∷ xs) (suc i) n h = get_or-drop xs i n (omega arith)

peek-poke_from :
    (m : Memory) (a : ℕ) (bytes : List ℕ) (n i : ℕ)
    → i + n ≤ length bytes
    → peek (poke m a bytes) (a + i) n ≡ take n (drop i bytes)
peek-poke_from m a bytes zero i h = refl
peek-poke_from m a bytes (suc n) i h =
    let next : a + i + 1 ≡ a + suc i = omega arith in
    let here : a + i - a ≡ i = omega arith in
    let first : poke m a bytes (a + i) ≡ get_or bytes i 0 =
      ground (arith, ap (λ k. get_or bytes k 0) here) in
    ap₂ (λ x xs. x ∷ xs) first
      (ap (λ b. peek (poke m a bytes) b n) next ∙ peek-poke_from m a bytes n (suc i) (omega arith))
    ∙ sym (get_or-drop bytes i n (omega arith))

pub peek-poke :
    (m : Memory) (a : ℕ) (bytes : List ℕ) (n : ℕ)
    → n ≤ length bytes
    → peek (poke m a bytes) a n ≡ take n bytes
peek-poke m a bytes n h =
    let same : a + 0 ≡ a = omega arith in
    ap (λ b. peek (poke m a bytes) b n) (sym same) ∙ peek-poke_from m a bytes n 0 (omega arith)

pub poke_outside :
    (m : Memory) (a size : ℕ) (bytes : List ℕ) (x : ℕ)
    → length bytes ≡ size
    → (x < a) ⊎ (a + size ≤ x)
    → poke m a bytes x ≡ m x
poke_outside m a size bytes x e h = ground arith
