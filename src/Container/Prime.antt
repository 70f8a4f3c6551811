-- ===== src/Container/Prime.antt =====
-- The sizes of a `HashTableT`: `MillerRabin`, `IsPrime` and `GetTableSize` of
-- source/NativeLib/my.h. Products are taken in `ULONG64` and wrap at 2 ^ 64.
use fvploader.Prelude.{
  ℕ, zero, suc, ◌+◌, ◌-◌, ◌*◌, ◌/◌, ◌%◌, ◌^◌, Bool, true, false, not, ◌&&◌, ◌||◌, ◌==◌, ltb, leb,
  if◌then◌else◌, Option, none, some, List, [], ◌∷◌,
}

abbrev pub mul64 : ℕ → ℕ → ℕ
mul64 a b = a * b % 2 ^ 64

-- `for (s = 0, d = n - 1; !(d & 1); s++) d >>= 1;`, at most as many rounds as `d` has bits.
unfoldable pub factor_twos : ℕ → ℕ → ℕ → ℕ × ℕ
factor_twos zero s d = (s, d)
factor_twos (suc rounds) s d = elim (d % 2 == 1) [
  | true ↦ (s, d)
  | false ↦ factor_twos rounds (s + 1) (d / 2)
]

-- `for (x = 1, b = k % n, e = d; e; e >>= 1) { if (e & 1) x = x * b % n; b = b * b % n; }`
unfoldable pub power_mod : ℕ → ℕ → ℕ → ℕ → ℕ → ℕ
power_mod zero n x b e = x
power_mod (suc rounds) n x b e = elim (e == 0) [
  | true ↦ x
  | false ↦ power_mod rounds n (if e % 2 == 1 then mul64 x b % n else x) (mul64 b b % n) (e / 2)
]

-- `while (s-- > 1) { x = x * x % n; if (x == 1) return FALSE; if (x == n - 1) return TRUE; }`
unfoldable pub square_rounds : ℕ → ℕ → ℕ → Bool
square_rounds zero n x = false
square_rounds (suc s) n x =
    let y : ℕ = mul64 x x % n in
    let rest : Bool = square_rounds s n y in
    if s == 0 then false else if y == 1 then false else if y == n - 1 then true else rest

-- `MillerRabin`; 64 rounds cover the bits of a `ULONG64`.
unfoldable pub miller_rabin : ℕ → ℕ → Bool
unfolding factor_twos power_mod square_rounds
miller_rabin n k =
    if n == k
    then true
    else if n == 2 || n == 3
    then true
    else if leb n 1 || n % 2 == 0
    then false
    else let (s, d) = factor_twos 64 0 (n - 1) in
      let x : ℕ = power_mod 64 n 1 (k % n) d in
      if x == 1 || x == n - 1 then true else square_rounds s n x

abbrev pub small_primes : List ℕ
small_primes =
    2 ∷ 3 ∷ 5 ∷ 7 ∷ 11 ∷ 13 ∷ 17 ∷ 19 ∷ 23 ∷ 29 ∷ 31 ∷ 37 ∷ 41 ∷ 43 ∷ 47 ∷ 53 ∷ 59 ∷ 61 ∷ 67 ∷ 71
    ∷ 73 ∷ []

-- `n % 2 && n % 3 && ... && n % 73`
unfoldable pub none_divides : List ℕ → ℕ → Bool
none_divides [] n = true
none_divides (p ∷ ps) n = not (n % p == 0) && none_divides ps n

-- `IsPrime`
unfoldable pub is_prime : ℕ → Bool
unfolding none_divides miller_rabin
is_prime n =
    if ltb 73 n && not (none_divides small_primes n)
    then false
    else miller_rabin n 2 && miller_rabin n 7 && miller_rabin n 61

-- `while (IsPrime(TableSize) == FALSE) TableSize += 2;`, `none` when the fuel runs out.
unfoldable pub next_prime : ℕ → ℕ → Option ℕ
next_prime zero n = none
next_prime (suc fuel) n = elim (is_prime n) [ true ↦ some n | false ↦ next_prime fuel (n + 2) ]

-- `GetTableSize`
unfoldable pub get_table_size : ℕ → ℕ → Option ℕ
unfolding next_prime
get_table_size fuel n = next_prime fuel (if n % 2 == 0 then n + 1 else n)
