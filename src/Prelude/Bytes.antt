-- ===== src/Prelude/Bytes.antt =====
-- Numbers as little-endian bytes, and 32-bit words.
use Prim.Native.Nat.{ℕ, ◌+◌, ◌-◌, ◌*◌, ◌/◌, ◌%◌, ◌^◌, ◌<◌}
use mathlib.Core.Path.{◌≡◌, refl}
use mathlib.Core.List.{List, [], ◌∷◌, ◌++◌, append-nil}
use native.Mathlib.Omega.{arith}
use fvploader.Prelude.Lists.{length, drop, drop-length}

-- a buffer after a transfer into it: what is longer than the buffer lies past its end
abbrev pub overlay : List ℕ → List ℕ → List ℕ
overlay got buffer = got ++ drop (length got) buffer

-- a little-endian number
unfoldable pub of_bytes : List ℕ → ℕ
of_bytes [] = 0
of_bytes (b ∷ bs) = b + 256 * of_bytes bs

-- the four bytes of a DWORD
unfoldable pub dword_bytes : ℕ → List ℕ
dword_bytes n = (n % 256) ∷ (n / 256 % 256) ∷ (n / 2 ^ 16 % 256) ∷ (n / 2 ^ 24 % 256) ∷ []

pub of_bytes-dword_bytes : (n : ℕ) → n < 2 ^ 32 → of_bytes (dword_bytes n) ≡ n
unfolding of_bytes dword_bytes
of_bytes-dword_bytes n h = omega arith

pub length-dword_bytes : (n : ℕ) → length (dword_bytes n) ≡ 4
unfolding dword_bytes
length-dword_bytes n = refl

-- Transfers that fill a buffer exactly.
pub overlay_full : (got buffer : List ℕ) → length buffer ≡ length got → overlay got buffer ≡ got
overlay_full got buffer e = rw (drop-length buffer (length got) (omega arith)) (append-nil got)

-- sums and differences of 32-bit words
abbrev pub add32 : ℕ → ℕ → ℕ
add32 a b = (a + b) % 2 ^ 32

abbrev pub sub32 : ℕ → ℕ → ℕ
sub32 a b = (a + 2 ^ 32 - b % 2 ^ 32) % 2 ^ 32

-- a signed byte as a 32-bit word
abbrev pub sign_extended : ℕ → ℕ
sign_extended b = (b % 128 + (2 ^ 32 - 128) * (b / 128)) % 2 ^ 32
