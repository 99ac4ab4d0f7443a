-- ===== src/Prelude/Words.antt =====
-- Machine words as native numbers (release builds wrap: `overflow-checks = false`), and byte strings.
use Prim.Native.Nat.{ℕ, ◌+◌, ◌-◌, ◌*◌, ◌/◌, ◌%◌, ◌^◌, ◌<◌, min}
use mathlib.Core.Path.{◌≡◌, refl}
use mathlib.Core.Bool.{Bool, true, false, ◌&&◌}
use mathlib.Core.List.{List, [], ◌∷◌}
use native.Mathlib.Omega.{arith}
use hft_proj.Prelude.Tests.{◌==◌}
use hft_proj.Prelude.Lists.{get_or, All}

abbrev pub u64 : ℕ
u64 = 2 ^ 64

abbrev pub add64 : ℕ → ℕ → ℕ
add64 a b = (a + b) % u64

abbrev pub sub64 : ℕ → ℕ → ℕ
sub64 a b = (a + u64 - b) % u64

abbrev pub add32 : ℕ → ℕ → ℕ
add32 a b = (a + b) % 2 ^ 32

abbrev pub sat_add64 : ℕ → ℕ → ℕ
sat_add64 a b = min (a + b) (u64 - 1)

abbrev pub Bytes : Type 0
Bytes = List ℕ

abbrev pub IsByte : ℕ → Type 0
IsByte b = b < 256

abbrev pub IsBytes : Bytes → Type 0
IsBytes = All IsByte

abbrev pub byte_at : Bytes → ℕ → ℕ
byte_at b i = get_or b i 0

-- `to_be_bytes` at two widths, and its inverse `from_be_bytes`.
abbrev pub to_be16 : ℕ → Bytes
to_be16 n = n / 256 % 256 ∷ n % 256 ∷ []

abbrev pub from_be16 : ℕ → ℕ → ℕ
from_be16 a b = a * 256 + b

abbrev pub from_be32 : ℕ → ℕ → ℕ → ℕ → ℕ
from_be32 a b c d = ((a * 256 + b) * 256 + c) * 256 + d

abbrev pub to_be64 : ℕ → Bytes
to_be64 n =
    n / 2 ^ 56 % 256
    ∷ n / 2 ^ 48 % 256
    ∷ n / 2 ^ 40 % 256
    ∷ n / 2 ^ 32 % 256
    ∷ n / 2 ^ 24 % 256
    ∷ n / 2 ^ 16 % 256
    ∷ n / 2 ^ 8 % 256
    ∷ n % 256
    ∷ []

-- `from_be_bytes` and `from_le_bytes` of the eight bytes at `i`.
abbrev pub be64_at : Bytes → ℕ → ℕ
be64_at b i =
    from_be32 (byte_at b i) (byte_at b (i + 1)) (byte_at b (i + 2)) (byte_at b (i + 3)) * 2 ^ 32
    + from_be32 (byte_at b (i + 4)) (byte_at b (i + 5)) (byte_at b (i + 6)) (byte_at b (i + 7))

abbrev pub le64_at : Bytes → ℕ → ℕ
le64_at b i =
    from_be32 (byte_at b (i + 7)) (byte_at b (i + 6)) (byte_at b (i + 5)) (byte_at b (i + 4))
      * 2 ^ 32
    + from_be32 (byte_at b (i + 3)) (byte_at b (i + 2)) (byte_at b (i + 1)) (byte_at b i)

abbrev pub be16_at : Bytes → ℕ → ℕ
be16_at b i = from_be16 (byte_at b i) (byte_at b (i + 1))

abbrev pub be32_at : Bytes → ℕ → ℕ
be32_at b i = from_be32 (byte_at b i) (byte_at b (i + 1)) (byte_at b (i + 2)) (byte_at b (i + 3))

-- `==` on byte arrays
pub bytes_eq : Bytes → Bytes → Bool
bytes_eq [] [] = true
bytes_eq [] (y ∷ ys) = false
bytes_eq (x ∷ xs) [] = false
bytes_eq (x ∷ xs) (y ∷ ys) = x == y && bytes_eq xs ys

pub bytes_eq→eq : (xs ys : Bytes) → bytes_eq xs ys ≡ true → xs ≡ ys
unfolding bytes_eq
bytes_eq→eq [] [] h = refl
bytes_eq→eq [] (y ∷ ys) h = ground arith
bytes_eq→eq (x ∷ xs) [] h = ground arith
bytes_eq→eq (x ∷ xs) (y ∷ ys) h = ground (arith, bytes_eq→eq xs ys)

pub bytes_eq_self : (xs : Bytes) → bytes_eq xs xs ≡ true
unfolding bytes_eq
bytes_eq_self [] = refl
bytes_eq_self (x ∷ xs) = ground (arith, bytes_eq_self xs)
