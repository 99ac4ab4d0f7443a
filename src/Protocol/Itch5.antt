-- ===== src/Protocol/Itch5.antt =====
-- crates/nf-protocol/src/itch5.rs: the table of lengths and the payload check of the hot path.
pub mod Table
pub mod Overlays
pub mod Accepted
use hft_proj.Prelude.{
  slice, from_be16, ltb, from_be32, leb, ◌^◌, ℕ, zero, suc, ◌+◌, ◌*◌, Option, none, some, List, [],
  ◌∷◌, if◌then◌else◌, not,
}
use hft_proj.Prelude.{◌==◌, length, Bytes, byte_at, be16_at, Result, ok, err}

-- `LENGTH[t]`: the wire length of each known type byte, and 0 for an unknown one.
unfoldable pub length_of : ℕ → ℕ
length_of t =
    if t == b'S'
    then 12
    else if t == b'R'
    then 39
    else if t == b'H'
    then 25
    else if t == b'Y'
    then 20
    else if t == b'L'
    then 26
    else if t == b'V'
    then 35
    else if t == b'W'
    then 12
    else if t == b'K'
    then 28
    else if t == b'J'
    then 35
    else if t == b'h'
    then 21
    else if t == b'A'
    then 36
    else if t == b'F'
    then 40
    else if t == b'E'
    then 31
    else if t == b'C'
    then 36
    else if t == b'X'
    then 23
    else if t == b'D'
    then 19
    else if t == b'U'
    then 35
    else if t == b'P'
    then 44
    else if t == b'Q'
    then 40
    else if t == b'B'
    then 19
    else if t == b'I'
    then 50
    else if t == b'N'
    then 20
    else 0

unfoldable pub msg_len : ℕ → Option ℕ
msg_len type_byte = if length_of type_byte == 0 then none else some (length_of type_byte)

pub data ItchError : Type 0 where
  empty : ItchError
  unknown_type : (t : ℕ) → ItchError
  length_mismatch : (expected got : ℕ) → ItchError

unfoldable pub validate : Bytes → Result ItchError (Unit {0})
validate [] = err empty
validate (t ∷ rest) =
    if length_of t == 0
    then err (unknown_type t)
    else if not (length (t ∷ rest) == length_of t)
    then err (length_mismatch (length_of t) (length (t ∷ rest)))
    else ok tt

pub record CommonHeader : Type 0 where
  pub locate : ℕ
  pub tracking : ℕ
  pub timestamp_ns : ℕ

-- A read that panics ends the accessor.
infixl 5 ◌>>=◌
abbrev pub ◌>>=◌ {ℓ κ} : {A : Type ℓ} {B : Type κ} → Option A → (A → Option B) → Option B
none >>= f = none
some a >>= f = f a

-- `msg[i]`, a panic out of bounds.
abbrev pub read_byte : Bytes → ℕ → Option ℕ
read_byte msg i = if ltb i (length msg) then some (byte_at msg i) else none

-- `from_be_bytes` of the bytes at `i` and after it, each read by its index.
abbrev pub read_be16 : Bytes → ℕ → Option ℕ
read_be16 msg i = do a ← read_byte msg i; b ← read_byte msg (i + 1); some (from_be16 a b)

abbrev pub read_be32 : Bytes → ℕ → Option ℕ
read_be32 msg i = do
  a ← read_byte msg i
  b ← read_byte msg (i + 1)
  c ← read_byte msg (i + 2)
  d ← read_byte msg (i + 3)
  some (from_be32 a b c d)

abbrev pub read_be64 : Bytes → ℕ → Option ℕ
read_be64 msg i = do hi ← read_be32 msg i; lo ← read_be32 msg (i + 4); some (hi * 2 ^ 32 + lo)

-- `&msg[lo..hi]`, a panic out of bounds.
abbrev pub read_slice : Bytes → (lo hi : ℕ) → Option Bytes
read_slice msg lo hi = if leb hi (length msg) then some (slice msg lo hi) else none

-- The bytes at 5 to 10 are shifted into six disjoint groups of eight bits, so `|` adds them.
unfoldable pub header : Bytes → Option CommonHeader
header msg = do
  locate ← read_be16 msg 1
  tracking ← read_be16 msg 3
  a ← read_byte msg 5
  b ← read_byte msg 6
  c ← read_byte msg 7
  d ← read_byte msg 8
  e ← read_byte msg 9
  f ← read_byte msg 10
  some (record {
    locate = locate;
    tracking = tracking;
    timestamp_ns = ((((a * 256 + b) * 256 + c) * 256 + d) * 256 + e) * 256 + f;
  })
