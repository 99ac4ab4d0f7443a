-- ===== src/Protocol/Moldudp64/Wire.antt =====
-- crates/nf-protocol/src/moldudp64.rs: frames as the grammar of docs/02-moldudp64.md writes them.
use hft_proj.Prelude.{
  ℕ, ◌+◌, ◌*◌, ◌/◌, ◌%◌, ◌<◌, ◌≡◌, List, [], ◌∷◌, ◌++◌, arith, length, Bytes, to_be16, to_be64,
  be64_at, length-append, u64,
}

-- A message that a two-byte length can announce.
abbrev pub Fits : Bytes → Type 0
Fits m = length m < 65536

-- Length-prefixed messages back to back.
unfoldable pub encode_blocks : List Bytes → Bytes
encode_blocks [] = []
encode_blocks (m ∷ ms) = to_be16 (length m) ++ (m ++ encode_blocks ms)

unfoldable pub encode_header : Bytes → ℕ → ℕ → Bytes
encode_header session seq count = session ++ (to_be64 seq ++ to_be16 count)

unfoldable pub encode_frame : Bytes → ℕ → List Bytes → Bytes
encode_frame session seq ms = encode_header session seq (length ms) ++ encode_blocks ms

pub length-encode_header :
    (session : Bytes) (seq count : ℕ)
    → length session ≡ 10
    → length (encode_header session seq count) ≡ 20
unfolding encode_header
length-encode_header session seq count h =
    omega (arith, length-append session (to_be64 seq ++ to_be16 count))

-- Big-endian numbers read back.
pub be16-to_be16 : (n : ℕ) → n < 65536 → n / 256 % 256 * 256 + n % 256 ≡ n
be16-to_be16 n h = omega arith

pub be64-to_be64 : (n : ℕ) (r : Bytes) → n < u64 → be64_at (to_be64 n ++ r) 0 ≡ n
be64-to_be64 n r h = omega arith
