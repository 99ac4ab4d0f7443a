-- ===== src/Transport/Index.antt =====
-- crates/nf-transport/src/render.rs: the block index and validation memo that the replay transport
-- computes once for each rendered frame.
pub mod Frames
use hft_proj.Prelude.{
  ℕ, zero, suc, ◌+◌, Bool, true, false, ◌&&◌, Option, none, some, List, [], ◌∷◌, if◌then◌else◌, ltb,
  ◌==◌, length, slice, Bytes, add64, be16_at, Result, ok, err,
}
use hft_proj.Protocol.Moldudp64.{header_len}
use hft_proj.Protocol.Itch5.{ItchError, validate}
use hft_proj.Protocol.Packet.{Triple}

abbrev pub is_ok : Result ItchError (Unit {0}) → Bool
is_ok (ok u) = true
is_ok (err e) = false

-- The triples of a frame, and how many leading blocks `validate` accepts.
pub record Indexed : Type 0 where
  pub blocks : List Triple
  pub valid : ℕ

abbrev pub with_triple : Triple → Option Indexed → Option Indexed
with_triple t none = none
with_triple t (some i) = some (record i { blocks = t ∷ i.blocks })

-- The index walk over the first `len` bytes of the render buffer. `n` blocks are done, of which the
-- first `valid` are valid as a prefix; `none` tombstones the frame. `n` and `valid` stay at most
-- `count`, a 16-bit word, and do not wrap.
unfoldable pub index_from : Bytes → (len pos seq count n valid : ℕ) → Option Indexed
index_from scratch len pos seq zero n valid =
    if pos == len then some (record { blocks = []; valid = valid }) else none
index_from scratch len pos seq (suc count) n valid =
    let start = pos + 2 in
    let end = start + be16_at scratch pos in
    let valid' =
      if valid == n && is_ok (validate (slice scratch start end)) then valid + 1 else valid in
    let rest = index_from scratch len end (add64 seq 1) count (n + 1) valid' in
    if ltb (length scratch) start
    then none
    else if ltb len end
    then none
    else with_triple (seq, start, end) rest

unfoldable pub index_frame : Bytes → (len first_seq count : ℕ) → Option Indexed
index_frame scratch len first_seq count = index_from scratch len header_len first_seq count 0 0
