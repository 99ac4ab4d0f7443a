-- ===== src/Protocol/Packet.antt =====
-- crates/nf-protocol/src/packet.rs: framing and payload validation together.
pub mod Walk
pub mod Verdict
use hft_proj.Prelude.{
  ℕ, zero, suc, ◌+◌, ◌-◌, ◌%◌, Bool, true, false, ◌&&◌, Option, none, some, List, if◌then◌else◌,
  ltb, leb, ◌==◌, length, slice, Bytes, add64, be16_at, Result, ok, err,
}
use hft_proj.Protocol.Moldudp64.{
  FrameError, block_overrun, trailing_bytes, header_len, Parsed, data_frame, MessageBlocks, Next,
  next, exhausted, yielded, panicked, parse, heartbeat_frame, end_of_session_frame,
}
use hft_proj.Protocol.Itch5.{ItchError, validate}

pub data PacketError : Type 0 where
  framing : FrameError → PacketError
  payload : ItchError → PacketError

-- A block of a transport's index: sequence number, and the payload's bounds in the frame.
abbrev pub Triple : Type 0
Triple = ℕ × ℕ × ℕ

pub record FrameMemo : Type 0 where
  pub valid_count : ℕ

-- The compare kernel of the vectorised scan is injected by another crate: a parameter.
abbrev pub SoaLadder8 : Type 0
SoaLadder8 = List ℕ → List ℕ → ℕ → Bool

pub record FrameEntry : Type 0 where
  pub bytes : Bytes
  pub feed : ℕ
  pub blocks : List Triple
  pub memo : Option FrameMemo
  pub first_seq : ℕ
  pub sess_lo : ℕ
  pub sess_hi : ℕ
  pub elig : ℕ

-- `elig & 3`
unfoldable pub elig_feed : ℕ → ℕ
elig_feed elig = elig % 4

-- A callback with captured state `S`: `FnMut(u64, &[u8]) -> Result<(), ItchError>`.
abbrev pub Callback : Type 0 → Type 0
Callback S = ℕ → Bytes → S → Result ItchError (Unit {0}) × S

module _ {S : Type 0} where
  -- The call of the callback on one block, not made while the duplicate prefix is skipped.
  unfoldable pub visit :
      Callback S → (seq to_skip : ℕ) → Bytes → S → Result ItchError (Unit {0}) × S
  visit f seq to_skip msg s = if ltb 0 to_skip then (ok tt, s) else f seq msg s

  -- `?` on the callback's result, with the payload error wrapped.
  unfoldable pub continue :
      Result ItchError (Unit {0}) × S
      → (S → Result PacketError (Unit {0}) × S)
      → Result PacketError (Unit {0}) × S
  continue (ok u, s) rest = rest s
  continue (err e, s) rest = (err (payload e), s)

unfoldable pub block_end : Bytes → ℕ → ℕ
block_end frame pos = pos + 2 + be16_at frame pos

-- Both bounds checks of a block pass: its length field, then its payload.
unfoldable pub has_block : Bytes → ℕ → Bool
has_block frame pos = leb (pos + 2) (length frame) && leb (block_end frame pos) (length frame)

module _ {S : Type 0} (frame : Bytes) (f : Callback S) where
  -- The loop of `ingest_walk`, at offset `pos`, with `count` blocks left.
  unfoldable pub walk_from : (pos seq count to_skip : ℕ) → S → Result PacketError (Unit {0}) × S
  walk_from pos seq zero to_skip s = (
    if pos == length frame then ok tt else err (framing (trailing_bytes (length frame - pos))),
    s,
  )
  walk_from pos seq (suc count) to_skip s =
      if has_block frame pos
      then continue (visit f seq to_skip (slice frame (pos + 2) (block_end frame pos)) s)
          (λ s'. walk_from (block_end frame pos) (add64 seq 1) count (to_skip - 1) s')
      else (err (framing block_overrun), s)

  unfoldable pub ingest_walk : (first_seq count skip : ℕ) → S → Result PacketError (Unit {0}) × S
  ingest_walk first_seq count skip s = walk_from header_len first_seq count skip s

-- The loop of `validate_frame` over the blocks; `none` is a panic of the iterator.
unfoldable pub validate_blocks : ℕ → MessageBlocks → Option (Result ItchError (Unit {0}))
validate_blocks zero it = none
validate_blocks (suc fuel) it = elim (next it) [
  | exhausted ↦ some (ok tt)
  | panicked ↦ none
  | yielded b it' ↦ elim (validate b.payload) [
    | ok _ ↦ validate_blocks fuel it'
    | err e ↦ some (err e)
  ]
]

abbrev checked : Parsed → Option (Result ItchError (Unit {0})) → Option (Result PacketError Parsed)
checked p none = none
checked p (some (ok u)) = some (ok p)
checked p (some (err e)) = some (err (payload e))

unfoldable pub validate_frame : Bytes → Option (Result PacketError Parsed)
validate_frame buf = elim (parse buf) [
  | err e ↦ some (err (framing e))
  | ok (data_frame hdr it) ↦ checked (data_frame hdr it) (validate_blocks (suc it.remaining) it)
  | ok (heartbeat_frame hdr) ↦ some (ok (heartbeat_frame hdr))
  | ok (end_of_session_frame hdr) ↦ some (ok (end_of_session_frame hdr))
]
