-- ===== src/Protocol/Moldudp64.antt =====
-- crates/nf-protocol/src/moldudp64.rs: the MoldUDP64 framing codec.
pub mod Wire
pub mod Blocks
pub mod Frames
pub mod Slicer
use hft_proj.Prelude.{ℕ, zero, suc, ◌+◌, ◌-◌, ◌^◌, Bool, true, false, ◌&&◌, ◌||◌, not}
use hft_proj.Prelude.{Option, none, some, List, [], ◌∷◌, ◌++◌, if◌then◌else◌, ltb, ◌==◌}
use hft_proj.Prelude.{length, drop, slice, Bytes, byte_at, u64, add64, from_be16, be16_at, be64_at}
use hft_proj.Prelude.{to_be16, to_be64, Result, ok, err}

abbrev pub header_len : ℕ
header_len = 20

abbrev pub request_len : ℕ
request_len = 20

abbrev pub heartbeat_count : ℕ
heartbeat_count = 0

abbrev pub eos_count : ℕ
eos_count = 0xffff

abbrev pub SessionId : Type 0
SessionId = Bytes

pub record Header : Type 0 where
  pub session : SessionId
  pub seq : ℕ
  pub count : ℕ

pub data Kind : Type 0 where
  data_kind heartbeat_kind end_of_session_kind : Kind

unfoldable pub kind : Header → Kind
kind h =
    if h.count == heartbeat_count
    then heartbeat_kind
    else if h.count == eos_count
    then end_of_session_kind
    else data_kind

-- `u64::checked_add`
abbrev pub checked_add64 : ℕ → ℕ → Option ℕ
checked_add64 a b = if ltb (a + b) u64 then some (a + b) else none

unfoldable pub span : Header → Option (ℕ × ℕ)
span h =
    if h.count == heartbeat_count || h.count == eos_count
    then none
    else elim (checked_add64 h.seq (h.count - 1)) [ none ↦ none | some last ↦ some (h.seq, last) ]

pub data FrameError : Type 0 where
  truncated : (need got : ℕ) → FrameError
  trailing_bytes : (extra : ℕ) → FrameError
  block_overrun : FrameError
  zero_length_message : FrameError
  seq_overflow : FrameError

pub record MessageBlock : Type 0 where
  pub seq : ℕ
  pub payload : Bytes

pub record MessageBlocks : Type 0 where
  pub buf : Bytes
  pub pos : ℕ
  pub next_seq : ℕ
  pub remaining : ℕ

unfoldable pub new_blocks : Bytes → ℕ → ℕ → MessageBlocks
new_blocks buf start_seq count = record {
  buf = buf;
  pos = 0;
  next_seq = start_seq;
  remaining = count;
}

-- What one call of the iterator does: it is exhausted, yields, or indexes out of bounds.
pub data Next : Type 0 where
  exhausted : Next
  yielded : MessageBlock → MessageBlocks → Next
  panicked : Next

unfoldable pub next : MessageBlocks → Next
next it =
    if it.remaining == 0
    then exhausted
    else if ltb (length it.buf) (it.pos + 2)
    then panicked
    else if ltb (length it.buf) end
    then panicked
    else yielded (record { seq = it.next_seq; payload = slice it.buf (it.pos + 2) end })
        (record it { pos = end; next_seq = add64 it.next_seq 1; remaining = it.remaining - 1 })
  where
    end : ℕ
    end = it.pos + 2 + be16_at it.buf it.pos

-- `size_hint` and `len` of the iterator.
unfoldable pub blocks_len : MessageBlocks → ℕ
blocks_len it = it.remaining

-- A `for` loop over the iterator: its items, or `none` if a call panics. One call more than
-- `remaining` is enough.
unfoldable pub collect : ℕ → MessageBlocks → Option (List MessageBlock)
collect zero it = none
collect (suc fuel) it = elim (next it) [
  | exhausted ↦ some []
  | panicked ↦ none
  | yielded b it' ↦ elim (collect fuel it') [ none ↦ none | some bs ↦ some (b ∷ bs) ]
]

pub data Parsed : Type 0 where
  data_frame : Header → MessageBlocks → Parsed
  heartbeat_frame : Header → Parsed
  end_of_session_frame : Header → Parsed

unfoldable pub parse_header : Bytes → Result FrameError Header
parse_header buf =
    if ltb (length buf) header_len
    then err (truncated header_len (length buf))
    else ok (record { session = slice buf 0 10; seq = be64_at buf 10; count = be16_at buf 18 })

-- The loop of `parse` over the blocks: what is left of the body after `count` blocks.
unfoldable pub skip_blocks : Bytes → ℕ → Result FrameError Bytes
skip_blocks rest zero = ok rest
skip_blocks rest (suc count) =
    let len = be16_at rest 0 in
    let more = skip_blocks (drop (2 + len) rest) count in
    if ltb (length rest) 2
    then err block_overrun
    else if ltb (length rest) (2 + len)
    then err block_overrun
    else more

-- The body of a frame with no blocks.
unfoldable pub parse_bare : Bytes → Parsed → Result FrameError Parsed
parse_bare buf p =
    if length buf == header_len then ok p else err (trailing_bytes (length buf - header_len))

unfoldable pub parse_data : Bytes → Header → Result FrameError Parsed
parse_data buf hdr = elim (skip_blocks (drop header_len buf) hdr.count) [
  | err e ↦ err e
  | ok [] ↦ ok (data_frame hdr (new_blocks (drop header_len buf) hdr.seq hdr.count))
  | ok (x ∷ rest) ↦ err (trailing_bytes (suc (length rest)))
]

-- The sequence check of a data header.
abbrev pub span_overflows : Header → Bool
span_overflows hdr =
    not (hdr.count == heartbeat_count)
    && not (hdr.count == eos_count)
    && not (ltb (hdr.seq + (hdr.count - 1)) u64)

unfoldable pub parse_body : Bytes → Header → Result FrameError Parsed
parse_body buf hdr =
    if span_overflows hdr
    then err seq_overflow
    else if hdr.count == heartbeat_count
    then parse_bare buf (heartbeat_frame hdr)
    else if hdr.count == eos_count
    then parse_bare buf (end_of_session_frame hdr)
    else parse_data buf hdr

unfoldable pub parse : Bytes → Result FrameError Parsed
parse buf =
    if ltb (length buf) header_len
    then err (truncated header_len (length buf))
    else elim (parse_header buf) [ err e ↦ err e | ok hdr ↦ parse_body buf hdr ]

unfoldable pub encode_request : SessionId → ℕ → ℕ → Bytes
encode_request session from count = session ++ (to_be64 from ++ to_be16 count)
