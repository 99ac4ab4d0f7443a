-- ===== src/Arbitrator/Sequencer/Indexed.antt =====
-- crates/nf-arbitrator/src/lib.rs: `ingest_indexed`, which takes the blocks of a frame from the
-- transport's index, and the router `ingest_auto`.
pub mod Blocks
pub mod Spans
pub mod Emission
pub mod Paths
pub mod Equivalence
use hft_proj.Prelude.{
  ℕ, zero, suc, ◌+◌, ◌-◌, ◌%◌, max, min, Bool, true, false, ◌&&◌, ◌||◌, not, Option, none, some,
  List, [], ◌∷◌, ◌++◌, if◌then◌else◌, ltb, leb, ◌==◌, Bytes, add64, sub64, le64_at, be64_at,
  be16_at, length, drop, slice, Result, ok, err, map_err,
}
use hft_proj.Protocol.Moldudp64.{header_len, heartbeat_count, eos_count}
use hft_proj.Protocol.Itch5.{ItchError, validate}
use hft_proj.Protocol.Packet.{payload, Triple, FrameMemo}
use hft_proj.Arbitrator.Types.{
  init, contig, dead, ended, state_eq, LiveFeedProof, SpanRec, Call, on_msg, on_span, Log, ◌>>=◌,
  done,
}
use hft_proj.Arbitrator.State.{
  Sequencer, gap_evidence, dispatch_session, handle_heartbeat, handle_eos,
}
use hft_proj.Arbitrator.Sequencer.{
  Emitted, add_emitted, skip_prefix, skip_duplicate, violate_short, finish_contig, finish_gap,
  max_clamp, stage_or_drop, eos_mutation, reject_after_eos, count_arrival, ignore_dead, ingest,
}

-- The bytes of a block.
abbrev pub block_of : Bytes → Triple → Bytes
block_of frame (seq, start, end) = slice frame start end

-- `itch5::validate`, not called where the memo proves its answer.
abbrev pub validate_unless : Bool → Bytes → Result ItchError (Unit {0})
validate_unless true msg = ok tt
validate_unless false msg = validate msg

-- The contiguous path's loop over the triples.
unfoldable pub emit_blocks :
    Bytes
    → (all_valid : Bool) → LiveFeedProof
    → List Triple
    → Emitted
    → Result ItchError (Unit {0}) × Emitted
emit_blocks frame all_valid proof [] e = (ok tt, e)
emit_blocks frame all_valid proof ((seq, start, end) ∷ rest) (n, calls) =
    let msg = slice frame start end in
    elim (validate_unless all_valid msg) [
      | err e ↦ (err e, (n, calls))
      | ok _ ↦
          emit_blocks frame all_valid proof rest (add64 n 1, calls ++ (on_msg proof seq msg ∷ []))
    ]

-- The gap path's loop over the triples.
unfoldable pub stage_blocks :
    Bytes → (clamp : ℕ) → List Triple → Sequencer → Result ItchError (Unit {0}) × Sequencer
stage_blocks frame clamp [] s = (ok tt, s)
stage_blocks frame clamp ((seq, start, end) ∷ rest) s =
    let msg = slice frame start end in
    elim (validate msg) [
      | err e ↦ (err e, s)
      | ok _ ↦ stage_blocks frame clamp rest (stage_or_drop clamp seq msg s)
    ]

abbrev pub first_seq_of : List Triple → ℕ
first_seq_of [] = 0
first_seq_of ((seq, start, end) ∷ rest) = seq

abbrev pub start_of : List Triple → ℕ
start_of [] = 0
start_of ((seq, start, end) ∷ rest) = start

-- The sequence number and the end of the last block.
abbrev pub last_of : List Triple → ℕ × ℕ
last_of [] = (0, 0)
last_of ((seq, start, end) ∷ []) = (seq, end)
last_of (t ∷ u ∷ rest) = last_of (u ∷ rest)

abbrev pub memo_is : Option FrameMemo → ℕ → Bool
memo_is none n = false
memo_is (some m) n = m.valid_count == n

-- One span call for the blocks past the duplicate prefix, of which there is at least one.
abbrev pub emit_span : Bytes → LiveFeedProof → (first n skip : ℕ) → List Triple → Emitted
emit_span frame proof first n skip blocks = (
  n - skip,
  on_span proof (record {
    first_seq = add64 first skip;
    count = (n - skip) % 65536;
    body = slice frame (start_of (drop skip blocks)) (last_of blocks).1;
    blocks = drop skip blocks;
  })
      ∷ [],
)

unfoldable pub emit_indexed :
    Bytes
    → (wants_spans all_valid : Bool) → LiveFeedProof
    → (first skip : ℕ) → List Triple
    → Result ItchError (Unit {0}) × Emitted
unfolding emit_blocks
emit_indexed frame wants_spans all_valid proof first skip blocks =
    let n = length blocks in
    if all_valid && (wants_spans && ltb skip n)
    then (ok tt, emit_span frame proof first n skip blocks)
    else emit_blocks frame all_valid proof (drop skip blocks) (0, [])

unfoldable pub apply_contig_indexed :
    Bytes
    → (wants_spans : Bool) → Option FrameMemo
    → (first last now_ns : ℕ) → List Triple
    → Sequencer
    → Log Sequencer
apply_contig_indexed frame wants_spans memo first last now_ns blocks s =
    let n = length blocks in
    let skip = min (sub64 s.w first) n in
    let (r, (k, calls)) =
      emit_indexed frame wants_spans (memo_is memo n) (record { gen = s.gen }) first skip blocks in
    finish_contig last now_ns (map_err payload r) calls (add_emitted k (skip_prefix skip s))

unfoldable pub apply_gap_indexed :
    Bytes → (first last now_ns : ℕ) → List Triple → Sequencer → Log Sequencer
apply_gap_indexed frame first last now_ns blocks s = do
  s1 ← gap_evidence s first
  let (r, s2) = stage_blocks frame (max_clamp s1) blocks s1
  finish_gap last now_ns (map_err payload r) s2

unfoldable pub ingest_data_indexed :
    Bytes
    → (feed now_ns hdr_count : ℕ) → (wants_spans : Bool) → Option FrameMemo
    → List Triple
    → Sequencer
    → Log Sequencer
ingest_data_indexed frame feed now_ns hdr_count wants_spans memo blocks s =
    let first = first_seq_of blocks in
    let last = (last_of blocks).0 in
    if state_eq s.state init
    then apply_contig_indexed frame wants_spans memo first last now_ns blocks
        (record s { w = first; progress_vt = now_ns; state = contig })
    else if ltb last s.w
    then done (skip_duplicate feed hdr_count s)
    else if leb first s.w
    then apply_contig_indexed frame wants_spans memo first last now_ns blocks s
    else apply_gap_indexed frame first last now_ns blocks s

-- S2 onwards. The router sends frames without blocks elsewhere; such a call returns here.
unfoldable pub classify_indexed :
    Bytes
    → (feed now_ns : ℕ) → (wants_spans : Bool) → List Triple
    → Option FrameMemo
    → Sequencer
    → Log Sequencer
classify_indexed frame feed now_ns wants_spans blocks memo s =
    let hdr_count = be16_at frame 18 in
    let hdr_seq = be64_at frame 10 in
    if hdr_count == heartbeat_count
    then handle_heartbeat s hdr_seq now_ns
    else if hdr_count == eos_count
    then handle_eos (eos_mutation s)
        (record { session = slice frame 0 10; seq = hdr_seq; count = hdr_count })
    else if state_eq s.state ended
    then done (reject_after_eos s)
    else if length blocks == 0
    then done s
    else ingest_data_indexed frame feed now_ns hdr_count wants_spans memo blocks s

-- The fused compare of a frame's session with the live template.
unfoldable pub sess_match : Sequencer → Bytes → Bool
sess_match s frame =
    s.session_live && (le64_at frame 0 == s.session_lo && le64_at frame 2 == s.session_hi)

unfoldable pub ingest_indexed :
    (wants_spans : Bool)
    → Sequencer
    → Bytes
    → (feed now_ns : ℕ) → List Triple
    → Option FrameMemo
    → Log Sequencer
unfolding sess_match
ingest_indexed wants_spans s frame feed now_ns blocks memo =
    let s0 = count_arrival frame feed s in
    if ltb (length frame) header_len
    then done (violate_short s0)
    else if state_eq s.state dead
    then done (ignore_dead s0)
    else (do
      s1 ← if sess_match s frame then done s0 else dispatch_session s0 (slice frame 0 10)
      classify_indexed frame feed now_ns wants_spans blocks memo s1)

unfoldable pub ingest_auto :
    (wants_spans : Bool)
    → Sequencer
    → Bytes
    → (feed now_ns : ℕ) → List Triple
    → Option FrameMemo
    → Log Sequencer
ingest_auto wants_spans s frame feed now_ns blocks memo =
    if length blocks == 0
    then ingest s frame feed now_ns
    else ingest_indexed wants_spans s frame feed now_ns blocks memo
