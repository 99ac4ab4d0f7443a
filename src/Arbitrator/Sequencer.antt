-- ===== src/Arbitrator/Sequencer.antt =====
-- crates/nf-arbitrator/src/lib.rs: the classic and the indexed ingest of one frame.
pub mod Walks
pub mod Staged
pub mod Delivery
pub mod Outcomes
pub mod Gapless
pub mod Ended
pub mod Duplicates
pub mod Indexed
use hft_proj.Prelude.{
  ℕ, zero, suc, ◌+◌, ◌-◌, ◌*◌, ◌/◌, ◌%◌, ◌^◌, max, min, Bool, true, false, ◌&&◌, ◌||◌, not, Option,
  none, some, List, [], ◌∷◌, ◌++◌, if◌then◌else◌, ltb, leb, ◌==◌, Bytes, bytes_eq, add64, sub64,
  le64_at, be64_at, be16_at, length, drop, slice, Result, ok, err, get_or,
}
use hft_proj.Protocol.Moldudp64.{
  Header, header_len, heartbeat_count, eos_count, FrameError, seq_overflow, parse_header, span,
}
use hft_proj.Protocol.Itch5.{ItchError, validate}
use hft_proj.Protocol.Packet.{
  PacketError, payload, Triple, FrameMemo, FrameEntry, Callback, ingest_walk,
}
use hft_proj.Arbitrator.Types.{
  State, init, contig, dead, ended, state_eq, LiveFeedProof, disable_clear_on_advance,
  off_by_one_clamp, drop_staged_at_eos, SequencerMutation, SpanRec, Call, on_msg, on_span, Log,
  ◌>>=◌, done, emit, no_mutation,
}
use hft_proj.Arbitrator.Counters.{
  Counters, FeedCounters, on_feed, record_frame_error, record_packet_error,
}
use hft_proj.Arbitrator.Window.{Window, Drained, window_slots, stage_msg, clear_slots, drain}
use hft_proj.Arbitrator.State.{
  Sequencer, gap_evidence, check_gap_close, session_dispatch, dispatch_session, handle_heartbeat,
  handle_eos,
}

-- Changes to the counters alone.
abbrev pub count : (Counters → Counters) → Sequencer → Sequencer
count f s = record s { counters = f s.counters }

abbrev pub arrive : (bytes : ℕ) → FeedCounters → FeedCounters
arrive n f = record f { packets = add64 f.packets 1; bytes = add64 f.bytes n }

abbrev pub a_violation : Counters → Counters
a_violation c = record c { total_violations = add64 c.total_violations 1 }

-- `violations.record_packet_error(e); total_violations += 1`
unfoldable pub violate : PacketError → Sequencer → Sequencer
violate e = count (λ c. a_violation (record c { violations = record_packet_error c.violations e }))

unfoldable pub violate_frame : FrameError → Sequencer → Sequencer
violate_frame e =
    count (λ c. a_violation (record c { violations = record_frame_error c.violations e }))

unfoldable pub violate_short : Sequencer → Sequencer
violate_short = count (λ c. a_violation (record c {
  violations = record (c.violations) { truncated_frames = add64 c.violations.truncated_frames 1 };
}))

unfoldable pub violate_overflow : Sequencer → Sequencer
violate_overflow = count (λ c. a_violation (record c {
  violations = record (c.violations) { overflows = add64 c.violations.overflows 1 };
}))

-- A flag of the test-only mutation mode.
abbrev pub is_clear_disabled : SequencerMutation → Bool
is_clear_disabled disable_clear_on_advance = true
is_clear_disabled _ = false

abbrev pub is_clamp_off : SequencerMutation → Bool
is_clamp_off off_by_one_clamp = true
is_clamp_off _ = false

abbrev pub is_eos_drop : SequencerMutation → Bool
is_eos_drop drop_staged_at_eos = true
is_eos_drop _ = false

abbrev pub add_emitted : ℕ → Sequencer → Sequencer
add_emitted n = count (λ c. record c { msgs_emitted = add64 c.msgs_emitted n })

abbrev pub add_dups : ℕ → Sequencer → Sequencer
add_dups n = count (λ c. record c { dup_msgs = add64 c.dup_msgs n })

-- A pure duplicate packet.
unfoldable pub skip_duplicate : (feed count : ℕ) → Sequencer → Sequencer
skip_duplicate feed n s =
    add_dups n (count (on_feed feed (λ f. record f { dups = add64 f.dups 1 })) s)

-- The messages emitted so far by a walk, and the calls made.
abbrev pub Emitted : Type 0
Emitted = ℕ × List Call

-- The callback of the contiguous path: validate, then hand over.
unfoldable pub emit_valid : LiveFeedProof → Callback Emitted
emit_valid proof seq msg (n, calls) = elim (validate msg) [
  | err e ↦ (err e, (n, calls))
  | ok u ↦ (ok u, (add64 n 1, calls ++ (on_msg proof seq msg ∷ [])))
]

-- The window's fields after a drain, with the counters and the progress time.
unfoldable pub drain_window : (now_ns : ℕ) → Sequencer → Log Sequencer
drain_window now_ns s =
    let d = drain s.win s.w s.gen in
    (
      record s {
        win = d.win;
        w = d.w;
        counters = record (s.counters) { msgs_emitted = add64 s.counters.msgs_emitted d.emitted };
        progress_vt = if ltb 0 d.emitted then now_ns else s.progress_vt;
      },
      d.calls,
    )

unfoldable pub clear_on_advance : (old_w : ℕ) → Sequencer → Sequencer
clear_on_advance old_w s =
    if not (s.win.staged_count == 0) && not (is_clear_disabled s.mutation)
    then record s { win = clear_slots s.win old_w s.w }
    else s

-- `if gap_active { check_gap_close }`
abbrev pub close_open : Sequencer → Log Sequencer
close_open s = if s.gap_active then check_gap_close s else done s

-- Drain what is staged, then close the gap.
unfoldable pub settle : (now_ns : ℕ) → Sequencer → Log Sequencer
unfolding drain_window
settle now_ns s = do
  s' ← if s.win.staged_count == 0 then done s else drain_window now_ns s
  close_open s'

-- The tail of a contiguous apply: the watermark is past `last`, then clear, drain and close.
unfoldable pub advance : (last now_ns : ℕ) → Sequencer → Log Sequencer
unfolding clear_on_advance settle
advance last now_ns s =
    settle now_ns
      (record (clear_on_advance s.w (record s { w = add64 last 1 })) { progress_vt = now_ns })

-- `if let Some(p) = pending_to { if w >= p { pending_to = None } }`
unfoldable pub retire_pending : Sequencer → Sequencer
retire_pending s = elim s.pending_to [
  | none ↦ s
  | some p ↦ if leb p s.w then record s { pending_to = none } else s
]

-- The blocks of a packet below the watermark are counted as duplicates.
unfoldable pub skip_prefix : (skip : ℕ) → Sequencer → Sequencer
skip_prefix skip s = if skip == 0 then s else add_dups skip s

-- The contiguous path once its walk is over: the walk's error, or the advance.
unfoldable pub finish_contig :
    (last now_ns : ℕ) → Result PacketError (Unit {0}) → List Call → Sequencer → Log Sequencer
finish_contig last now_ns (err e) calls s = (violate e s, calls)
finish_contig last now_ns (ok u) calls s = do
  s2 ← (s, calls)
  s3 ← advance last now_ns s2
  done (retire_pending s3)

-- The contiguous path of `ingest`, where `first` is not past the watermark.
unfoldable pub apply_contig : Bytes → (first last blocks now_ns : ℕ) → Sequencer → Log Sequencer
apply_contig frame first last blocks now_ns s =
    let skip = min (sub64 s.w first) blocks in
    let (r, (n, calls)) =
      ingest_walk frame (emit_valid (record { gen = s.gen })) first blocks skip (0, []) in
    finish_contig last now_ns r calls (add_emitted n (skip_prefix skip s))

abbrev pub max_clamp : Sequencer → ℕ
max_clamp s = add64 s.w (if is_clamp_off s.mutation then window_slots / 2 else window_slots)

-- One validated message of the gap path: staged, or dropped beyond the window.
unfoldable pub stage_or_drop : (clamp seq : ℕ) → Bytes → Sequencer → Sequencer
stage_or_drop clamp seq msg s =
    let (staged, win') = stage_msg s.win s.w seq msg in
    let dropped =
      count (λ c. record c { beyond_window_dropped = add64 c.beyond_window_dropped 1 }) s in
    if ltb seq clamp
    then (if staged
        then record s {
          win = win';
          counters = record (s.counters) { staged_msgs = add64 s.counters.staged_msgs 1 };
        }
        else dropped)
    else dropped

unfoldable pub stage_valid : (clamp : ℕ) → Callback Sequencer
stage_valid clamp seq msg s = elim (validate msg) [
  | err e ↦ (err e, s)
  | ok u ↦ (ok u, stage_or_drop clamp seq msg s)
]

-- The tail of the gap path: evidence beyond the window, the staged maximum, then drain and close.
unfoldable pub after_staging : (last now_ns : ℕ) → Sequencer → Log Sequencer
unfolding drain_window
after_staging last now_ns s =
    let s1 =
      if leb (add64 s.w window_slots) last
      then record s { evidence_hwm = max s.evidence_hwm (add64 last 1) }
      else s in
    let s2 = record s1 { win = record (s1.win) { max_staged = max s1.win.max_staged last } } in
    do s3 ← drain_window now_ns s2; check_gap_close s3

-- The gap path once its walk is over.
unfoldable pub finish_gap :
    (last now_ns : ℕ) → Result PacketError (Unit {0}) → Sequencer → Log Sequencer
finish_gap last now_ns (err e) s = done (violate e s)
finish_gap last now_ns (ok u) s = do s3 ← after_staging last now_ns s; done (retire_pending s3)

-- The gap path of `ingest`, where `first` is past the watermark.
unfoldable pub apply_gap : Bytes → (first last blocks now_ns : ℕ) → Sequencer → Log Sequencer
apply_gap frame first last blocks now_ns s = do
  s1 ← gap_evidence s first
  let (r, s2) = ingest_walk frame (stage_valid (max_clamp s1)) first blocks 0 s1
  finish_gap last now_ns r s2

-- S3 to S5: anchor, drop a pure duplicate, or apply.
unfoldable pub ingest_data : Bytes → (feed now_ns first last blocks : ℕ) → Sequencer → Log Sequencer
ingest_data frame feed now_ns first last blocks s =
    if state_eq s.state init
    then apply_contig frame first last blocks now_ns
        (record s { w = first; progress_vt = now_ns; state = contig })
    else if ltb last s.w
    then done (skip_duplicate feed blocks s)
    else if leb first s.w
    then apply_contig frame first last blocks now_ns s
    else apply_gap frame first last blocks now_ns s

-- S2: the mutation of the test oracle, before the end of a session is handled.
abbrev pub eos_mutation : Sequencer → Sequencer
eos_mutation s =
    if is_eos_drop s.mutation
    then record s { win = record (s.win) { lens = λ _. 0; staged_count = 0 } }
    else s

unfoldable pub reject_after_eos : Sequencer → Sequencer
reject_after_eos = count (λ c. a_violation (record c { data_after_eos = add64 c.data_after_eos 1 }))

-- S2 onwards, where the session has been dispatched.
unfoldable pub classify : Bytes → (feed now_ns : ℕ) → Header → Sequencer → Log Sequencer
classify frame feed now_ns hdr s =
    if hdr.count == heartbeat_count
    then handle_heartbeat s hdr.seq now_ns
    else if hdr.count == eos_count
    then handle_eos (eos_mutation s) hdr
    else if state_eq s.state ended
    then done (reject_after_eos s)
    else elim (span hdr) [
      | none ↦ done (violate_overflow s)
      | some (first, last) ↦ ingest_data frame feed now_ns first last hdr.count s
    ]

-- S0: every frame is counted on its feed.
unfoldable pub count_arrival : Bytes → (feed : ℕ) → Sequencer → Sequencer
count_arrival frame feed = count (on_feed feed (arrive (length frame)))

unfoldable pub ignore_dead : Sequencer → Sequencer
ignore_dead = count (λ c. record c { ignored_after_dead = add64 c.ignored_after_dead 1 })

unfoldable pub ingest : Sequencer → Bytes → (feed now_ns : ℕ) → Log Sequencer
unfolding count_arrival
ingest s frame feed now_ns =
    let s0 = count_arrival frame feed s in
    if ltb (length frame) header_len then done (violate_short s0) else elim (parse_header frame) [
      | err e ↦ done (violate_frame e s0)
      | ok hdr ↦
          if state_eq s.state dead
          then done (ignore_dead s0)
          else (do s1 ← dispatch_session s0 hdr.session; classify frame feed now_ns hdr s1)
    ]
