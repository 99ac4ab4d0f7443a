-- ===== src/Arbitrator/Batch.antt =====
-- crates/nf-arbitrator/src/lib.rs: the batched ingest. A run of steady frames goes through the scan, and
-- a frame that is not steady is applied by `ingest_auto`.
pub mod Contract
pub mod Steps
pub mod Tallies
pub mod Emitters
pub mod Runs
pub mod Scans
pub mod Range
pub mod Bounds
pub mod Indexed
pub mod Sessions
pub mod Equivalence
pub mod Ladder
use hft_proj.Arbitrator.Steady.{
  scan_loop, rec_emitter, zero_tally, ScanEnv, Tally, Scan, Stop, SpanEmit,
}
use hft_proj.Prelude.{
  ℕ, zero, suc, ◌+◌, ◌%◌, Bool, true, false, ◌&&◌, ◌||◌, not, Option, none, some, List, [], ◌∷◌,
  ◌++◌, if◌then◌else◌, ltb, ◌==◌, Bytes, add64, sub64, length, slice,
}
use hft_proj.Protocol.Moldudp64.{span, header_len}
use hft_proj.Protocol.Packet.{Triple, FrameEntry}
use hft_proj.Arbitrator.Types.{
  contig, state_eq, LiveFeedProof, SpanRec, Call, on_msg, on_span_batch, Log, ◌>>=◌, done,
}
use hft_proj.Arbitrator.Counters.{Counters, FeedCounters}
use hft_proj.Arbitrator.State.{Sequencer}
use hft_proj.Arbitrator.Sequencer.Indexed.{memo_is, ingest_auto}

abbrev add_feed : (packets bytes dups : ℕ) → FeedCounters → FeedCounters
add_feed packets bytes dups f = record {
  packets = add64 f.packets packets;
  dups = add64 f.dups dups;
  bytes = add64 f.bytes bytes;
}

-- The deferred counters, committed.
unfoldable pub commit_tally : Tally → Counters → Counters
commit_tally t c = record c {
  feed_a = add_feed t.pk_a t.byt_a t.dup_a c.feed_a;
  feed_b = add_feed t.pk_b t.byt_b t.dup_b c.feed_b;
  dup_msgs = add64 c.dup_msgs t.dup_msgs;
  msgs_emitted = add64 c.msgs_emitted t.emitted;
}

-- The sequencer once a scan's locals are written back.
unfoldable pub write_back : {E : Type 0} → (now_ns : ℕ) → Scan E → Sequencer → Sequencer
write_back now_ns x s = record s {
  w = x.w;
  counters = commit_tally x.tally s.counters;
  progress_vt = if x.progressed then now_ns else s.progress_vt;
}

abbrev pub start_scan : {E : Type 0} → E → (w : ℕ) → Scan E
start_scan em w = record { w = w; tally = zero_tally; em = em; progressed = false }

abbrev pub env_of : (wants_spans : Bool) → Sequencer → ScanEnv
env_of wants_spans s = record {
  proof = record { gen = s.gen };
  wants_spans = wants_spans;
  sess_lo = s.session_lo;
  sess_hi = s.session_hi;
}

-- The end of a scan: the buffer is flushed, and the locals are written back.
unfoldable pub end_scan :
    {E : Type 0}
    → SpanEmit E
    → LiveFeedProof
    → (now_ns : ℕ) → Sequencer
    → Log (Scan E × Stop)
    → Log (Sequencer × Stop)
end_scan emit proof now_ns s m = do
  (x, stop) ← m
  em' ← emit.flush x.em proof
  done (write_back now_ns x s, stop)

-- `steady_scan` with its caller's stores.
unfoldable pub steady_scan :
    (wants_spans : Bool) (now_ns : ℕ) → Sequencer → List FrameEntry → Log (Sequencer × Stop)
steady_scan wants_spans now_ns s es =
    let env = env_of wants_spans s in
    end_scan rec_emitter env.proof now_ns s (scan_loop rec_emitter env es (start_scan [] s.w))

abbrev pub is_none : Option ℕ → Bool
is_none none = true
is_none (some p) = false

unfoldable pub steady_ready : Sequencer → Bool
steady_ready s =
    s.session_live
    && (state_eq s.state contig
        && (s.win.staged_count == 0 && (not s.gap_active && is_none s.pending_to)))

unfoldable pub cold_apply :
    (wants_spans : Bool) (now_ns : ℕ) → Sequencer → FrameEntry → Log Sequencer
cold_apply wants_spans now_ns s e = ingest_auto wants_spans s e.bytes e.feed now_ns e.blocks e.memo

-- A loop's later rounds, after the calls made so far.
abbrev pub after : List Call → Option (Log Sequencer) → Option (Log Sequencer)
after calls none = none
after calls (some (s, later)) = some (s, calls ++ later)

module _ (wants_spans : Bool) (now_ns : ℕ)
    (scan : Sequencer → List FrameEntry → Log (Sequencer × Stop)) where
  -- One frame through the classic path, and the loop from there.
  abbrev pub cold_then :
      Sequencer → FrameEntry → (Sequencer → Option (Log Sequencer)) → Option (Log Sequencer)
  cold_then s e rest = let (s', calls) = cold_apply wants_spans now_ns s e in after calls (rest s')

  abbrev pub after_scan :
      Log (Sequencer × Stop)
      → (Sequencer → List FrameEntry → Option (Log Sequencer))
      → Option (Log Sequencer)
  after_scan ((s, none), calls) rest = some (s, calls)
  after_scan ((s, some (e, es)), calls) rest = after calls (cold_then s e (λ s'. rest s' es))

  abbrev pub next_entry :
      Sequencer
      → List FrameEntry
      → (Sequencer → List FrameEntry → Option (Log Sequencer))
      → Option (Log Sequencer)
  next_entry s [] rest = some (done s)
  next_entry s (e ∷ es) rest = cold_then s e (λ s'. rest s' es)

  -- The driver's loop over a batch; `none` where the fuel runs out.
  unfoldable pub drive : (fuel : ℕ) → Sequencer → List FrameEntry → Option (Log Sequencer)
  drive zero s es = none
  drive (suc fuel) s es = elim (steady_ready s) [
    | true ↦ after_scan (scan s es) (λ s' es'. drive fuel s' es')
    | false ↦ next_entry s es (λ s' es'. drive fuel s' es')
  ]

-- `ingest_entries`, and `ingest_batch`, whose text is the same over an iterator. Each round of the
-- loop takes at least one frame or is the last.
unfoldable pub ingest_entries :
    (wants_spans : Bool) → Sequencer → List FrameEntry → (now_ns : ℕ) → Option (Log Sequencer)
ingest_entries wants_spans s es now_ns =
    drive wants_spans now_ns (steady_scan wants_spans now_ns) (suc (length es)) s es

-- `replay_apply`: the recorded values of a pass are written back.
unfoldable pub replay_apply : Sequencer → (w : ℕ) → Counters → (progress_vt : ℕ) → Sequencer
replay_apply s w counters progress_vt = record s {
  w = w;
  counters = counters;
  progress_vt = progress_vt;
}
