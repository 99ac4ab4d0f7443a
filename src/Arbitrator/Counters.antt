-- ===== src/Arbitrator/Counters.antt =====
-- crates/nf-arbitrator/src/counters.rs: the telemetry counters, 64-bit words that wrap.
use hft_proj.Prelude.{ℕ, ◌%◌, if◌then◌else◌, ◌==◌, add64}
use hft_proj.Protocol.Moldudp64.{
  FrameError, truncated, trailing_bytes, block_overrun, zero_length_message, seq_overflow,
}
use hft_proj.Protocol.Packet.{PacketError, framing, payload}

pub record FeedCounters : Type 0 where
  pub packets : ℕ
  pub dups : ℕ
  pub bytes : ℕ

pub record ViolationCounters : Type 0 where
  pub truncated_frames : ℕ
  pub trailing : ℕ
  pub overruns : ℕ
  pub zero_length : ℕ
  pub overflows : ℕ
  pub payload_invalid : ℕ
  pub other : ℕ

pub record Counters : Type 0 where
  pub feed_a : FeedCounters
  pub feed_b : FeedCounters
  pub violations : ViolationCounters
  pub total_violations : ℕ
  pub staged_msgs : ℕ
  pub dup_msgs : ℕ
  pub beyond_window_dropped : ℕ
  pub window_flushed : ℕ
  pub gap_opens : ℕ
  pub reanchors : ℕ
  pub heartbeats : ℕ
  pub eos_seen : ℕ
  pub eos_dup : ℕ
  pub sessions : ℕ
  pub data_after_eos : ℕ
  pub ignored_after_dead : ℕ
  pub intents_issued : ℕ
  pub msgs_emitted : ℕ

abbrev pub zero_feed : FeedCounters
zero_feed = record { packets = 0; dups = 0; bytes = 0 }

abbrev pub zero_violations : ViolationCounters
zero_violations = record {
  truncated_frames = 0;
  trailing = 0;
  overruns = 0;
  zero_length = 0;
  overflows = 0;
  payload_invalid = 0;
  other = 0;
}

-- `Counters::default()`
abbrev pub zero_counters : Counters
zero_counters = record {
  feed_a = zero_feed;
  feed_b = zero_feed;
  violations = zero_violations;
  total_violations = 0;
  staged_msgs = 0;
  dup_msgs = 0;
  beyond_window_dropped = 0;
  window_flushed = 0;
  gap_opens = 0;
  reanchors = 0;
  heartbeats = 0;
  eos_seen = 0;
  eos_dup = 0;
  sessions = 0;
  data_after_eos = 0;
  ignored_after_dead = 0;
  intents_issued = 0;
  msgs_emitted = 0;
}

unfoldable pub record_frame_error : ViolationCounters → FrameError → ViolationCounters
record_frame_error v (truncated need got) = record v {
  truncated_frames = add64 v.truncated_frames 1;
}
record_frame_error v (trailing_bytes extra) = record v { trailing = add64 v.trailing 1 }
record_frame_error v block_overrun = record v { overruns = add64 v.overruns 1 }
record_frame_error v zero_length_message = record v { zero_length = add64 v.zero_length 1 }
record_frame_error v seq_overflow = record v { overflows = add64 v.overflows 1 }

unfoldable pub record_packet_error : ViolationCounters → PacketError → ViolationCounters
record_packet_error v (framing e) = record_frame_error v e
record_packet_error v (payload e) = record v { payload_invalid = add64 v.payload_invalid 1 }

-- `*feed_mut(feed)` changed by `f`: feeds are told apart by their lowest bit.
unfoldable pub on_feed : ℕ → (FeedCounters → FeedCounters) → Counters → Counters
on_feed feed f c =
    if feed % 2 == 0 then record c { feed_a = f c.feed_a } else record c { feed_b = f c.feed_b }
