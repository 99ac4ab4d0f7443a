-- ===== src/Arbitrator/Batch/Contract.antt =====
-- crates/nf-protocol/src/packet.rs: what the transport promises of a `FrameEntry`, and the range of the
-- sequencer's counters.
use hft_proj.Prelude.{◌+◌, ◌-◌, ◌<◌, ◌≤◌, ◌≡◌, ◌⊎◌, length, IsBytes, u64, le64_at, be16_at}
use hft_proj.Protocol.Packet.{FrameEntry}
use hft_proj.Arbitrator.Counters.{Counters}
use hft_proj.Arbitrator.State.{Sequencer}
use hft_proj.Arbitrator.Sequencer.Indexed.{first_seq_of, start_of, last_of}

-- The index of a frame with blocks: the inline fields are the frame's, the blocks tile it, and its
-- numbers do not wrap.
pub record IsIndexed (e : FrameEntry) : Type 0 where
  pub lo : e.sess_lo ≡ le64_at e.bytes 0
  pub hi : e.sess_hi ≡ le64_at e.bytes 2
  pub first : first_seq_of e.blocks ≡ e.first_seq
  pub last : last_of e.blocks ≡ (e.first_seq + (length e.blocks - 1), length e.bytes)
  pub start : start_of e.blocks ≡ 22
  pub count : be16_at e.bytes 18 ≡ length e.blocks
  pub nonempty : 0 < length e.blocks
  pub few : length e.blocks < 65535
  pub long : 20 ≤ length e.bytes
  pub bound : e.first_seq + length e.blocks < u64

-- A frame of bytes: an entry with blocks is indexed, and one without them is the classic path's.
abbrev pub IsEntry : FrameEntry → Type 0
IsEntry e = IsBytes e.bytes × ((length e.blocks ≡ 0) ⊎ IsIndexed e)

-- The counters that a scan defers are 64-bit words.
pub record AreBounded (c : Counters) : Type 0 where
  pub packets_a : c.feed_a.packets < u64
  pub packets_b : c.feed_b.packets < u64
  pub bytes_a : c.feed_a.bytes < u64
  pub bytes_b : c.feed_b.bytes < u64
  pub dups_a : c.feed_a.dups < u64
  pub dups_b : c.feed_b.dups < u64
  pub dup_msgs : c.dup_msgs < u64
  pub msgs_emitted : c.msgs_emitted < u64

-- So is the watermark.
pub record IsBounded (s : Sequencer) : Type 0 where
  pub w : s.w < u64
  pub counters : AreBounded s.counters

-- A step that keeps these words in range and leaves the session of `a` alone.
pub record Stays (a s : Sequencer) : Type 0 where
  pub bounded : IsBounded s
  pub session : s.session ≡ a.session
  pub lo : s.session_lo ≡ a.session_lo
  pub hi : s.session_hi ≡ a.session_hi
  pub live : s.session_live ≡ a.session_live
