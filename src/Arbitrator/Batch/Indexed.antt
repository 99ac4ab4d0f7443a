-- ===== src/Arbitrator/Batch/Indexed.antt =====
-- crates/nf-arbitrator/src/lib.rs: `ingest_auto` of an entry keeps the watermark and the counters in
-- range.
use hft_proj.Arbitrator.State.{dispatch_session, Sequencer}
use hft_proj.Protocol.Moldudp64.{header_len}
use hft_proj.Arbitrator.Types.{done, Log, contig, state_eq, dead, init}
use hft_proj.Arbitrator.Sequencer.{stage_or_drop, eos_mutation, count_arrival}
use hft_proj.Arbitrator.Batch.Range.{
  ignore_dead-Stays, violate_short-Stays, skip_prefix-Stays, reject_after_eos-Stays,
  add_emitted-Stays, gap_evidence-Stays, handle_eos-Stays, count_arrival-Stays, finish_contig-Stays,
  skip_duplicate-Stays, handle_heartbeat-Stays, dispatch_session-IsBounded,
}
use hft_proj.Arbitrator.Batch.Bounds.{
  Stays-refl, finish_gap-Stays, stage_or_drop-Stays, ingest-IsBounded,
}
use hft_proj.Protocol.Packet.{FrameEntry, Triple, FrameMemo}
use hft_proj.Arbitrator.Batch.{cold_apply}
use hft_proj.Arbitrator.Sequencer.Indexed.{
  ingest_auto, sess_match, last_of, first_seq_of, ingest_data_indexed, classify_indexed,
  ingest_indexed, apply_gap_indexed, apply_contig_indexed, stage_blocks,
}
use hft_proj.Prelude.{
  if◌then◌else◌, ◌==◌, inr, inl, Bool, List, Option, ltb, length, slice, leb, [], ◌∷◌, be16_at,
  if-cases, be64_at, arith, ◌<◌, Bytes, ℕ, u64,
}
use hft_proj.Arbitrator.Batch.Contract.{Stays, IsBounded, IsEntry}

module _ (a : Sequencer) where
  stage_blocks-Stays :
      (frame : Bytes) (clamp : ℕ) (ts : List Triple) (s : Sequencer)
      → Stays a s
      → Stays a (stage_blocks frame clamp ts s).1
  unfolding stage_blocks
  stage_blocks-Stays frame clamp [] s h = h
  stage_blocks-Stays frame clamp ((seq, i, j) ∷ ts) s h = ground (
    arith,
    stage_blocks-Stays frame clamp ts (stage_or_drop clamp seq (slice frame i j) s),
    stage_or_drop-Stays a clamp seq (slice frame i j) s,
  )

  module _ (frame : Bytes) (wants : Bool) (memo : Option FrameMemo) (ts : List Triple)
      (now : ℕ) where
    apply_contig_indexed-Stays :
        (first last : ℕ) (s : Sequencer)
        → Stays a s
        → Stays a (apply_contig_indexed frame wants memo first last now ts s).0
    unfolding apply_contig_indexed
    apply_contig_indexed-Stays first last s h =
        finish_contig-Stays a last now _ _ _ (add_emitted-Stays a _ _ (skip_prefix-Stays a _ s h))

    apply_gap_indexed-Stays :
        (first last : ℕ) (s : Sequencer)
        → Stays a s
        → Stays a (apply_gap_indexed frame first last now ts s).0
    unfolding apply_gap_indexed
    apply_gap_indexed-Stays first last s h =
        finish_gap-Stays a last now _ _
          (stage_blocks-Stays frame _ ts _ (gap_evidence-Stays a s first h))

    ingest_data_indexed-Stays :
        (feed n : ℕ) (s : Sequencer)
        → first_seq_of ts < u64
        → Stays a s
        → Stays a (ingest_data_indexed frame feed now n wants memo ts s).0
    unfolding ingest_data_indexed
    ingest_data_indexed-Stays feed n s f h =
        let P : Log Sequencer → Type 0 = λ m. Stays a m.0 in
        let first = first_seq_of ts in
        let last = (last_of ts).0 in
        let anchored : Sequencer = record s { w = first; progress_vt = now; state = contig } in
        let i : Stays a anchored = record {
          bounded = record { w = f; counters = h.bounded.counters };
          session = h.session;
          lo = h.lo;
          hi = h.hi;
          live = h.live;
        } in
        if-cases P (state_eq s.state init) (λ new. apply_contig_indexed-Stays first last anchored i)
          (λ new.
            if-cases P (ltb last s.w) (λ b. skip_duplicate-Stays a feed n s h)
              (λ b.
                if-cases P (leb first s.w) (λ c. apply_contig_indexed-Stays first last s h)
                  (λ c. apply_gap_indexed-Stays first last s h)))

    classify_indexed-Stays :
        (feed : ℕ) (s : Sequencer)
        → first_seq_of ts < u64
        → Stays a s
        → Stays a (classify_indexed frame feed now wants ts memo s).0
    unfolding classify_indexed
    classify_indexed-Stays feed s f h = ground (
      arith,
      handle_heartbeat-Stays a s (be64_at frame 10) now,
      handle_eos-Stays a (eos_mutation s)
          (record { session = slice frame 0 10; seq = be64_at frame 10; count = be16_at frame 18 }),
      reject_after_eos-Stays a s,
      ingest_data_indexed-Stays feed (be16_at frame 18) s,
    )

module _ (frame : Bytes) (wants : Bool) (memo : Option FrameMemo) (ts : List Triple) (now : ℕ) where
  ingest_indexed-IsBounded :
      (feed : ℕ) (s : Sequencer)
      → first_seq_of ts < u64
      → IsBounded s
      → IsBounded (ingest_indexed wants s frame feed now ts memo).0
  unfolding ingest_indexed
  ingest_indexed-IsBounded feed s f h =
      let P : Log Sequencer → Type 0 = λ m. IsBounded m.0 in
      let s0 = count_arrival frame feed s in
      let h0 : Stays s s0 = count_arrival-Stays s frame feed s (Stays-refl s h) in
      let m : Log Sequencer =
        if sess_match s frame then done s0 else dispatch_session s0 (slice frame 0 10) in
      let b : IsBounded m.0 =
        if-cases P (sess_match s frame) (λ c. h0.bounded)
          (λ c. dispatch_session-IsBounded s0 (slice frame 0 10) h0.bounded) in
      if-cases P (ltb (length frame) header_len) (λ a. (violate_short-Stays s s0 h0).bounded)
        (λ a.
          if-cases P (state_eq s.state dead) (λ d. (ignore_dead-Stays s s0 h0).bounded)
            (λ d.
              (classify_indexed-Stays m.0 frame wants memo ts now feed m.0 f
                (Stays-refl m.0 b)).bounded))

-- The classic path of one entry.
pub cold_apply-IsBounded :
    (wants : Bool) (now : ℕ) (s : Sequencer) (e : FrameEntry)
    → IsEntry e
    → IsBounded s
    → IsBounded (cold_apply wants now s e).0
unfolding cold_apply ingest_auto
cold_apply-IsBounded wants now s e (bytes, inl z) h =
    rw z (ingest-IsBounded s e.bytes e.feed now bytes h)
cold_apply-IsBounded wants now s e (bytes, inr i) h =
    if-cases (λ (m : Log Sequencer). IsBounded m.0) (length e.blocks == 0)
      (λ a. ingest-IsBounded s e.bytes e.feed now bytes h)
      (λ a.
        ingest_indexed-IsBounded e.bytes wants e.memo e.blocks now e.feed s
          (omega (arith, i.first, i.bound)) h)
