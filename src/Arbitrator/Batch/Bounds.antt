-- ===== src/Arbitrator/Batch/Bounds.antt =====
-- crates/nf-arbitrator/src/lib.rs: `ingest_auto` keeps the watermark and the counters in range.
use hft_proj.Arbitrator.Sequencer.Gapless.{header_of, parse_header_ok}
use hft_proj.Arbitrator.Batch.Range.{
  violate_overflow-Stays, ignore_dead-Stays, reject_after_eos-Stays, violate_short-Stays,
  skip_duplicate-Stays, retire_pending-Stays, drain_window-Stays, handle_eos-Stays,
  check_gap_close-Stays, apply_contig-Stays, violate-Stays, handle_heartbeat-Stays,
  gap_evidence-Stays, count_arrival-Stays, dispatch_session-IsBounded,
}
use hft_proj.Arbitrator.Types.{dead, init, state_eq, contig, Log}
use hft_proj.Arbitrator.Batch.Contract.{Stays, IsBounded}
use hft_proj.Protocol.Itch5.{ItchError}
use hft_proj.Protocol.Moldudp64.{header_len, Header, span}
use hft_proj.Arbitrator.State.{dispatch_session, gap_evidence, Sequencer}
use hft_proj.Protocol.Packet.{
  block_end, has_block, PacketError, visit, walk_from, continue, ingest_walk, Callback,
}
use hft_proj.Arbitrator.Sequencer.{
  count_arrival, ingest, eos_mutation, max_clamp, after_staging, stage_valid, ingest_data, classify,
  stage_or_drop, apply_gap, finish_gap,
}
use hft_proj.Prelude.{
  refl, IsByte, All-get_or, length, byte_at, be64_at, IsBytes, leb, arith, zero, suc, ok, err, ◌-◌,
  add64, ◌+◌, err, slice, ok, ltb, suc, if-cases, ◌<◌, Result, Bytes, ℕ, u64,
}

module _ {S : Type 0} {P : S → Type 0} (f : Callback S)
    (keep : (seq : ℕ) (msg : Bytes) (s : S) → P s → P (f seq msg s).1) where
  visit-keeps : (seq skip : ℕ) (msg : Bytes) (s : S) → P s → P (visit f seq skip msg s).1
  unfolding visit
  visit-keeps seq skip msg s h =
      if-cases (λ (r : Result ItchError (Unit {0}) × S). P r.1) (ltb 0 skip) (λ c. h)
        (λ c. keep seq msg s h)

  continue-keeps :
      (r : Result ItchError (Unit {0}) × S) (rest : S → Result PacketError (Unit {0}) × S)
      → ((s : S) → P s → P (rest s).1)
      → P r.1
      → P (continue r rest).1
  unfolding continue
  continue-keeps (ok u, s) rest k h = k s h
  continue-keeps (err e, s) rest k h = h

  -- What the callback keeps, the walk keeps.
  walk_from-keeps :
      (frame : Bytes) (pos seq count skip : ℕ) (s : S)
      → P s
      → P (walk_from frame f pos seq count skip s).1
  unfolding walk_from
  walk_from-keeps frame pos seq zero skip s h = h
  walk_from-keeps frame pos seq (suc count) skip s h =
      if-cases (λ (r : Result PacketError (Unit {0}) × S). P r.1) (has_block frame pos)
        (λ b.
          continue-keeps (visit f seq skip (slice frame (pos + 2) (block_end frame pos)) s) _
            (λ s' h'.
              walk_from-keeps frame (block_end frame pos) (add64 seq 1) count (skip - 1) s' h')
            (visit-keeps seq skip _ s h))
        (λ b. h)

module _ (a : Sequencer) where
  pub stage_or_drop-Stays :
      (clamp seq : ℕ) (msg : Bytes) (s : Sequencer)
      → Stays a s
      → Stays a (stage_or_drop clamp seq msg s)
  unfolding stage_or_drop
  stage_or_drop-Stays clamp seq msg s h = ground arith

  stage_valid-Stays :
      (clamp seq : ℕ) (msg : Bytes) (s : Sequencer)
      → Stays a s
      → Stays a (stage_valid clamp seq msg s).1
  unfolding stage_valid
  stage_valid-Stays clamp seq msg s h = ground (arith, stage_or_drop-Stays clamp seq msg s)

  after_staging-Stays :
      (last now : ℕ) (s : Sequencer) → Stays a s → Stays a (after_staging last now s).0
  unfolding after_staging
  after_staging-Stays last now s h =
      check_gap_close-Stays a _ (drain_window-Stays a now _ (ground arith))

  pub finish_gap-Stays :
      (last now : ℕ) (r : Result PacketError (Unit {0})) (s : Sequencer)
      → Stays a s
      → Stays a (finish_gap last now r s).0
  unfolding finish_gap
  finish_gap-Stays last now (err e) s h = violate-Stays a e s h
  finish_gap-Stays last now (ok u) s h = retire_pending-Stays a _ (after_staging-Stays last now s h)

  apply_gap-Stays :
      (frame : Bytes) (first last blocks now : ℕ) (s : Sequencer)
      → Stays a s
      → Stays a (apply_gap frame first last blocks now s).0
  unfolding apply_gap ingest_walk
  apply_gap-Stays frame first last blocks now s h =
      let s1 = (gap_evidence s first).0 in
      finish_gap-Stays last now _ _ (
        walk_from-keeps {P = Stays a} (stage_valid (max_clamp s1))
          (λ seq msg s i. stage_valid-Stays (max_clamp s1) seq msg s i) frame 20 first blocks 0 s1
          (gap_evidence-Stays a s first h))

  ingest_data-Stays :
      (frame : Bytes) (feed now first last blocks : ℕ) (s : Sequencer)
      → first < u64
      → Stays a s
      → Stays a (ingest_data frame feed now first last blocks s).0
  unfolding ingest_data
  ingest_data-Stays frame feed now first last blocks s f h =
      let P : Log Sequencer → Type 0 = λ m. Stays a m.0 in
      let anchored : Sequencer = record s { w = first; progress_vt = now; state = contig } in
      let i : Stays a anchored = record {
        bounded = record { w = f; counters = h.bounded.counters };
        session = h.session;
        lo = h.lo;
        hi = h.hi;
        live = h.live;
      } in
      if-cases P (state_eq s.state init)
        (λ new. apply_contig-Stays a frame first last blocks now anchored i)
        (λ new.
          if-cases P (ltb last s.w) (λ b. skip_duplicate-Stays a feed blocks s h)
            (λ b.
              if-cases P (leb first s.w) (λ c. apply_contig-Stays a frame first last blocks now s h)
                (λ c. apply_gap-Stays frame first last blocks now s h)))

  pub classify-Stays :
      (frame : Bytes) (feed now : ℕ) (hdr : Header) (s : Sequencer)
      → hdr.seq < u64
      → Stays a s
      → Stays a (classify frame feed now hdr s).0
  unfolding classify span
  classify-Stays frame feed now hdr s q h = ground (
    arith,
    handle_heartbeat-Stays a s hdr.seq now,
    handle_eos-Stays a (eos_mutation s) hdr,
    reject_after_eos-Stays a s,
    violate_overflow-Stays a s,
    ingest_data-Stays frame feed now hdr.seq (hdr.seq + (hdr.count - 1)) hdr.count s,
  )

pub be64_at-lt-u64 : (frame : Bytes) (i : ℕ) → IsBytes frame → be64_at frame i < u64
be64_at-lt-u64 frame i h =
    let b : (k : ℕ) → byte_at frame k < 256 = λ k. All-get_or IsByte frame k 0 (omega arith) h in
    omega (arith, b i, b (i + 1), b (i + 2), b (i + 3), b (i + 4), b (i + 5), b (i + 6), b (i + 7))

-- A sequencer stays as it is.
pub Stays-refl : (s : Sequencer) → IsBounded s → Stays s s
Stays-refl s b = record { bounded = b; session = refl; lo = refl; hi = refl; live = refl }

pub ingest-IsBounded :
    (s : Sequencer) (frame : Bytes) (feed now : ℕ)
    → IsBytes frame
    → IsBounded s
    → IsBounded (ingest s frame feed now).0
unfolding ingest
ingest-IsBounded s frame feed now bytes h =
    let P : Log Sequencer → Type 0 = λ m. IsBounded m.0 in
    let s0 = count_arrival frame feed s in
    let h0 : Stays s s0 = count_arrival-Stays s frame feed s (Stays-refl s h) in
    let m = dispatch_session s0 (slice frame 0 10) in
    let b = dispatch_session-IsBounded s0 (slice frame 0 10) h0.bounded in
    if-cases P (ltb (length frame) header_len) (λ a. (violate_short-Stays s s0 h0).bounded)
      (λ a. rw (parse_header_ok frame a) (
        if-cases P (state_eq s.state dead) (λ d. (ignore_dead-Stays s s0 h0).bounded)
          (λ d.
            (classify-Stays m.0 frame feed now (header_of frame) m.0 (be64_at-lt-u64 frame 10 bytes)
              (Stays-refl m.0 b)).bounded)))
