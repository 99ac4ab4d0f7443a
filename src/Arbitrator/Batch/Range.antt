-- ===== src/Arbitrator/Batch/Range.antt =====
-- crates/nf-arbitrator/src/lib.rs: the watermark and the counters stay 64-bit words.
use hft_proj.Prelude.{
  ltb, if-cases, ℕ, zero, suc, ◌<◌, arith, Bytes, add64, u64, List, Result, ok, err,
}
use hft_proj.Protocol.Moldudp64.{Header, FrameError}
use hft_proj.Protocol.Packet.{PacketError}
use hft_proj.Arbitrator.Window.{Window, drain, drain_loop, take_slot, slot_of}
use hft_proj.Arbitrator.Types.{ended, init, dead, state_eq, Log, LiveFeedProof, Call}
use hft_proj.Arbitrator.Counters.{on_feed}
use hft_proj.Arbitrator.State.{
  note_heartbeat, Sequencer, gap_evidence, check_gap_close, session_dispatch, dispatch_session,
  handle_heartbeat, handle_eos,
}
use hft_proj.Arbitrator.Sequencer.{
  violate_frame, settle, clear_on_advance, advance, finish_contig, drain_window, violate_overflow,
  violate_short, apply_contig, add_emitted, count_arrival, skip_duplicate, skip_prefix, violate,
  ignore_dead, retire_pending, reject_after_eos,
}
use hft_proj.Arbitrator.Batch.Contract.{IsBounded, Stays}

pub session_dispatch-IsBounded :
    (s : Sequencer) (b : Bytes) → IsBounded s → IsBounded (session_dispatch s b).0
unfolding session_dispatch
session_dispatch-IsBounded s b h = ground arith

pub dispatch_session-IsBounded :
    (s : Sequencer) (b : Bytes) → IsBounded s → IsBounded (dispatch_session s b).0
unfolding dispatch_session
dispatch_session-IsBounded s b h = ground (arith, session_dispatch-IsBounded s b h)

drain_loop_w :
    (fuel w : ℕ) (proof : LiveFeedProof) (win : Window)
    → w < u64
    → (drain_loop fuel proof win w).w < u64
unfolding drain_loop
drain_loop_w zero w proof win h = h
drain_loop_w (suc fuel) w proof win h =
    ground (arith, drain_loop_w fuel (add64 w 1) proof (take_slot win (slot_of w)))

drain_w : (win : Window) (w gen : ℕ) → w < u64 → (drain win w gen).w < u64
unfolding drain
drain_w win w gen h = ground (arith, drain_loop_w win.staged_count w (record { gen = gen }) win h)

module _ (a : Sequencer) where
  pub count_arrival-Stays :
      (frame : Bytes) (feed : ℕ) (s : Sequencer) → Stays a s → Stays a (count_arrival frame feed s)
  unfolding count_arrival on_feed
  count_arrival-Stays frame feed s h = ground arith

  pub skip_duplicate-Stays :
      (feed n : ℕ) (s : Sequencer) → Stays a s → Stays a (skip_duplicate feed n s)
  unfolding skip_duplicate on_feed
  skip_duplicate-Stays feed n s h = ground arith

  pub skip_prefix-Stays : (n : ℕ) (s : Sequencer) → Stays a s → Stays a (skip_prefix n s)
  unfolding skip_prefix
  skip_prefix-Stays n s h = ground arith

  pub add_emitted-Stays : (n : ℕ) (s : Sequencer) → Stays a s → Stays a (add_emitted n s)
  add_emitted-Stays n s h = ground arith

  pub violate-Stays : (e : PacketError) (s : Sequencer) → Stays a s → Stays a (violate e s)
  unfolding violate
  violate-Stays e s h = ground arith

  pub gap_evidence-Stays : (s : Sequencer) (x : ℕ) → Stays a s → Stays a (gap_evidence s x).0
  unfolding gap_evidence
  gap_evidence-Stays s x h = ground arith

  pub check_gap_close-Stays : (s : Sequencer) → Stays a s → Stays a (check_gap_close s).0
  unfolding check_gap_close
  check_gap_close-Stays s h = ground arith

  abbrev count_heartbeat : Sequencer → Sequencer
  count_heartbeat s = record s {
    counters = record (s.counters) { heartbeats = add64 s.counters.heartbeats 1 };
  }

  count_heartbeat-Stays : (s : Sequencer) → Stays a s → Stays a (count_heartbeat s)
  count_heartbeat-Stays s h = ground arith

  note_heartbeat-Stays :
      (s : Sequencer) (seq now : ℕ) → Stays a s → Stays a (note_heartbeat s seq now)
  note_heartbeat-Stays s seq now h = ground arith

  pub handle_heartbeat-Stays :
      (s : Sequencer) (seq now : ℕ) → Stays a s → Stays a (handle_heartbeat s seq now).0
  unfolding handle_heartbeat
  handle_heartbeat-Stays s seq now h =
      let P : Log Sequencer → Type 0 = λ m. Stays a m.0 in
      let c = count_heartbeat-Stays s h in
      let n = note_heartbeat-Stays (count_heartbeat s) seq now c in
      if-cases P (state_eq s.state dead) (λ _. c)
        (λ _.
          if-cases P (state_eq s.state init) (λ _. n)
            (λ _.
              if-cases P (state_eq s.state ended) (λ _. c)
                (λ _.
                  if-cases P (ltb s.w seq)
                    (λ _. gap_evidence-Stays (note_heartbeat (count_heartbeat s) seq now) seq n)
                    (λ _. c))))

  pub handle_eos-Stays : (s : Sequencer) (hdr : Header) → Stays a s → Stays a (handle_eos s hdr).0
  unfolding handle_eos
  handle_eos-Stays s hdr h = ground arith

  pub ignore_dead-Stays : (s : Sequencer) → Stays a s → Stays a (ignore_dead s)
  unfolding ignore_dead
  ignore_dead-Stays s h = ground arith

  pub violate_short-Stays : (s : Sequencer) → Stays a s → Stays a (violate_short s)
  unfolding violate_short
  violate_short-Stays s h = ground arith

  pub violate_frame-Stays :
      (e : FrameError) (s : Sequencer) → Stays a s → Stays a (violate_frame e s)
  unfolding violate_frame
  violate_frame-Stays e s h = ground arith

  pub violate_overflow-Stays : (s : Sequencer) → Stays a s → Stays a (violate_overflow s)
  unfolding violate_overflow
  violate_overflow-Stays s h = ground arith

  pub reject_after_eos-Stays : (s : Sequencer) → Stays a s → Stays a (reject_after_eos s)
  unfolding reject_after_eos
  reject_after_eos-Stays s h = ground arith

  pub retire_pending-Stays : (s : Sequencer) → Stays a s → Stays a (retire_pending s)
  unfolding retire_pending
  retire_pending-Stays s h = ground arith

  pub clear_on_advance-Stays :
      (old : ℕ) (s : Sequencer) → Stays a s → Stays a (clear_on_advance old s)
  unfolding clear_on_advance
  clear_on_advance-Stays old s h = ground arith

  pub drain_window-Stays : (now : ℕ) (s : Sequencer) → Stays a s → Stays a (drain_window now s).0
  unfolding drain_window
  drain_window-Stays now s h = ground (arith, drain_w s.win s.w s.gen h.bounded.w)

  pub settle-Stays : (now : ℕ) (s : Sequencer) → Stays a s → Stays a (settle now s).0
  unfolding settle
  settle-Stays now s h = ground (
    arith,
    drain_window-Stays now s h,
    check_gap_close-Stays s h,
    check_gap_close-Stays (drain_window now s).0 (drain_window-Stays now s h),
  )

  pub advance-Stays : (last now : ℕ) (s : Sequencer) → Stays a s → Stays a (advance last now s).0
  unfolding advance
  advance-Stays last now s h =
      let t : Sequencer = record (clear_on_advance s.w (record s { w = add64 last 1 })) {
        progress_vt = now;
      } in
      let i : Stays a t =
        ground (arith, clear_on_advance-Stays s.w (record s { w = add64 last 1 })) in
      settle-Stays now t i

  pub finish_contig-Stays :
      (last now : ℕ) (r : Result PacketError (Unit {0})) (calls : List Call) (s : Sequencer)
      → Stays a s
      → Stays a (finish_contig last now r calls s).0
  unfolding finish_contig
  finish_contig-Stays last now (err e) calls s h = violate-Stays e s h
  finish_contig-Stays last now (ok u) calls s h =
      retire_pending-Stays _ (advance-Stays last now s h)

  pub apply_contig-Stays :
      (frame : Bytes) (first last blocks now : ℕ) (s : Sequencer)
      → Stays a s
      → Stays a (apply_contig frame first last blocks now s).0
  unfolding apply_contig
  apply_contig-Stays frame first last blocks now s h =
      finish_contig-Stays last now _ _ _ (add_emitted-Stays _ _ (skip_prefix-Stays _ s h))
