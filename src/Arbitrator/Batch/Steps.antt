-- ===== src/Arbitrator/Batch/Steps.antt =====
-- crates/nf-arbitrator/src/lib.rs: `ingest_auto` of one frame where the sequencer is steady.
use hft_proj.Arbitrator.Steady.{span_rec, hand_blocks}
use hft_proj.Prelude.{
  ℕ, suc, ◌+◌, ◌-◌, ◌<◌, ◌≡◌, refl, sym, ap, ◌∙◌, inl, inr, ==_refl, Bool, true, false, List, [],
  ◌∷◌, ◌++◌, arith, length, Bytes, ltb, leb, ◌==◌, add64, sub64, u64, Option, none, some, ok,
  Bool-cases, min, append-nil, append_assoc, if◌then◌else◌,
}
use hft_proj.Protocol.Packet.{FrameEntry, Triple}
use hft_proj.Protocol.Moldudp64.{header_len}
use hft_proj.Arbitrator.Types.{
  State, init, contig, ended, dead, state_eq, LiveFeedProof, Call, on_span, done,
}
use hft_proj.Arbitrator.State.{Sequencer}
use hft_proj.Arbitrator.Sequencer.{
  count_arrival, skip_duplicate, add_emitted, finish_contig, advance, retire_pending, skip_prefix,
}
use hft_proj.Arbitrator.Sequencer.Indexed.{
  ingest_auto, ingest_indexed, sess_match, classify_indexed, ingest_data_indexed, memo_is,
  apply_contig_indexed, emit_indexed, emit_blocks, last_of,
}
use hft_proj.Arbitrator.Batch.{steady_ready, is_none}
use hft_proj.Arbitrator.Batch.Contract.{IsIndexed}

-- What `steady_ready` says.
pub record IsSteady (s : Sequencer) : Type 0 where
  pub live : s.session_live ≡ true
  pub state : s.state ≡ contig
  pub empty : (s.win.staged_count == 0) ≡ true
  pub closed : s.gap_active ≡ false
  pub settled : s.pending_to ≡ none

contig_of_tag : (x : State) → state_eq x contig ≡ true → x ≡ contig
contig_of_tag contig h = refl
contig_of_tag init h = ground arith
contig_of_tag State.gap h = ground arith
contig_of_tag State.eos_persist h = ground arith
contig_of_tag ended h = ground arith
contig_of_tag dead h = ground arith

none_of_is : (o : Option ℕ) → is_none o ≡ true → o ≡ none
none_of_is o h = ground arith

pub steady_ready-IsSteady : (s : Sequencer) → steady_ready s ≡ true → IsSteady s
unfolding steady_ready
steady_ready-IsSteady s h = record {
  live = ground arith;
  state = contig_of_tag s.state (ground arith);
  empty = ground arith;
  closed = ground arith;
  settled = none_of_is s.pending_to (ground arith);
}

-- Valid blocks are handed over, and counted.
pub emit_blocks-eq-hand :
    (frame : Bytes) (proof : LiveFeedProof) (ts : List Triple) (n : ℕ) (calls : List Call)
    → n + length ts < u64
    → emit_blocks frame true proof ts (n, calls)
      ≡ (ok tt, (n + length ts, calls ++ hand_blocks proof frame ts))
unfolding emit_blocks hand_blocks
emit_blocks-eq-hand frame proof [] n calls h =
    let e : n + 0 ≡ n = omega arith in rw (e, append-nil calls)
emit_blocks-eq-hand frame proof ((seq, a, b) ∷ ts) n calls h =
    let e : add64 n 1 ≡ n + 1 = omega arith in
    let e' : n + 1 + length ts ≡ n + suc (length ts) = omega arith in
    rw e (emit_blocks-eq-hand frame proof ts (n + 1) _ (omega arith) ∙ rw (e', append_assoc) refl)

-- Where nothing is staged and no gap is open, the advance is the watermark's and the clock's alone.
advance_quiet :
    (last now : ℕ) (t : Sequencer)
    → (t.win.staged_count == 0) ≡ true
    → t.gap_active ≡ false
    → advance last now t ≡ done (record t { w = add64 last 1; progress_vt = now })
unfolding advance
advance_quiet last now t empty closed = simp (empty, closed) refl

retire_settled : (t : Sequencer) → t.pending_to ≡ none → retire_pending t ≡ t
unfolding retire_pending
retire_settled t h = ap retired h
  where
    retired : Option ℕ → Sequencer
    retired none = t
    retired (some p) = if leb p t.w then record t { pending_to = none } else t

finish_contig_quiet :
    (last now : ℕ) (calls : List Call) (t : Sequencer)
    → (t.win.staged_count == 0) ≡ true
    → t.gap_active ≡ false
    → t.pending_to ≡ none
    → finish_contig last now (ok tt) calls t
      ≡ (record t { w = add64 last 1; progress_vt = now }, calls)
unfolding finish_contig
finish_contig_quiet last now calls t empty closed settled =
    let t' : Sequencer = record t { w = add64 last 1; progress_vt = now } in
    simp (advance_quiet last now t empty closed, retire_settled t' settled, append-nil) refl

module _ (wants : Bool) (now : ℕ) (s : Sequencer) (e : FrameEntry) (steady : IsSteady s)
    (x : IsIndexed e) where
  abbrev pub s0 : Sequencer
  s0 = count_arrival e.bytes e.feed s

  matched : e.sess_lo ≡ s.session_lo → e.sess_hi ≡ s.session_hi → sess_match s e.bytes ≡ true
  unfolding sess_match
  matched lo hi =
      rw (steady.live, sym x.lo, sym x.hi, lo, hi, ==_refl s.session_lo, ==_refl s.session_hi) refl

  -- The frame's session is the live one: no dispatch, and the blocks are classified.
  ingest_auto_data :
      e.sess_lo ≡ s.session_lo
      → e.sess_hi ≡ s.session_hi
      → ingest_auto wants s e.bytes e.feed now e.blocks e.memo
        ≡ ingest_data_indexed e.bytes e.feed now (length e.blocks) wants e.memo e.blocks s0
  unfolding ingest_auto ingest_indexed classify_indexed
  ingest_auto_data lo hi =
      let n0 : (length e.blocks == 0) ≡ false = ground (arith, x.nonempty) in
      let ne : (length e.blocks == 65535) ≡ false = ground (arith, x.few) in
      let l : ltb (length e.bytes) header_len ≡ false = ground (arith, x.long) in
      let m = matched lo hi in
      let d : state_eq s.state dead ≡ false = rw steady.state refl in
      let d' : state_eq s.state ended ≡ false = rw steady.state refl in
      simp (n0, ne, l, x.count, d, m) (unfold count_arrival in simp d' refl)

  -- A pure duplicate is counted.
  pub ingest_auto_dup :
      e.sess_lo ≡ s.session_lo
      → e.sess_hi ≡ s.session_hi
      → ltb (e.first_seq + (length e.blocks - 1)) s.w ≡ true
      → ingest_auto wants s e.bytes e.feed now e.blocks e.memo
        ≡ done (skip_duplicate e.feed (length e.blocks) s0)
  unfolding ingest_data_indexed
  ingest_auto_dup lo hi dup =
      let i : state_eq s.state init ≡ false = rw steady.state refl in
      let l : (last_of e.blocks).0 ≡ e.first_seq + (length e.blocks - 1) =
        ap (λ (p : ℕ × ℕ). p.0) x.last in
      ingest_auto_data lo hi ∙ (unfold count_arrival in simp (i, l, dup) refl)

  -- The contiguous apply leaves the sequencer steady, past the frame.
  abbrev pub s1 : Sequencer
  s1 = record (add_emitted (length e.blocks) s0) {
    w = add64 (e.first_seq + (length e.blocks - 1)) 1;
    progress_vt = now;
  }

  abbrev pub emission : List Call
  emission =
      if wants
      then on_span (record { gen = s.gen }) (span_rec e.first_seq (length e.blocks) e) ∷ []
      else hand_blocks (record { gen = s.gen }) e.bytes e.blocks

  emit_indexed-eq-emission :
      (emit_indexed e.bytes wants true (record { gen = s.gen }) e.first_seq 0 e.blocks)
      ≡ (ok tt, (length e.blocks, emission))
  unfolding emit_indexed
  emit_indexed-eq-emission =
      let pos : ltb 0 (length e.blocks) ≡ true = ground (arith, x.nonempty) in
      let f : add64 e.first_seq 0 ≡ e.first_seq = omega (arith, x.bound) in
      let l : (last_of e.blocks).1 ≡ length e.bytes = ap (λ (p : ℕ × ℕ). p.1) x.last in
      let z : length e.blocks - 0 ≡ length e.blocks = omega arith in
      elim (Bool-cases wants) [
        | inl t ↦ rw (t, pos, f, l, z, x.start) refl
        | inr t ↦ rw t (
            emit_blocks-eq-hand e.bytes _ e.blocks 0 [] (omega (arith, x.bound))
            ∙ ap (λ (k : ℕ). (ok tt, (k, hand_blocks (record { gen = s.gen }) e.bytes e.blocks)))
                (let q : 0 + length e.blocks ≡ length e.blocks = omega arith in q))
      ]

  -- The frame's messages go out, and the watermark passes them.
  apply_contig_steady :
      e.first_seq ≡ s.w
      → memo_is e.memo (length e.blocks) ≡ true
      → apply_contig_indexed e.bytes wants e.memo e.first_seq
          (e.first_seq + (length e.blocks - 1))
          now
          e.blocks
          s0
        ≡ (s1, emission)
  unfolding apply_contig_indexed count_arrival
  apply_contig_steady here memo =
      let k : min (sub64 s.w e.first_seq) (length e.blocks) ≡ 0 = omega (arith, here, x.bound) in
      let q : skip_prefix 0 s0 ≡ s0 = unfold skip_prefix in refl in
      rw (k, memo, emit_indexed-eq-emission, q)
        (finish_contig_quiet (e.first_seq + (length e.blocks - 1)) now emission
          (add_emitted (length e.blocks) s0) steady.empty steady.closed steady.settled)

  pub ingest_auto_contig :
      e.sess_lo ≡ s.session_lo
      → e.sess_hi ≡ s.session_hi
      → e.first_seq ≡ s.w
      → memo_is e.memo (length e.blocks) ≡ true
      → ingest_auto wants s e.bytes e.feed now e.blocks e.memo ≡ (s1, emission)
  unfolding ingest_data_indexed
  ingest_auto_contig lo hi here memo =
      let i : state_eq s.state init ≡ false = rw steady.state refl in
      let l : (last_of e.blocks).0 ≡ e.first_seq + (length e.blocks - 1) =
        ap (λ (p : ℕ × ℕ). p.0) x.last in
      let d : ltb (e.first_seq + (length e.blocks - 1)) s.w ≡ false = ground (arith, here) in
      let c : leb e.first_seq s.w ≡ true = ground (arith, here) in
      ingest_auto_data lo hi
      ∙ (unfold count_arrival in simp (i, x.first, l, d, c) (apply_contig_steady here memo))
