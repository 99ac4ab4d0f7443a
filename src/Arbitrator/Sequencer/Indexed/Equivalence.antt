-- ===== src/Arbitrator/Sequencer/Indexed/Equivalence.antt =====
-- crates/nf-arbitrator/src/lib.rs: `ingest_indexed` and `ingest_auto` against `ingest`.
use hft_proj.Prelude.{
  ℕ, ◌+◌, ◌-◌, ◌<◌, ◌≤◌, ◌≡◌, inl, inr, refl, sym, ap, ◌∙◌, Bool, true, false, List, ◌++◌, arith,
  length, All, slice, Bytes, ltb, ◌==◌, if◌then◌else◌, u64, Option, some, Bool-cases, if-cases,
  subst, le64_at, be64_at, be16_at, length-append, Result, ok, err,
}
use hft_proj.Protocol.Packet.{FrameMemo}
use hft_proj.Protocol.Moldudp64.{
  Header, header_len, FrameError, heartbeat_count, eos_count, span, parse_header,
}
use hft_proj.Protocol.Moldudp64.Wire.{
  encode_blocks, encode_header, encode_frame, Fits, length-encode_header,
}
use hft_proj.Protocol.Moldudp64.Frames.{parse_header-encode}
use hft_proj.Arbitrator.Types.{Call, Log, ◌>>=◌, done, state_eq, ended, dead}
use hft_proj.Arbitrator.State.{Sequencer, dispatch_session}
use hft_proj.Arbitrator.State.Lifecycle.{dispatch_session-Quiet}
use hft_proj.Arbitrator.State.Template.{
  HasTemplate, IsSession, dispatch_session_live, le64_at-slice,
}
use hft_proj.Arbitrator.Sequencer.{classify, ingest, count_arrival, ignore_dead}
use hft_proj.Arbitrator.Sequencer.Gapless.{header_of, parse_header_ok}
use hft_proj.Arbitrator.Sequencer.Indexed.{
  classify_indexed, ingest_indexed, ingest_auto, sess_match, memo_is,
}
use hft_proj.Arbitrator.Sequencer.Indexed.Blocks.{triples, length-triples}
use hft_proj.Arbitrator.Sequencer.Indexed.Spans.{spread, spread-append, AllValid}
use hft_proj.Arbitrator.Sequencer.Indexed.Paths.{Same, ingest_data-Same}

module _ (session : Bytes) (seq : ℕ) (ms : List Bytes) (real : IsSession session)
    (fits : All Fits ms) (bound : seq + length ms < u64) (pos : 0 < length ms)
    (few : length ms < 65535) where
  abbrev pub frame : Bytes
  frame = encode_frame session seq ms

  abbrev hdr : Header
  hdr = record { session = session; seq = seq; count = length ms }

  header_read : parse_header frame ≡ ok hdr
  unfolding encode_frame
  header_read =
      parse_header-encode session seq (length ms) (encode_blocks ms) real.0 (omega arith)
        (omega arith)

  -- The fields that `ingest_indexed` reads from the frame itself.
  pub fields_read :
      (ltb (length frame) header_len ≡ false)
      × (slice frame 0 10 ≡ session)
      × (be64_at frame 10 ≡ seq)
      × (be16_at frame 18 ≡ length ms)
  unfolding parse_header
  fields_read =
      let e : ltb (length frame) header_len ≡ false = ground (arith, long) in
      let h : header_of frame ≡ hdr = ap of_ok (sym (parse_header_ok frame e) ∙ header_read) in
      (
        e,
        ap (λ (x : Header). x.session) h,
        ap (λ (x : Header). x.seq) h,
        ap (λ (x : Header). x.count) h,
      )
    where
      long : 20 ≤ length frame
      long =
          unfold encode_frame in
          omega (
            arith,
            length-append (encode_header session seq (length ms)) (encode_blocks ms),
            length-encode_header session seq (length ms) real.0,
          )

      of_ok : Result FrameError Header → Header
      of_ok (ok h) = h
      of_ok (err e) = hdr

  module _ (wants : Bool) (memo : Option FrameMemo)
      (valid : memo_is memo (length ms) ≡ true → AllValid ms) where
    classify-Same :
        (feed now_ns : ℕ) (s : Sequencer)
        → s.w < u64
        → Same
            (classify frame feed now_ns hdr s)
            (classify_indexed frame feed now_ns wants (triples 20 seq ms) memo s)
    unfolding classify classify_indexed
    classify-Same feed now_ns s room =
        let (short, sess, sq, cnt) = fields_read in
        let nz : (length ms == heartbeat_count) ≡ false = ground arith in
        let ne : (length ms == eos_count) ≡ false = ground arith in
        let sp : span hdr ≡ some (seq, seq + (length ms - 1)) = unfold span in ground arith in
        rw (cnt, sq, sess, length-triples 20 seq ms, nz, ne, sp)
          (elim (Bool-cases (state_eq s.state ended)) [
            | inl e ↦ simp e (refl, refl)
            | inr e ↦ simp e (
                ingest_data-Same session seq ms real.0 fits bound pos few wants memo valid feed
                  now_ns s room)
          ])

    bind-Same :
        (feed now_ns : ℕ) (m x : Log Sequencer)
        → m ≡ x
        → m.0.w < u64
        → Same
            (m >>= classify frame feed now_ns hdr)
            (x >>= classify_indexed frame feed now_ns wants (triples 20 seq ms) memo)
    bind-Same feed now_ns m x e room =
        let c = classify-Same feed now_ns m.0 room in
        let a : List Call = (classify frame feed now_ns hdr m.0).1 in
        let b : List Call =
          (classify_indexed frame feed now_ns wants (triples 20 seq ms) memo m.0).1 in
        subst
          (λ (x : Log Sequencer).
            Same (m >>= classify frame feed now_ns hdr)
              (x >>= classify_indexed frame feed now_ns wants (triples 20 seq ms) memo))
          e
          (
            c.0,
            spread-append m.1 a
                ∙ ap (λ (t : List Call). spread m.1 ++ t) c.1
                ∙ sym (spread-append m.1 b),
          )

    -- The session step, or the fused compare in its place.
    dispatched-Same :
        (feed now_ns : ℕ) (s : Sequencer)
        → HasTemplate s
        → s.w < u64
        → Same (dispatch_session s session >>= classify frame feed now_ns hdr) (
            (if sess_match s frame then done s else dispatch_session s (slice frame 0 10))
            >>= classify_indexed frame feed now_ns wants (triples 20 seq ms) memo)
    unfolding sess_match
    dispatched-Same feed now_ns s tmpl room =
        let (short, sess, sq, cnt) = fields_read in
        let word : (i : ℕ) → i + 7 < 10 → le64_at session i ≡ le64_at frame i =
          λ i h. ap (λ (b : Bytes). le64_at b i) (sym sess) ∙ le64_at-slice frame i h in
        let m : Log Sequencer = dispatch_session s session in
        let w : m.0.w < u64 = omega (arith, (dispatch_session-Quiet s session 0).1) in
        if-cases
          (λ (x : Log Sequencer).
            Same (m >>= classify frame feed now_ns hdr)
              (x >>= classify_indexed frame feed now_ns wants (triples 20 seq ms) memo))
          (sess_match s frame)
          (λ c.
            bind-Same feed now_ns m (done s)
              (dispatch_session_live s session tmpl real (ground (arith, c))
                (word 0 (omega arith) ∙ ground (arith, c))
                (word 2 (omega arith) ∙ ground (arith, c)))
              w)
          (λ c.
            bind-Same feed now_ns m (dispatch_session s (slice frame 0 10))
              (ap (dispatch_session s) (sym sess)) w)

-- `ingest_auto` with the index of a well-formed frame does what `ingest` does with its bytes: the two end
-- in the same state, and their calls stand for the same messages and events, a span call for the
-- messages of its blocks, of which it carries the first number and the count. The frame has from 1 to 65534 messages of at most 65535 bytes, whose
-- numbers stay below the end of the 64-bit range; the memo, if it claims that all are valid, is
-- right; and the session's compare template is right or not live.
pub ingest_auto-eq-ingest :
    (wants : Bool) (s : Sequencer) (session : Bytes) (seq : ℕ) (ms : List Bytes)
    (memo : Option FrameMemo) (feed now_ns : ℕ)
    → HasTemplate s
    → s.w < u64
    → IsSession session
    → All Fits ms
    → seq + length ms < u64
    → (0 < length ms) × (length ms < 65535)
    → (memo_is memo (length ms) ≡ true → AllValid ms)
    → let frame : Bytes = encode_frame session seq ms in
      let (s', calls) = ingest s frame feed now_ns in
      let (t', calls') = ingest_auto wants s frame feed now_ns (triples 20 seq ms) memo in
      (s' ≡ t') × (spread calls ≡ spread calls')
unfolding ingest_auto ingest ingest_indexed ignore_dead count_arrival sess_match
ingest_auto-eq-ingest wants s session seq ms memo feed now_ns tmpl room real fits bound (pos, few)
      valid =
    let f : Bytes = encode_frame session seq ms in
    let (short, sess, sq, cnt) = fields_read session seq ms real fits bound pos few in
    let nonempty : (length ms == 0) ≡ false = ground arith in
    rw
      (
        length-triples 20 seq ms,
        nonempty,
        short,
        header_read session seq ms real fits bound pos few,
      )
      (elim (Bool-cases (state_eq s.state dead)) [
        | inl d ↦ simp d (refl, refl)
        | inr d ↦ simp d (
            dispatched-Same session seq ms real fits bound pos few wants memo valid feed now_ns
              (count_arrival f feed s) tmpl room)
      ])
