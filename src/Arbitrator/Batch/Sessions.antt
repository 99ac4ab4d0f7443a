-- ===== src/Arbitrator/Batch/Sessions.antt =====
-- crates/nf-arbitrator/src/lib.rs: `ingest` of a well-formed frame keeps the compare template right.
use hft_proj.Arbitrator.State.Boundary.{dispatch_session-HasTemplate}
use hft_proj.Protocol.Moldudp64.{header_len}
use hft_proj.Arbitrator.Sequencer.Gapless.{parse_header_ok, header_of}
use hft_proj.Arbitrator.Batch.Bounds.{be64_at-lt-u64, classify-Stays, Stays-refl}
use hft_proj.Arbitrator.Batch.Range.{
  ignore_dead-Stays, dispatch_session-IsBounded, count_arrival-Stays,
}
use hft_proj.Arbitrator.Types.{dead, state_eq, Log}
use hft_proj.Arbitrator.State.Template.{IsSession, HasTemplate}
use hft_proj.Arbitrator.Sequencer.{classify, count_arrival, ingest}
use hft_proj.Arbitrator.State.{dispatch_session, zero_session, Sequencer}
use hft_proj.Prelude.{
  arith, ltb, if-cases, bytes_eq, le64_at, ap, slice, ◌∙◌, length, sym, ◌≤◌, subst, IsBytes, Bytes,
  ℕ,
}
use hft_proj.Arbitrator.Batch.Contract.{Stays, IsBounded}

Stays-HasTemplate : (a s : Sequencer) → Stays a s → HasTemplate a → HasTemplate s
Stays-HasTemplate a s h t = (
  subst IsSession (sym h.session) t.0,
  λ live.
      let x = t.1 (sym h.live ∙ live) in
      (
        h.lo ∙ x.0 ∙ ap (λ (b : Bytes). le64_at b 0) (sym h.session),
        h.hi ∙ x.1 ∙ ap (λ (b : Bytes). le64_at b 2) (sym h.session),
        ap (λ (b : Bytes). bytes_eq b zero_session) h.session ∙ x.2,
      ),
)

pub ingest-HasTemplate :
    (s : Sequencer) (frame : Bytes) (feed now : ℕ)
    → IsBytes frame
    → 20 ≤ length frame
    → IsSession (slice frame 0 10)
    → IsBounded s
    → HasTemplate s
    → HasTemplate (ingest s frame feed now).0
unfolding ingest
ingest-HasTemplate s frame feed now bytes long real b t =
    let P : Log Sequencer → Type 0 = λ m. HasTemplate m.0 in
    let s0 = count_arrival frame feed s in
    let h0 : Stays s s0 = count_arrival-Stays s frame feed s (Stays-refl s b) in
    let t0 : HasTemplate s0 = Stays-HasTemplate s s0 h0 t in
    let m : Log Sequencer = dispatch_session s0 (slice frame 0 10) in
    let bm : IsBounded m.0 = dispatch_session-IsBounded s0 (slice frame 0 10) h0.bounded in
    let c : Log Sequencer = classify frame feed now (header_of frame) m.0 in
    if-cases P (ltb (length frame) header_len) (λ e. absurd (ground (arith, e)))
      (λ e. rw (parse_header_ok frame e) (
        if-cases P (state_eq s.state dead)
          (λ d. Stays-HasTemplate s _ (ignore_dead-Stays s s0 h0) t)
          (λ d.
            Stays-HasTemplate m.0 c.0
              (classify-Stays m.0 frame feed now (header_of frame) m.0
                (be64_at-lt-u64 frame 10 bytes) (Stays-refl m.0 bm))
              (dispatch_session-HasTemplate s0 (slice frame 0 10) t0 real).0)))
