-- ===== src/Arbitrator/Batch/Emitters.antt =====
-- crates/nf-arbitrator/src/lib.rs: the buffers of span calls, `SpanEmit` and `RecEmitter`.
use hft_proj.Arbitrator.Steady.{push_span, rec_flush, rec_push, rec_emitter, RecEmitter, SpanEmit}
use hft_proj.Prelude.{
  true, ◌≡◌, refl, sym, ap, ap₂, ◌∙◌, List, [], ◌∷◌, ◌++◌, if-cases, append-nil, append_assoc,
}
use hft_proj.Arbitrator.Types.{on_span_batch, LiveFeedProof, SpanRec, Call, on_span, Log}
use hft_proj.Arbitrator.Sequencer.Indexed.Spans.{span_calls, is_headed, spread, cut_spans}

-- What a buffer of span calls must do: `pending` is what it still owes the sink, as message calls.
pub record IsEmitter {E : Type 0} (emit : SpanEmit E) (proof : LiveFeedProof) : Type 0 where
  pub pending : E → List Call
  pub push_owes :
      (em : E) (r : SpanRec)
      → is_headed r ≡ true
      → pending (emit.push em r) ≡ pending em ++ spread (on_span proof r ∷ [])
  pub flush_pays : (em : E) → spread (emit.flush em proof).1 ≡ pending em
  pub flush_clears : (em : E) → pending (emit.flush em proof).0 ≡ []

cut_spans-append :
    (proof : LiveFeedProof) (rs : List SpanRec) (r : SpanRec)
    → is_headed r ≡ true
    → cut_spans proof (rs ++ (r ∷ [])) ≡ cut_spans proof rs ++ spread (on_span proof r ∷ [])
unfolding cut_spans spread
cut_spans-append proof [] r h = simp h refl
cut_spans-append proof (q ∷ rs) r h =
    let c : List Call = span_calls (on_span_batch proof (q ∷ []) ∷ []) proof q in
    ap (λ t. c ++ t) (cut_spans-append proof rs r h)
    ∙ sym (append_assoc c (cut_spans proof rs) (spread (on_span proof r ∷ [])))

rec_flush_pays :
    (proof : LiveFeedProof) (em : RecEmitter) → spread (rec_flush em proof).1 ≡ cut_spans proof em
unfolding rec_flush spread
rec_flush_pays proof [] = unfold cut_spans in refl
rec_flush_pays proof (r ∷ rs) = append-nil _

rec_flush_clears :
    (proof : LiveFeedProof) (em : RecEmitter) → cut_spans proof (rec_flush em proof).0 ≡ []
unfolding rec_flush cut_spans
rec_flush_clears proof [] = refl
rec_flush_clears proof (r ∷ rs) = refl

-- The records' buffer is one.
pub rec_emitter-IsEmitter : (proof : LiveFeedProof) → IsEmitter rec_emitter proof
rec_emitter-IsEmitter proof = record {
  pending = cut_spans proof;
  push_owes = λ em r h. unfold rec_push in cut_spans-append proof em r h;
  flush_pays = rec_flush_pays proof;
  flush_clears = rec_flush_clears proof;
}

pub rec_emitter_new : (proof : LiveFeedProof) → (rec_emitter-IsEmitter proof).pending [] ≡ []
unfolding rec_emitter-IsEmitter cut_spans
rec_emitter_new proof = refl

module _ {E : Type 0} {emit : SpanEmit E} {proof : LiveFeedProof} (l : IsEmitter emit proof) where
  -- A push pays or owes the span, whether the buffer is flushed or not.
  pub push_span_owes :
      (em : E) (r : SpanRec)
      → is_headed r ≡ true
      → let (em', calls) = push_span emit proof r em in
        l.pending em ++ spread (on_span proof r ∷ []) ≡ spread calls ++ l.pending em'
  unfolding push_span spread
  push_span_owes em r h =
      if-cases
        (λ (m : Log E). l.pending em ++ spread (on_span proof r ∷ []) ≡ spread m.1 ++ l.pending m.0)
        (emit.is_full (emit.push em r))
        (λ full.
          let p : E = emit.push em r in
          sym (l.push_owes em r h)
          ∙ sym (append-nil (l.pending p))
          ∙ ap₂ ◌++◌ (sym (l.flush_pays p)) (sym (l.flush_clears p)))
        (λ room. sym (l.push_owes em r h))
