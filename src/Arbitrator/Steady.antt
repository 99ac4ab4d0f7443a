-- ===== src/Arbitrator/Steady.antt =====
-- crates/nf-arbitrator/src/lib.rs: the scan of a run of steady frames, which keeps the watermark and the
-- counters in locals and buffers the span calls.
use hft_proj.Prelude.{
  ℕ, ◌+◌, ◌%◌, Bool, true, ◌||◌, not, Option, none, some, List, [], ◌∷◌, ◌++◌, if◌then◌else◌, ltb,
  ◌==◌, Bytes, add64, sub64, length, slice,
}
use hft_proj.Protocol.Moldudp64.{header_len}
use hft_proj.Protocol.Packet.{Triple, FrameEntry}
use hft_proj.Arbitrator.Types.{
  LiveFeedProof, SpanRec, Call, on_msg, on_span_batch, Log, ◌>>=◌, done,
}
use hft_proj.Arbitrator.Sequencer.Indexed.{memo_is}

-- `trait SpanEmit`: the buffer of the scan's span calls, with the state `E`.
pub record SpanEmit (E : Type 0) : Type 0 where
  pub push : E → SpanRec → E
  pub is_full : E → Bool
  pub flush : E → LiveFeedProof → Log E

abbrev pub steady_recs : ℕ
steady_recs = 32

-- `RecEmitter`: the records buffered so far, `recs[..n]`.
abbrev pub RecEmitter : Type 0
RecEmitter = List SpanRec

unfoldable pub rec_push : RecEmitter → SpanRec → RecEmitter
rec_push recs r = recs ++ (r ∷ [])

unfoldable pub rec_is_full : RecEmitter → Bool
rec_is_full recs = length recs == steady_recs

unfoldable pub rec_flush : RecEmitter → LiveFeedProof → Log RecEmitter
rec_flush [] proof = done []
rec_flush (r ∷ rs) proof = ([], on_span_batch proof (r ∷ rs) ∷ [])

abbrev pub rec_emitter : SpanEmit RecEmitter
rec_emitter = record { push = rec_push; is_full = rec_is_full; flush = rec_flush }

-- The deferred counters of a scan: those of the two feeds, and the totals.
pub record Tally : Type 0 where
  pub pk_a : ℕ
  pub pk_b : ℕ
  pub byt_a : ℕ
  pub byt_b : ℕ
  pub dup_a : ℕ
  pub dup_b : ℕ
  pub dup_msgs : ℕ
  pub emitted : ℕ

abbrev pub zero_tally : Tally
zero_tally = record {
  pk_a = 0;
  pk_b = 0;
  byt_a = 0;
  byt_b = 0;
  dup_a = 0;
  dup_b = 0;
  dup_msgs = 0;
  emitted = 0;
}

-- `pk[fi] += k; byt[fi] += bytes`, where `fi` is the feed's lowest bit.
unfoldable pub tally_arrivals : (feed k bytes : ℕ) → Tally → Tally
tally_arrivals feed k bytes t =
    if feed % 2 == 0
    then record t { pk_a = add64 t.pk_a k; byt_a = add64 t.byt_a bytes }
    else record t { pk_b = add64 t.pk_b k; byt_b = add64 t.byt_b bytes }

-- `dup[fi] += k; dup_msgs += msgs`
unfoldable pub tally_dups : (feed k msgs : ℕ) → Tally → Tally
tally_dups feed k msgs t =
    if feed % 2 == 0
    then record t { dup_a = add64 t.dup_a k; dup_msgs = add64 t.dup_msgs msgs }
    else record t { dup_b = add64 t.dup_b k; dup_msgs = add64 t.dup_msgs msgs }

abbrev pub tally_emitted : ℕ → Tally → Tally
tally_emitted n t = record t { emitted = add64 t.emitted n }

-- The locals of a scan.
pub record Scan (E : Type 0) : Type 0 where
  pub w : ℕ
  pub tally : Tally
  pub em : E
  pub progressed : Bool

pub data StepOutcome (E : Type 0) : Type 0 where
  advanced : Log (Scan E) → StepOutcome E
  dup_skipped : Scan E → StepOutcome E
  cold : StepOutcome E

-- `for &(seq, start, end) in blocks { sink.on_msg(…) }`
unfoldable pub hand_blocks : LiveFeedProof → Bytes → List Triple → List Call
hand_blocks proof frame [] = []
hand_blocks proof frame ((seq, start, end) ∷ rest) =
    on_msg proof seq (slice frame start end) ∷ hand_blocks proof frame rest

-- What a scan reads of the sequencer, and what the sink wants.
pub record ScanEnv : Type 0 where
  pub proof : LiveFeedProof
  pub wants_spans : Bool
  pub sess_lo : ℕ
  pub sess_hi : ℕ

-- The body of a frame's span: all behind the first length field.
abbrev pub body_of : Bytes → Bytes
body_of frame = slice frame (header_len + 2) (length frame)

abbrev pub span_rec : (first n : ℕ) → FrameEntry → SpanRec
span_rec first n e = record {
  first_seq = first;
  count = n % 65536;
  body = body_of e.bytes;
  blocks = e.blocks;
}

-- A pure duplicate is counted, and nothing else.
abbrev pub skip_steady : {E : Type 0} → (n : ℕ) → FrameEntry → Scan E → Scan E
skip_steady n e x = record x {
  tally = tally_dups e.feed 1 n (tally_arrivals e.feed 1 (length e.bytes) x.tally);
}

module _ {E : Type 0} (emit : SpanEmit E) where
  -- `em.push(…); if em.is_full() { em.flush(…) }`
  unfoldable pub push_span : LiveFeedProof → SpanRec → E → Log E
  push_span proof r em =
      if emit.is_full (emit.push em r)
      then emit.flush (emit.push em r) proof
      else done (emit.push em r)

  -- A contiguous frame's messages: a span in the buffer, or message calls.
  unfoldable pub emit_entry : ScanEnv → (first n : ℕ) → FrameEntry → E → Log E
  unfolding push_span
  emit_entry env first n e em =
      if env.wants_spans
      then push_span env.proof (span_rec first n e) em
      else (em, hand_blocks env.proof e.bytes e.blocks)

  -- The contiguous apply of one frame.
  unfoldable pub apply_steady : ScanEnv → (n last : ℕ) → FrameEntry → Scan E → Log (Scan E)
  apply_steady env n last e x = do
    em' ← emit_entry env e.first_seq n e x.em
    done (record x {
      w = add64 last 1;
      tally = tally_emitted n (tally_arrivals e.feed 1 (length e.bytes) x.tally);
      em = em';
    })

  unfoldable pub steady_step : ScanEnv → FrameEntry → Scan E → StepOutcome E
  steady_step env e x =
      let n = length e.blocks in
      let last = sub64 (add64 e.first_seq n) 1 in
      if n == 0
      then cold
      else if not (e.sess_lo == env.sess_lo) || not (e.sess_hi == env.sess_hi)
      then cold
      else if ltb last x.w
      then dup_skipped (skip_steady n e x)
      else if not (e.first_seq == x.w)
      then cold
      else if not (memo_is e.memo n)
      then cold
      else advanced (apply_steady env n last e x)

-- Where a scan stopped: at the end, or at a frame that it did not apply, with the frames behind it.
abbrev pub Stop : Type 0
Stop = Option (FrameEntry × List FrameEntry)

abbrev pub progress : {E : Type 0} → Scan E → Scan E
progress x = record x { progressed = true }

-- A cold frame stops the scan; after any other it goes on.
abbrev pub after_step :
    {E : Type 0}
    → FrameEntry
    → List FrameEntry
    → (Scan E → Log (Scan E × Stop))
    → StepOutcome E
    → Scan E
    → Log (Scan E × Stop)
after_step e es rest cold x = done (x, some (e, es))
after_step e es rest (dup_skipped x') x = rest x'
after_step e es rest (advanced m) x = m >>= (λ x'. rest (progress x'))

module _ {E : Type 0} (emit : SpanEmit E) (env : ScanEnv) where
  -- The loop of `steady_scan` and of `steady_scan_ref`.
  unfoldable pub scan_loop : List FrameEntry → Scan E → Log (Scan E × Stop)
  scan_loop [] x = done (x, none)
  scan_loop (e ∷ es) x = after_step e es (scan_loop es) (steady_step emit env e x) x
