-- ===== src/Arbitrator/Batch/Runs.antt =====
-- crates/nf-arbitrator/src/lib.rs: the scan of a run of frames, against `ingest_auto` of one frame after
-- the other.
use hft_proj.Arbitrator.Steady.{
  hand_blocks, span_rec, progress, steady_step, skip_steady, apply_steady, emit_entry, cold,
  dup_skipped, advanced, StepOutcome, ScanEnv, Scan, SpanEmit,
}
use hft_proj.Prelude.{
  ℕ, ◌+◌, ◌-◌, ◌≡◌, ◌⊎◌, refl, sym, ap, ◌∙◌, inl, inr, Bool, true, List, [], ◌∷◌, ◌++◌, arith,
  length, add64, sub64, ltb, ◌==◌, not, ◌||◌, Bool-cases, if-cases, if◌then◌else◌, append-nil,
}
use hft_proj.Protocol.Packet.{FrameEntry}
use hft_proj.Arbitrator.Types.{Call, on_span, Log, ◌>>=◌, done}
use hft_proj.Arbitrator.State.{Sequencer}
use hft_proj.Arbitrator.Sequencer.Indexed.{memo_is}
use hft_proj.Arbitrator.Sequencer.Indexed.Spans.{is_headed, spread}
use hft_proj.Arbitrator.Batch.{env_of, write_back, cold_apply}
use hft_proj.Arbitrator.Batch.Contract.{IsIndexed, IsEntry}
use hft_proj.Arbitrator.Batch.Emitters.{IsEmitter, push_span_owes}
use hft_proj.Arbitrator.Batch.Steps.{
  IsSteady, ingest_auto_dup, ingest_auto_contig, emission, emission,
}
use hft_proj.Arbitrator.Batch.Tallies.{skip-write_back, apply-write_back}

-- One frame after the other through the classic path.
unfoldable pub each_auto : (wants : Bool) (now : ℕ) → Sequencer → List FrameEntry → Log Sequencer
each_auto wants now s [] = done s
each_auto wants now s (e ∷ es) = cold_apply wants now s e >>= (λ s'. each_auto wants now s' es)

-- The record of an indexed frame keeps the sink's contract.
span_rec_headed :
    (e : FrameEntry) → IsIndexed e → is_headed (span_rec e.first_seq (length e.blocks) e) ≡ true
span_rec_headed e i = ground (arith, i.first, i.few)

module _ {E : Type 0} {emit : SpanEmit E} (wants : Bool) (now : ℕ) (s : Sequencer)
    (l : IsEmitter emit (record { gen = s.gen })) (steady : IsSteady s) where
  abbrev pub env : ScanEnv
  env = env_of wants s

  abbrev pub wb : Scan E → Sequencer
  wb x = write_back now x s

  pub wb-IsSteady : (x : Scan E) → IsSteady (wb x)
  unfolding write_back
  wb-IsSteady x = record {
    live = steady.live;
    state = steady.state;
    empty = steady.empty;
    closed = steady.closed;
    settled = steady.settled;
  }

  -- A buffer is in use only where the sink wants spans.
  abbrev pub InUse : E → Type 0
  InUse em = (wants ≡ true) ⊎ (l.pending em ≡ [])

  -- What a step of the scan is to the classic path.
  abbrev pub Agrees : Scan E → FrameEntry → StepOutcome E → Type 0
  Agrees x e cold = Unit
  Agrees x e (dup_skipped x') = (cold_apply wants now (wb x) e ≡ done (wb x')) × (x'.em ≡ x.em)
  Agrees x e (advanced (x', calls)) =
      let m : Log Sequencer = cold_apply wants now (wb x) e in
      (m.0 ≡ wb (progress x'))
      × (l.pending x.em ++ spread m.1 ≡ spread calls ++ l.pending x'.em)
      × InUse x'.em

  abbrev sent_by : FrameEntry → List Call
  sent_by e =
      if wants
      then on_span env.proof (span_rec e.first_seq (length e.blocks) e) ∷ []
      else hand_blocks env.proof e.bytes e.blocks

  -- A contiguous frame's calls, made or owed.
  emit_entry_owes :
      (e : FrameEntry) (em : E)
      → IsIndexed e
      → InUse em
      → let (em', calls) = emit_entry emit env e.first_seq (length e.blocks) e em in
        l.pending em ++ spread (sent_by e) ≡ spread calls ++ l.pending em'
  unfolding emit_entry
  emit_entry_owes e em i use_ = elim (Bool-cases wants) [
    | inl t ↦
        simp t
          (push_span_owes l em (span_rec e.first_seq (length e.blocks) e) (span_rec_headed e i))
    | inr f ↦ elim use_ [
      | inl t ↦ cc (t, f)
      | inr c ↦ simp (f, c) (sym (append-nil (spread (hand_blocks env.proof e.bytes e.blocks))))
    ]
  ]

  emit_entry-InUse :
      (e : FrameEntry) (em : E)
      → InUse em
      → InUse (emit_entry emit env e.first_seq (length e.blocks) e em).0
  unfolding emit_entry
  emit_entry-InUse e em use_ = if-cases (λ (m : Log E). InUse m.0) wants (λ t. inl t) (λ f. use_)

  module _ (x : Scan E) (e : FrameEntry) (i : IsIndexed e) where
    pub dup-Agrees :
        e.sess_lo ≡ s.session_lo
        → e.sess_hi ≡ s.session_hi
        → ltb (e.first_seq + (length e.blocks - 1)) x.w ≡ true
        → cold_apply wants now (wb x) e ≡ done (wb (skip_steady (length e.blocks) e x))
    unfolding cold_apply
    dup-Agrees lo hi dup =
        ingest_auto_dup wants now (wb x) e (wb-IsSteady x) i (unfold write_back in lo)
          (unfold write_back in hi) (unfold write_back in dup)
        ∙ ap done (skip-write_back x now s e (length e.blocks))

    pub advanced-Agrees :
        InUse x.em
        → e.sess_lo ≡ s.session_lo
        → e.sess_hi ≡ s.session_hi
        → e.first_seq ≡ x.w
        → memo_is e.memo (length e.blocks) ≡ true
        → Agrees x e (
            advanced
              (apply_steady emit env (length e.blocks) (e.first_seq + (length e.blocks - 1)) e x))
    unfolding cold_apply apply_steady
    advanced-Agrees use_ lo hi here memo =
        let m =
          ingest_auto_contig wants now (wb x) e (wb-IsSteady x) i (unfold write_back in lo)
            (unfold write_back in hi) (unfold write_back in here) memo in
        let out = emit_entry emit env e.first_seq (length e.blocks) e x.em in
        let owes : l.pending x.em ++ spread (emission wants now (wb x) e (wb-IsSteady x) i)
            ≡ spread out.1 ++ l.pending out.0 =
          unfold write_back in emit_entry_owes e x.em i use_ in
        (
          ap (λ (r : Log Sequencer). r.0) m
              ∙ apply-write_back x now s e (length e.blocks)
                  (add64 (e.first_seq + (length e.blocks - 1)) 1) out.0,
          ap (λ (r : Log Sequencer). l.pending x.em ++ spread r.1) m
              ∙ owes
              ∙ ap (λ c. spread c ++ l.pending out.0) (sym (append-nil out.1)),
          emit_entry-InUse e x.em use_,
        )

    step-Agrees : InUse x.em → Agrees x e (steady_step emit env e x)
    unfolding steady_step
    step-Agrees use_ =
        let P = Agrees x e in
        let n = length e.blocks in
        let last : sub64 (add64 e.first_seq n) 1 ≡ e.first_seq + (n - 1) =
          omega (arith, i.bound, i.nonempty) in
        rw last (
          if-cases P (n == 0) (λ z. tt)
            (λ nz.
              if-cases P (not (e.sess_lo == env.sess_lo) || not (e.sess_hi == env.sess_hi))
                (λ d. tt)
                (λ same.
                  let lo : e.sess_lo ≡ s.session_lo = ground (arith, same) in
                  let hi : e.sess_hi ≡ s.session_hi = ground (arith, same) in
                  if-cases P (ltb (e.first_seq + (n - 1)) x.w) (λ dup. (dup-Agrees lo hi dup, refl))
                    (λ new.
                      if-cases P (not (e.first_seq == x.w)) (λ d. tt)
                        (λ here.
                          if-cases P (not (memo_is e.memo n)) (λ d. tt)
                            (λ memo.
                              advanced-Agrees use_ lo hi (ground (arith, here))
                                (ground (arith, memo))))))))

  -- An entry without blocks is not the scan's.
  bare-Agrees :
      (x : Scan E) (e : FrameEntry) → length e.blocks ≡ 0 → Agrees x e (steady_step emit env e x)
  unfolding steady_step
  bare-Agrees x e z =
      if-cases (Agrees x e) (length e.blocks == 0) (λ t. tt) (λ n. absurd (ground (arith, z, n)))

  pub steady_step-Agrees :
      (x : Scan E) (e : FrameEntry) → IsEntry e → InUse x.em → Agrees x e (steady_step emit env e x)
  steady_step-Agrees x e (b, inl z) use_ = bare-Agrees x e z
  steady_step-Agrees x e (b, inr i) use_ = step-Agrees x e i use_
