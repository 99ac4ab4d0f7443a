-- ===== src/Arbitrator/Batch/Scans.antt =====
-- crates/nf-arbitrator/src/lib.rs: the scan of a run, from its first frame to the one where it stops.
use hft_proj.Arbitrator.Steady.{
  progress, Stop, scan_loop, after_step, cold, dup_skipped, advanced, StepOutcome, Scan, SpanEmit,
}
use hft_proj.Prelude.{
  ◌≡◌, refl, sym, ap, ◌∙◌, subst, Bool, ℕ, none, some, List, [], ◌∷◌, ◌++◌, All, append-nil,
  append_assoc,
}
use hft_proj.Protocol.Packet.{FrameEntry}
use hft_proj.Arbitrator.Types.{Call, Log}
use hft_proj.Arbitrator.State.{Sequencer}
use hft_proj.Arbitrator.Sequencer.Indexed.Spans.{spread, spread-append}
use hft_proj.Arbitrator.Sequencer.Indexed.Paths.{Same}
use hft_proj.Arbitrator.Batch.{cold_apply, end_scan, start_scan}
use hft_proj.Arbitrator.Batch.Contract.{IsEntry, IsBounded}
use hft_proj.Arbitrator.Batch.Steps.{IsSteady}
use hft_proj.Arbitrator.Batch.Tallies.{start-write_back}
use hft_proj.Arbitrator.Batch.Emitters.{IsEmitter}
use hft_proj.Arbitrator.Batch.Runs.{each_auto, env, wb, InUse, Agrees, steady_step-Agrees}

-- The frames that a scan has left.
abbrev pub left_of : Stop → List FrameEntry
left_of none = []
left_of (some (e, es)) = e ∷ es

-- What is sent and what is owed, carried over two steps.
pub relay :
    (p q z xs ys cs ds : List Call)
    → p ++ spread xs ≡ spread cs ++ q
    → q ++ spread ys ≡ spread ds ++ z
    → p ++ spread (xs ++ ys) ≡ spread (cs ++ ds) ++ z
relay p q z xs ys cs ds h k =
    ap (λ t. p ++ t) (spread-append xs ys)
    ∙ sym (append_assoc p (spread xs) (spread ys))
    ∙ ap (λ t. t ++ spread ys) h
    ∙ append_assoc (spread cs) q (spread ys)
    ∙ ap (λ t. spread cs ++ t) k
    ∙ sym (append_assoc (spread cs) (spread ds) z)
    ∙ ap (λ t. t ++ z) (sym (spread-append cs ds))

module _ {E : Type 0} {emit : SpanEmit E} (wants : Bool) (now : ℕ) (s : Sequencer)
    (l : IsEmitter emit (record { gen = s.gen })) (steady : IsSteady s) where
  abbrev pub at : Scan E → Sequencer
  at x = wb wants now s l steady x

  abbrev pub Used : E → Type 0
  Used em = InUse wants now s l steady em

  -- The classic path over the frames that the scan has applied ends where the scan does.
  pub record Scanned (x : Scan E) (es : List FrameEntry) (m : Log (Scan E × Stop)) : Type 0 where
    pub applied : List FrameEntry
    pub split : es ≡ applied ++ left_of m.0.1
    pub ends : (each_auto wants now (at x) applied).0 ≡ at m.0.0
    pub calls :
        l.pending x.em ++ spread (each_auto wants now (at x) applied).1
        ≡ spread m.1 ++ l.pending m.0.0.em

  pub after_step-Scanned :
      (x : Scan E) (e : FrameEntry) (es : List FrameEntry) (rest : Scan E → Log (Scan E × Stop))
      (o : StepOutcome E)
      → ((x' : Scan E) → Used x'.em → Scanned x' es (rest x'))
      → Used x.em
      → Agrees wants now s l steady x e o
      → Scanned x (e ∷ es) (after_step e es rest o x)
  unfolding each_auto spread
  after_step-Scanned x e es rest cold ih u a = record {
    applied = [];
    split = refl;
    ends = refl;
    calls = append-nil (l.pending x.em);
  }
  after_step-Scanned x e es rest (dup_skipped x') ih u a =
      let r = ih x' (subst Used (sym a.1) u) in
      record {
        applied = e ∷ r.applied;
        split = ap (λ t. e ∷ t) r.split;
        ends = (ap (λ (m : Log Sequencer). (each_auto wants now m.0 r.applied).0) a.0 ∙ r.ends);
        calls =
            relay (l.pending x.em) (l.pending x'.em) (l.pending (rest x').0.0.em)
              (cold_apply wants now (at x) e).1 _ [] (rest x').1
              (ap (λ (m : Log Sequencer). l.pending x.em ++ spread m.1) a.0
                ∙ append-nil (l.pending x.em)
                ∙ ap l.pending (sym a.1))
              (ap
                  (λ (m : Log Sequencer).
                    l.pending x'.em ++ spread (each_auto wants now m.0 r.applied).1)
                  a.0
                ∙ r.calls);
      }
  after_step-Scanned x e es rest (advanced (x', cs)) ih u a =
      let r = ih (progress x') a.2 in
      record {
        applied = e ∷ r.applied;
        split = ap (λ t. e ∷ t) r.split;
        ends = (ap (λ (q : Sequencer). (each_auto wants now q r.applied).0) a.0 ∙ r.ends);
        calls =
            (relay (l.pending x.em) (l.pending x'.em) _ (cold_apply wants now (at x) e).1 _ cs _ a.1
              (ap (λ (q : Sequencer). l.pending x'.em ++ spread (each_auto wants now q r.applied).1)
                  a.0
                ∙ r.calls));
      }

  pub scan_loop-Scanned :
      (es : List FrameEntry) (x : Scan E)
      → All IsEntry es
      → Used x.em
      → Scanned x es (scan_loop emit (env wants now s l steady) es x)
  unfolding scan_loop
  scan_loop-Scanned [] x h u = record {
    applied = [];
    split = refl;
    ends = unfold each_auto in refl;
    calls = unfold each_auto spread in append-nil (l.pending x.em);
  }
  scan_loop-Scanned (e ∷ es) x h u =
      after_step-Scanned x e es (scan_loop emit (env wants now s l steady) es) _
        (λ x' u'. scan_loop-Scanned es x' h.1 u') u
        (steady_step-Agrees wants now s l steady x e h.0 u)

-- A scan that is right: the classic path over the frames that it has applied does the same.
pub record IsScan (wants : Bool) (now : ℕ) (s : Sequencer) (es : List FrameEntry)
    (m : Log (Sequencer × Stop)) : Type 0 where
  pub applied : List FrameEntry
  pub split : es ≡ applied ++ left_of m.0.1
  pub same : Same (each_auto wants now s applied) (m.0.0, m.1)

module _ {E : Type 0} {emit : SpanEmit E} (wants : Bool) (now : ℕ) (s : Sequencer)
    (l : IsEmitter emit (record { gen = s.gen })) (steady : IsSteady s) where
  -- The scan's end pays what the buffer owes, and writes the locals back.
  pub end_scan-IsScan :
      (es : List FrameEntry) (em : E)
      → l.pending em ≡ []
      → IsBounded s
      → (m : Log (Scan E × Stop)) → Scanned wants now s l steady (start_scan em s.w) es m
      → IsScan wants now s es (end_scan emit (record { gen = s.gen }) now s m)
  unfolding end_scan
  end_scan-IsScan es em new range m c =
      let start = start-write_back em now s range in
      record {
        applied = c.applied;
        split = c.split;
        same = (
          ap (λ (q : Sequencer). (each_auto wants now q c.applied).0) (sym start) ∙ c.ends,
          ap (λ t. t ++ spread (each_auto wants now s c.applied).1) (sym new)
              ∙ ap (λ (q : Sequencer). l.pending em ++ spread (each_auto wants now q c.applied).1)
                  (sym start)
              ∙ c.calls
              ∙ ap (λ t. spread m.1 ++ t) (sym (l.flush_pays m.0.0.em))
              ∙ sym (spread-append m.1 (emit.flush m.0.0.em (record { gen = s.gen })).1)
              ∙ ap (λ t. spread (m.1 ++ t))
                  (sym (append-nil (emit.flush m.0.0.em (record { gen = s.gen })).1)),
        );
      }
