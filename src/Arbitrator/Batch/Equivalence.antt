-- ===== src/Arbitrator/Batch/Equivalence.antt =====
-- crates/nf-arbitrator/src/lib.rs: a batch, against `ingest_auto` of one frame after the other.
use hft_proj.Arbitrator.Steady.{Stop}
use hft_proj.Arbitrator.Batch.Steps.{steady_ready-IsSteady}
use hft_proj.Arbitrator.Batch.Emitters.{rec_emitter_new, rec_emitter-IsEmitter}
use hft_proj.Arbitrator.Batch.Indexed.{cold_apply-IsBounded}
use hft_proj.Arbitrator.Batch.Scans.{scan_loop-Scanned, end_scan-IsScan, IsScan}
use hft_proj.Arbitrator.Sequencer.Indexed.Spans.{spread-append, spread}
use hft_proj.Arbitrator.Sequencer.Indexed.Paths.{Same}
use hft_proj.Protocol.Packet.{FrameEntry}
use hft_proj.Arbitrator.State.{Sequencer}
use hft_proj.Arbitrator.Types.{Call, ◌>>=◌, Log}
use hft_proj.Arbitrator.Batch.{
  start_scan, ingest_entries, steady_scan, after_scan, next_entry, cold_then, cold_apply, after,
  steady_ready, drive,
}
use hft_proj.Arbitrator.Batch.Runs.{each_auto}
use hft_proj.Prelude.{
  false, refl, none, zero, inr, length-append, append-nil, append_assoc, ap₂, subst, sym, arith, [],
  suc, ◌<◌, ap, true, length, ◌≡◌, ◌∙◌, ◌∷◌, some, All, ◌++◌, Option, Bool, List, ℕ,
}
use hft_proj.Arbitrator.Batch.Contract.{IsBounded, IsEntry}

Same-trans : (a b c : Log Sequencer) → Same a b → Same b c → Same a c
Same-trans a b c h k = (h.0 ∙ k.0, h.1 ∙ k.1)

pub each_auto-append :
    (wants : Bool) (now : ℕ) (s : Sequencer) (xs ys : List FrameEntry)
    → each_auto wants now s (xs ++ ys)
      ≡ (each_auto wants now s xs >>= (λ s'. each_auto wants now s' ys))
unfolding each_auto
each_auto-append wants now s [] ys = refl
each_auto-append wants now s (e ∷ xs) ys =
    let m : Log Sequencer = cold_apply wants now s e in
    let ih = each_auto-append wants now m.0 xs ys in
    let x : Log Sequencer = each_auto wants now m.0 xs in
    ap (λ (r : Log Sequencer). (r.0, m.1 ++ r.1)) ih
    ∙ ap (λ (c : List Call). ((each_auto wants now x.0 ys).0, c))
        (sym (append_assoc m.1 x.1 (each_auto wants now x.0 ys).1))

pub each_auto-IsBounded :
    (wants : Bool) (now : ℕ) (s : Sequencer) (es : List FrameEntry)
    → All IsEntry es
    → IsBounded s
    → IsBounded (each_auto wants now s es).0
unfolding each_auto
each_auto-IsBounded wants now s [] h b = b
each_auto-IsBounded wants now s (e ∷ es) h b =
    each_auto-IsBounded wants now (cold_apply wants now s e).0 es h.1
      (cold_apply-IsBounded wants now s e h.0 b)

-- The loop returns, with the state and the calls of `m`.
abbrev pub Returns : Log Sequencer → Option (Log Sequencer) → Type 0
Returns m none = ⊥
Returns m (some r) = Same m r

after-Returns :
    (wants : Bool) (now : ℕ) (s : Sequencer) (xs ys : List FrameEntry) (m : Log Sequencer)
    (o : Option (Log Sequencer))
    → Same (each_auto wants now s xs) m
    → Returns (each_auto wants now m.0 ys) o
    → Returns (each_auto wants now s (xs ++ ys)) (after m.1 o)
after-Returns wants now s xs ys m none h k = k
after-Returns wants now s xs ys m (some r) h k =
    let x : Log Sequencer = each_auto wants now s xs in
    let a = each_auto-append wants now s xs ys in
    (
      ap (λ (q : Log Sequencer). q.0) a
          ∙ ap (λ (q : Sequencer). (each_auto wants now q ys).0) h.0
          ∙ k.0,
      ap (λ (q : Log Sequencer). spread q.1) a
          ∙ spread-append x.1 (each_auto wants now x.0 ys).1
          ∙ ap₂ ◌++◌ h.1 (ap (λ (q : Sequencer). spread (each_auto wants now q ys).1) h.0 ∙ k.1)
          ∙ sym (spread-append m.1 r.1),
    )

All-of-append :
    (Q : FrameEntry → Type 0) (xs ys : List FrameEntry) → All Q (xs ++ ys) → All Q xs × All Q ys
All-of-append Q [] ys h = (tt, h)
All-of-append Q (x ∷ xs) ys h = let r = All-of-append Q xs ys h.1 in ((h.0, r.0), r.1)

All-entries :
    {Q : FrameEntry → Type 0} (entry : (e : FrameEntry) → Q e → IsEntry e) (es : List FrameEntry)
    → All Q es
    → All IsEntry es
All-entries entry [] h = tt
All-entries entry (e ∷ es) h = (entry e h.0, All-entries entry es h.1)

module _ {Q : FrameEntry → Type 0} (entry : (e : FrameEntry) → Q e → IsEntry e) (wants : Bool)
    (now : ℕ) (fuel : ℕ) (rest : Sequencer → List FrameEntry → Option (Log Sequencer))
    (ih : (s : Sequencer) (es : List FrameEntry)
      → length es < fuel
      → All Q es
      → IsBounded s
      → Returns (each_auto wants now s es) (rest s es)) where
  cold_then-Returns :
      (s : Sequencer) (e : FrameEntry) (es : List FrameEntry)
      → length es < fuel
      → All Q (e ∷ es)
      → IsBounded s
      → (scan : Sequencer → List FrameEntry → Log (Sequencer × Stop))
      → Returns (each_auto wants now s (e ∷ es)) (cold_then wants now scan s e (λ s'. rest s' es))
  cold_then-Returns s e es l h b scan =
      let m : Log Sequencer = cold_apply wants now s e in
      after-Returns wants now s (e ∷ []) es m (rest m.0 es)
        (unfold each_auto in (refl, ap spread (append-nil m.1)))
        (ih m.0 es l h.1 (cold_apply-IsBounded wants now s e (entry e h.0) b))

  module _ (scan : Sequencer → List FrameEntry → Log (Sequencer × Stop)) where
    after_scan-Returns :
        (s : Sequencer) (es : List FrameEntry) (m : Log (Sequencer × Stop))
        → length es < suc fuel
        → All Q es
        → IsBounded s
        → IsScan wants now s es m
        → Returns (each_auto wants now s es) (after_scan wants now scan m rest)
    after_scan-Returns s es ((s', none), calls) l h b c =
        subst (λ (x : List FrameEntry). Returns (each_auto wants now s x) (some (s', calls)))
          (sym (c.split ∙ append-nil c.applied)) c.same
    after_scan-Returns s es ((s', some (e, r)), calls) l h b c =
        let parts = All-of-append Q c.applied (e ∷ r) (subst (All Q) c.split h) in
        let b' : IsBounded s' =
          subst IsBounded c.same.0
            (each_auto-IsBounded wants now s c.applied (All-entries entry c.applied parts.0) b) in
        let short : length r < fuel =
          omega (arith, ap length c.split, length-append c.applied (e ∷ r)) in
        subst
          (λ (x : List FrameEntry).
            Returns (each_auto wants now s x)
              (after_scan wants now scan ((s', some (e, r)), calls) rest))
          (sym c.split)
          (after-Returns wants now s c.applied (e ∷ r) (s', calls) _ c.same
            (cold_then-Returns s' e r short parts.1 b' scan))

    next_entry-Returns :
        (s : Sequencer) (es : List FrameEntry)
        → length es < suc fuel
        → All Q es
        → IsBounded s
        → Returns (each_auto wants now s es) (next_entry wants now scan s es rest)
    next_entry-Returns s [] l h b = unfold each_auto in (refl, refl)
    next_entry-Returns s (e ∷ es) l h b = cold_then-Returns s e es (omega arith) h b scan

-- A split on a test that the loop branches on.
split_on :
    {A : Type 0} (P : A → Type 0) (b : Bool) {x y : A}
    → (b ≡ true → P x)
    → (b ≡ false → P y)
    → P (elim b [ true ↦ x | false ↦ y ])
split_on P true f g = f refl
split_on P false f g = g refl

-- A driver with a right scan does what `ingest_auto` does frame by frame, and its fuel is enough.
pub drive-Returns :
    {Q : FrameEntry → Type 0} (entry : (e : FrameEntry) → Q e → IsEntry e) (wants : Bool) (now : ℕ)
    (scan : Sequencer → List FrameEntry → Log (Sequencer × Stop))
    → ((s : Sequencer) (es : List FrameEntry)
        → steady_ready s ≡ true
        → IsBounded s
        → All Q es
        → IsScan wants now s es (scan s es))
    → (fuel : ℕ) (s : Sequencer) (es : List FrameEntry) → length es < fuel
    → All Q es
    → IsBounded s
    → Returns (each_auto wants now s es) (drive wants now scan fuel s es)
unfolding drive
drive-Returns entry wants now scan right zero s es l h b = absurd (omega arith)
drive-Returns entry wants now scan right (suc fuel) s es l h b =
    let ih = λ (s : Sequencer) (es : List FrameEntry).
      drive-Returns entry wants now scan right fuel s es in
    split_on (Returns (each_auto wants now s es)) (steady_ready s)
      (λ t.
        after_scan-Returns entry wants now fuel (drive wants now scan fuel) ih scan s es (scan s es)
          l h b (right s es t b h))
      (λ f. next_entry-Returns entry wants now fuel (drive wants now scan fuel) ih scan s es l h b)

abbrev pub EndsAs : Option (Log Sequencer) → Log Sequencer → Type 0
EndsAs o m = (r : Log Sequencer) × (o ≡ some r) × Same m r

pub returned : (m : Log Sequencer) (o : Option (Log Sequencer)) → Returns m o → EndsAs o m
returned m none h = absurd h
returned m (some r) h = (r, refl, h)

steady_scan-IsScan :
    (wants : Bool) (now : ℕ) (s : Sequencer) (es : List FrameEntry)
    → steady_ready s ≡ true
    → IsBounded s
    → All IsEntry es
    → IsScan wants now s es (steady_scan wants now s es)
unfolding steady_scan
steady_scan-IsScan wants now s es t b h =
    let l = rec_emitter-IsEmitter (record { gen = s.gen }) in
    let steady = steady_ready-IsSteady s t in
    let new : l.pending [] ≡ [] = rec_emitter_new (record { gen = s.gen }) in
    end_scan-IsScan wants now s l steady es [] new b _
      (scan_loop-Scanned wants now s l steady es (start_scan [] s.w) h (inr new))

-- A batch returns, and does what `ingest_auto` does with its frames one after the other: the state is
-- the same, and the calls stand for the same messages and events, a batch of spans for the messages of
-- its blocks, each span with their first number and their count. The watermark and the counters are 64-bit words; each frame is of bytes, and an entry
-- with blocks carries the fields, the first and the last block of its frame.
pub ingest_entries-eq-each :
    (wants : Bool) (s : Sequencer) (es : List FrameEntry) (now : ℕ)
    → All IsEntry es
    → IsBounded s
    → (r : Log Sequencer) × (ingest_entries wants s es now ≡ some r)
      × Same (each_auto wants now s es) r
unfolding ingest_entries
ingest_entries-eq-each wants s es now h b = returned (each_auto wants now s es) _ (
    drive-Returns {Q = IsEntry} (λ e h. h) wants now (steady_scan wants now)
      (steady_scan-IsScan wants now) (suc (length es)) s es (omega arith) h b)
