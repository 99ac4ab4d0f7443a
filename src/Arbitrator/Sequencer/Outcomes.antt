-- ===== src/Arbitrator/Sequencer/Outcomes.antt =====
-- crates/nf-arbitrator/src/lib.rs: the paths of `ingest` over a data frame, with what each delivers.
use hft_proj.Prelude.{
  ℕ, ◌+◌, ◌-◌, ◌<◌, ◌≤◌, ◌≡◌, ◌⊎◌, inl, inr, refl, sym, ◌∙◌, false, some, List, [], if◌then◌else◌,
  ltb, leb, ◌==◌, Bytes, add64, sub64, u64, arith, Bool-cases, if-cases, subst, Result, ok, err,
  min,
}
use hft_proj.Protocol.Moldudp64.{span}
use hft_proj.Protocol.Packet.{PacketError, ingest_walk}
use hft_proj.Arbitrator.Types.{init, contig, state_eq, no_mutation, Call, Log, ◌>>=◌, done}
use hft_proj.Arbitrator.Window.Draining.{nothing_held}
use hft_proj.Arbitrator.State.{Sequencer, gap_evidence}
use hft_proj.Arbitrator.State.Invariant.{
  IsSequencer, counted-IsSequencer, expect, expect-append, Delivers, done-Delivers, bind-Delivers,
}
use hft_proj.Arbitrator.State.Lifecycle.{gap_evidence-Anchored}
use hft_proj.Arbitrator.Sequencer.{
  add_emitted, skip_prefix, add_dups, max_clamp, stage_valid, after_staging, skip_duplicate,
  violate, finish_contig, finish_gap, apply_contig, apply_gap, ingest_data, retire_pending, advance,
  emit_valid,
}
use hft_proj.Arbitrator.Sequencer.Walks.{ingest_walk-Emits}
use hft_proj.Arbitrator.Sequencer.Staged.{ingest_walk-Stages}
use hft_proj.Arbitrator.Sequencer.Delivery.{
  advance-Delivers, after_staging-Delivers, retire_pending-Delivers,
}

-- What a step that may find a frame invalid does, from the next number `w` and `v` violations: it
-- delivers the numbers from `w` on; they end at the new watermark, or the step counts a violation
-- and leaves the watermark.
pub record Outcome (w v : ℕ) (m : Log Sequencer) : Type 0 where
  pub keeps : IsSequencer m.0
  pub upto : ℕ
  pub runs : expect w m.1 ≡ some upto
  pub up : w ≤ m.0.w
  pub settled : (upto ≡ m.0.w) ⊎ ((m.0.w ≡ w) × (m.0.counters.total_violations ≡ add64 v 1))

pub delivered : {w v : ℕ} {m : Log Sequencer} → Delivers w m → Outcome w v m
delivered {m = m} d = record {
  keeps = d.keeps;
  upto = m.0.w;
  runs = d.runs;
  up = d.up;
  settled = inl refl;
}

finish_contig-Outcome :
    (last now_ns : ℕ) (r : Result PacketError (Unit {0})) (calls : List Call) (s : Sequencer)
    {upto : ℕ}
    → IsSequencer s
    → state_eq s.state init ≡ false
    → s.w ≤ last
    → last + 8192 < u64
    → expect s.w calls ≡ some upto
    → (r ≡ ok tt → upto ≡ last + 1)
    → Outcome s.w s.counters.total_violations (finish_contig last now_ns r calls s)
unfolding finish_contig violate
finish_contig-Outcome last now_ns (err e) calls s {upto} i n up room runs whole = record {
  keeps = counted-IsSequencer i;
  upto = upto;
  runs = runs;
  up = omega arith;
  settled = inr (refl, refl);
}
finish_contig-Outcome last now_ns (ok u) calls s {upto} i n up room runs whole =
    let a = advance-Delivers last now_ns s i.window n i.production up room in
    let s3 : Sequencer = (advance last now_ns s).0 in
    let b =
      bind-Delivers (last + 1) (advance last now_ns s) (λ s3. done (retire_pending s3)) a
        (retire_pending-Delivers s3 a.keeps) in
    record {
      keeps = b.keeps;
      upto = (retire_pending s3).w;
      runs = expect-append calls _ s.w upto runs ∙ rw (whole refl) b.runs;
      up = omega (arith, b.up);
      settled = inl refl;
    }

-- The contiguous path, where the frame's numbers begin at or below the watermark and reach it.
apply_contig-Outcome :
    (frame : Bytes) (first last blocks now_ns : ℕ) (s : Sequencer)
    → IsSequencer s
    → state_eq s.state init ≡ false
    → first ≤ s.w
    → s.w ≤ last
    → last + 1 ≡ first + blocks
    → last + 8192 < u64
    → Outcome s.w s.counters.total_violations (apply_contig frame first last blocks now_ns s)
unfolding apply_contig skip_prefix
apply_contig-Outcome frame first last blocks now_ns s i n lo hi span room =
    let skip : min (sub64 s.w first) blocks ≡ s.w - first = omega arith in
    let at : first + (s.w - first) ≡ s.w = omega arith in
    let out =
      ingest_walk frame (emit_valid (record { gen = s.gen })) first blocks (s.w - first) (0, []) in
    let e =
      ingest_walk-Emits frame (record { gen = s.gen }) first blocks (s.w - first) (omega arith)
        (omega arith) in
    let runs : expect s.w out.1.1 ≡ some e.upto =
      rw e.calls (subst (λ (k : ℕ). expect k e.fresh ≡ some e.upto) at e.runs) in
    let whole : out.0 ≡ ok tt → e.upto ≡ last + 1 = λ h. omega (arith, e.whole h) in
    rw skip (
      if-cases
        (λ x.
          Outcome s.w s.counters.total_violations
            (finish_contig last now_ns out.0 out.1.1 (add_emitted out.1.0 x)))
        ((s.w - first) == 0)
        (λ z.
          finish_contig-Outcome last now_ns out.0 out.1.1 (add_emitted out.1.0 s)
            (counted-IsSequencer i) n hi room runs whole)
        (λ z.
          finish_contig-Outcome last now_ns out.0 out.1.1
            (add_emitted out.1.0 (add_dups (s.w - first) s)) (counted-IsSequencer i) n hi room runs
            whole))

finish_gap-Outcome :
    (v last now_ns : ℕ) (r : Result PacketError (Unit {0})) (s : Sequencer)
    → IsSequencer s
    → state_eq s.state init ≡ false
    → s.w + 4096 < u64
    → Outcome s.w v (finish_gap last now_ns r s)
unfolding finish_gap violate
finish_gap-Outcome v last now_ns (err e) s i n room = record {
  keeps = counted-IsSequencer i;
  upto = s.w;
  runs = unfold expect in refl;
  up = omega arith;
  settled = inl refl;
}
finish_gap-Outcome v last now_ns (ok u) s i n room =
    let a = after_staging-Delivers last now_ns s i n room in
    let s3 : Sequencer = (after_staging last now_ns s).0 in
    delivered (
      bind-Delivers s.w (after_staging last now_ns s) (λ s3. done (retire_pending s3)) a
        (retire_pending-Delivers s3 a.keeps))

-- A step in front of which a delivery stands.
bind-Outcome :
    (w v : ℕ) (m : Log Sequencer) (f : Sequencer → Log Sequencer)
    → Delivers w m
    → m.0.w ≡ w
    → Outcome w v (f m.0)
    → Outcome w v (m >>= f)
bind-Outcome w v m f d e o = record {
  keeps = o.keeps;
  upto = o.upto;
  runs =
      expect-append m.1 (f m.0).1 w m.0.w d.runs
      ∙ subst (λ (k : ℕ). expect k (f m.0).1 ≡ some o.upto) (sym e) o.runs;
  up = o.up;
  settled = o.settled;
}

-- The gap path, where the frame's numbers are past the watermark.
apply_gap-Outcome :
    (frame : Bytes) (first last blocks now_ns : ℕ) (s : Sequencer)
    → IsSequencer s
    → state_eq s.state init ≡ false
    → s.w < first
    → first + blocks < u64
    → s.w + 4096 < u64
    → Outcome s.w s.counters.total_violations (apply_gap frame first last blocks now_ns s)
unfolding apply_gap
apply_gap-Outcome frame first last blocks now_ns s i n above bound room =
    let g = gap_evidence-Anchored s first i n in
    let s1 : Sequencer = (gap_evidence s first).0 in
    let reach : max_clamp s1 ≡ s1.w + 1024 =
      reach_of s1 g.0.keeps.production (omega (arith, g.2)) in
    let out = ingest_walk frame (stage_valid (max_clamp s1)) first blocks 0 s1 in
    let t =
      ingest_walk-Stages blocks frame (max_clamp s1) first g.0.keeps g.1 (omega (arith, g.2)) reach
        (omega (arith, g.2)) bound in
    let o =
      finish_gap-Outcome s.counters.total_violations last now_ns out.0 out.1 t.keeps
        (ground (arith, t.same_state, g.1)) (omega (arith, g.2, t.same_w)) in
    bind-Outcome s.w s.counters.total_violations (gap_evidence s first)
      (λ x.
        let (r, s2) = ingest_walk frame (stage_valid (max_clamp x)) first blocks 0 x in
        finish_gap last now_ns r s2)
      g.0 g.2
      (subst (λ (k : ℕ). Outcome k s.counters.total_violations (finish_gap last now_ns out.0 out.1))
        (t.same_w ∙ g.2) o)
  where
    reach_of :
        (x : Sequencer) → x.mutation ≡ no_mutation → x.w + 4096 < u64 → max_clamp x ≡ x.w + 1024
    reach_of x p room = ground (arith, p)

-- A data frame, with the numbers from `first` to `last`: from the anchor, or from the watermark.
pub ingest_data-Outcome :
    (frame : Bytes) (feed now_ns first last blocks : ℕ) (s : Sequencer)
    → IsSequencer s
    → s.w + 8192 < u64
    → last + 8192 < u64
    → 0 < blocks
    → last + 1 ≡ first + blocks
    → Outcome
        (if state_eq s.state init then first else s.w)
        s.counters.total_violations
        (ingest_data frame feed now_ns first last blocks s)
unfolding ingest_data skip_duplicate
ingest_data-Outcome frame feed now_ns first last blocks s i room room' pos span =
    elim (Bool-cases (state_eq s.state init)) [
      | inl e ↦ simp e (
          let x : Sequencer = record s { w = first; progress_vt = now_ns; state = contig } in
          let (g, z) = i.fresh e in
          apply_contig-Outcome frame first last blocks now_ns x
            (record {
              window = i.window;
              vacant = nothing_held s.win first first i.window z;
              gapped = λ a. ground (arith, g);
              fresh = λ a. cc;
              production = i.production;
            })
            refl (omega arith) (omega arith) span room')
      | inr e ↦ simp e (
          if-cases (Outcome s.w s.counters.total_violations) (ltb last s.w)
            (λ a. delivered (done-Delivers _ (counted-IsSequencer i)))
            (λ a.
              if-cases (Outcome s.w s.counters.total_violations) (leb first s.w)
                (λ c.
                  apply_contig-Outcome frame first last blocks now_ns s i e (ground arith)
                    (ground arith) span room')
                (λ c.
                  apply_gap-Outcome frame first last blocks now_ns s i e (ground arith)
                    (omega arith) (omega arith))))
    ]
