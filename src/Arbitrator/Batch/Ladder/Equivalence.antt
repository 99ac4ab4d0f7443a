-- ===== src/Arbitrator/Batch/Ladder/Equivalence.antt =====
-- crates/nf-arbitrator/src/lib.rs: the slice scan with its group fast paths, against `ingest_auto` of
-- one frame after the other.
use hft_proj.Arbitrator.Steady.{
  SpanEmit, Scan, Stop, after_step, steady_step, progress, rec_emitter,
}
use hft_proj.Arbitrator.Sequencer.Indexed.Paths.{Same}
use hft_proj.Arbitrator.Sequencer.Indexed.Spans.{spread}
use hft_proj.Arbitrator.Batch.Equivalence.{drive-Returns, returned, each_auto-append}
use hft_proj.Arbitrator.Batch.Runs.{steady_step-Agrees, each_auto}
use hft_proj.Arbitrator.Batch.Scans.{
  end_scan-IsScan, IsScan, relay, left_of, after_step-Scanned, at, Scanned, Used,
}
use hft_proj.Arbitrator.Batch.Ladder.Kernel.{IsPublished}
use hft_proj.Arbitrator.Batch.Ladder.Groups.{marked, IsRun, group8-Right, group16-Right, Right}
use hft_proj.Arbitrator.Types.{Log}
use hft_proj.Protocol.Packet.{FrameEntry, SoaLadder8}
use hft_proj.Arbitrator.Batch.Ladder.{
  steady_scan_ladder, ingest_entries_ladder, after_groups, ladder_loop, taking, ladder8_scalar,
  or_else, try_groups,
}
use hft_proj.Arbitrator.Batch.Steps.{steady_ready-IsSteady, IsSteady}
use hft_proj.Arbitrator.Batch.Emitters.{rec_emitter_new, rec_emitter-IsEmitter, IsEmitter}
use hft_proj.Arbitrator.State.{Sequencer}
use hft_proj.Arbitrator.Batch.{start_scan, steady_ready, env_of}
use hft_proj.Prelude.{
  fun_ext, append-nil, subst, append_assoc, sym, drop-append, ◌∙◌, ap, ◌-◌, ◌++◌, drop, arith,
  length, leb, if-cases, All, ◌⊎◌, ◌≡◌, Option, List, Bool, [], ◌∷◌, true, ℕ, none, some, refl, inl,
  inr, zero, suc,
}
use hft_proj.Arbitrator.Batch.Contract.{IsBounded}

drop-none : (n : ℕ) → drop {A = FrameEntry} n [] ≡ []
drop-none zero = refl
drop-none (suc n) = refl

module _ {E : Type 0} {emit : SpanEmit E} (wants : Bool) (now : ℕ) (s : Sequencer)
    (l : IsEmitter emit (record { gen = s.gen })) (steady : IsSteady s) (lo hi : ℕ) where
  abbrev RightHere : Scan E → List FrameEntry → Option (ℕ × Log (Scan E)) → Type 0
  RightHere x es o = Right wants now s l steady x es o

  or_else-Right :
      (x : Scan E) (es : List FrameEntry) (o o' : Option (ℕ × Log (Scan E)))
      → RightHere x es o
      → RightHere x es o'
      → RightHere x es (or_else o o')
  or_else-Right x es none o' h k = k
  or_else-Right x es (some r) o' h k = h

  -- A kernel that decides as the scalar reference does.
  try_groups-Right :
      (ladder : Option SoaLadder8) (es : List FrameEntry) (x : Scan E)
      → (ladder ≡ none) ⊎ (ladder ≡ some ladder8_scalar)
      → All (IsPublished lo hi) es
      → Used wants now s l steady x.em
      → RightHere x es (try_groups emit (env_of wants s) ladder es x)
  unfolding try_groups
  try_groups-Right ladder es x (inl n) p u = rw n tt
  try_groups-Right ladder es x (inr k) p u =
      let P : ℕ → Option (Log (Scan E)) → Type 0 = λ n o. RightHere x es (taking n o) in
      rw k (
        or_else-Right x es _ _
          (if-cases (P 16) (leb 16 (length es))
            (λ h. group16-Right wants now s l steady lo hi x u es p (ground (arith, h))) (λ h. tt))
          (if-cases (P 8) (leb 8 (length es))
            (λ h. group8-Right wants now s l steady lo hi x u es p (ground (arith, h))) (λ h. tt)))

  abbrev ScannedHere : Scan E → List FrameEntry → Log (Scan E × Stop) → Type 0
  ScannedHere x es m = Scanned wants now s l steady x es m

  -- A run, then a scan of what is left.
  run-Scanned :
      (x : Scan E) (g es : List FrameEntry) (m : Log (Scan E)) (r : Log (Scan E × Stop))
      → IsRun wants now s l steady x g m
      → ScannedHere m.0 es r
      → ScannedHere x (g ++ es) (r.0, m.1 ++ r.1)
  run-Scanned x g es m r h k =
      let at_x : Sequencer = at wants now s l steady x in
      let y : Log Sequencer = each_auto wants now at_x g in
      let a = each_auto-append wants now at_x g k.applied in
      record {
        applied = g ++ k.applied;
        split = ap (λ t. g ++ t) k.split ∙ sym (append_assoc g k.applied (left_of r.0.1));
        ends =
            ap (λ (q : Log Sequencer). q.0) a
            ∙ ap (λ (q : Sequencer). (each_auto wants now q k.applied).0) h.ends
            ∙ k.ends;
        calls =
            ap (λ (q : Log Sequencer). l.pending x.em ++ spread q.1) a
            ∙ relay (l.pending x.em) (l.pending m.0.em) (l.pending r.0.0.em) y.1
                (each_auto wants now y.0 k.applied).1 m.1 r.1 h.calls
                (ap
                    (λ (q : Sequencer).
                      l.pending m.0.em ++ spread (each_auto wants now q k.applied).1)
                    h.ends
                  ∙ k.calls);
      }

  module _ (ladder : Option SoaLadder8)
      (decides : (ladder ≡ none) ⊎ (ladder ≡ some ladder8_scalar)) where
    loop : List FrameEntry → (skip : ℕ) → Scan E → Log (Scan E × Stop)
    loop = ladder_loop emit (env_of wants s) ladder

    after_groups-Scanned :
        (x : Scan E) (e : FrameEntry) (es : List FrameEntry) (o : Option (ℕ × Log (Scan E)))
        (step : Log (Scan E × Stop))
        → ((skip : ℕ) (x' : Scan E)
            → Used wants now s l steady x'.em
            → ScannedHere x' (drop skip es) (loop es skip x'))
        → RightHere x (e ∷ es) o
        → ScannedHere x (e ∷ es) step
        → ScannedHere x (e ∷ es) (after_groups o (loop es) step)
    after_groups-Scanned x e es none step ih r k = k
    after_groups-Scanned x e es (some (zero, m)) step ih r k = absurd (omega (arith, r.1))
    after_groups-Scanned x e es (some (suc n, m)) step ih r k =
        let t = r.0 in
        let e1 : suc n - 1 ≡ n = omega arith in
        let rest : drop n es ≡ t.left =
          ap (drop (suc n)) t.split ∙ drop-append t.taken t.left (suc n) t.size in
        let later : ScannedHere (progress m.0) t.left (loop es n (progress m.0)) =
          subst (λ (q : List FrameEntry). ScannedHere (progress m.0) q (loop es n (progress m.0)))
            rest (ih n (progress m.0) t.run.used) in
        rw (e1, t.split)
          (run-Scanned x t.taken t.left (marked wants now s l steady m) (loop es n (progress m.0))
            t.run later)

    ladder_loop-Scanned :
        (es : List FrameEntry) (skip : ℕ) (x : Scan E)
        → All (IsPublished lo hi) es
        → Used wants now s l steady x.em
        → ScannedHere x (drop skip es) (loop es skip x)
    unfolding loop ladder_loop
    ladder_loop-Scanned [] skip x p u = record {
      applied = [];
      split = drop-none skip;
      ends = unfold each_auto in refl;
      calls = unfold each_auto spread in append-nil (l.pending x.em);
    }
    ladder_loop-Scanned (e ∷ es) (suc skip) x p u = ladder_loop-Scanned es skip x p.1 u
    ladder_loop-Scanned (e ∷ es) zero x p u =
        after_groups-Scanned x e es (try_groups emit (env_of wants s) ladder (e ∷ es) x)
          (after_step e es (loop es 0) (steady_step emit (env_of wants s) e x) x)
          (λ skip x' u'. ladder_loop-Scanned es skip x' p.1 u')
          (try_groups-Right ladder (e ∷ es) x decides p u)
          (after_step-Scanned wants now s l steady x e es (loop es 0) _
            (λ x' u'. ladder_loop-Scanned es 0 x' p.1 u') u
            (steady_step-Agrees wants now s l steady x e p.0.entry u))

-- The kernel, where there is one, decides each group as the scalar reference does.
abbrev pub Decides : Option SoaLadder8 → Type 0
Decides none = Unit
Decides (some k) = (firsts ns : List ℕ) (w : ℕ) → k firsts ns w ≡ ladder8_scalar firsts ns w

decided :
    (ladder : Option SoaLadder8) → Decides ladder → (ladder ≡ none) ⊎ (ladder ≡ some ladder8_scalar)
decided none d = inl refl
decided (some k) d =
    inr (ap some (fun_ext (λ firsts. fun_ext (λ ns. fun_ext (λ w. d firsts ns w)))))

steady_scan_ladder-IsScan :
    (ladder : Option SoaLadder8) (lo hi : ℕ) (wants : Bool) (now : ℕ) (s : Sequencer)
    (es : List FrameEntry)
    → Decides ladder
    → steady_ready s ≡ true
    → IsBounded s
    → All (IsPublished lo hi) es
    → IsScan wants now s es (steady_scan_ladder rec_emitter [] ladder wants now s es)
unfolding steady_scan_ladder
steady_scan_ladder-IsScan ladder lo hi wants now s es d t b h =
    let l = rec_emitter-IsEmitter (record { gen = s.gen }) in
    let steady = steady_ready-IsSteady s t in
    let new : l.pending [] ≡ [] = rec_emitter_new (record { gen = s.gen }) in
    end_scan-IsScan wants now s l steady es [] new b _ (
      unfold loop in
      ladder_loop-Scanned wants now s l steady lo hi ladder (decided ladder d) es 0
        (start_scan [] s.w) h (inr new))

-- With the group fast paths, too, a batch returns and does what `ingest_auto` does with its frames one
-- after the other: the same state, and calls that stand for the same messages and events, each span
-- with the number of its first message and their count. The kernel,
-- if there is one, decides as the scalar reference; the sink takes the records of spans; the entries
-- carry their frames' fields, the feed in the eligibility byte, and its steady bit only with the one
-- session that the publisher uses, a memo for all blocks and at least one block; and the watermark and
-- the counters are 64-bit words.
pub ingest_entries_ladder-eq-each :
    (ladder : Option SoaLadder8) (lo hi : ℕ) (wants : Bool) (s : Sequencer) (es : List FrameEntry)
    (now : ℕ)
    → Decides ladder
    → All (IsPublished lo hi) es
    → IsBounded s
    → (r : Log Sequencer) × (ingest_entries_ladder rec_emitter [] ladder wants s es now ≡ some r)
      × Same (each_auto wants now s es) r
unfolding ingest_entries_ladder
ingest_entries_ladder-eq-each ladder lo hi wants s es now d h b =
    returned (each_auto wants now s es) _ (
      drive-Returns {Q = IsPublished lo hi} (λ e p. p.entry) wants now
        (steady_scan_ladder rec_emitter [] ladder wants now)
        (λ s es t b h. steady_scan_ladder-IsScan ladder lo hi wants now s es d t b h)
        (suc (length es)) s es (omega arith) h b)
