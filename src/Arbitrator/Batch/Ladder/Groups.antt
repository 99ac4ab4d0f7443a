-- ===== src/Arbitrator/Batch/Ladder/Groups.antt =====
-- crates/nf-arbitrator/src/lib.rs: a verified group, against `ingest_auto` of its frames one after the
-- other.
use hft_proj.Arbitrator.Steady.{
  SpanEmit, Scan, advanced, apply_steady, progress, skip_steady, ScanEnv,
}
use hft_proj.Arbitrator.Batch.Ladder.Kernel.{
  group16-Pairs, group8-Pairs, counts_of, firsts_of, IsPublished,
}
use hft_proj.Arbitrator.Types.{◌>>=◌, done, Log}
use hft_proj.Arbitrator.Sequencer.Indexed.Spans.{spread}
use hft_proj.Arbitrator.Batch.Scans.{relay, Used, at}
use hft_proj.Protocol.Packet.{elig_feed, FrameEntry}
use hft_proj.Arbitrator.Batch.Ladder.Pairs.{
  pair_steps-eq-group, half_of, pair_watermark, Pairs, pair_steps,
}
use hft_proj.Arbitrator.Batch.Runs.{dup-Agrees, advanced-Agrees, env, Agrees, each_auto}
use hft_proj.Arbitrator.Batch.Steps.{IsSteady}
use hft_proj.Arbitrator.Batch.Emitters.{IsEmitter}
use hft_proj.Arbitrator.State.{Sequencer}
use hft_proj.Arbitrator.Batch.{cold_apply}
use hft_proj.Prelude.{
  All-take, not, if-cases, ◌≤◌, suc, arith, All, ◌<◌, lt→ltb, Option, length, refl, subst, ltb,
  add64, ◌-◌, sym, ◌+◌, ◌∙◌, ap, ◌++◌, append-nil, ◌≡◌, List, Bool, [], ◌∷◌, true, ℕ, none, some,
}
use hft_proj.Arbitrator.Batch.Ladder.{
  even_sum, ladder_group16_apply, group_elig, ladder8_scalar, taking, ladder_group_apply,
  apply_group, count_of,
}

module _ {E : Type 0} {emit : SpanEmit E} (wants : Bool) (now : ℕ) (s : Sequencer)
    (l : IsEmitter emit (record { gen = s.gen })) (steady : IsSteady s) where
  abbrev here_at : Scan E → Sequencer
  here_at x = at wants now s l steady x

  -- The classic path over `g` ends where `m` does, with its calls made or owed.
  pub record IsRun (x : Scan E) (g : List FrameEntry) (m : Log (Scan E)) : Type 0 where
    pub ends : (each_auto wants now (here_at x) g).0 ≡ here_at m.0
    pub calls :
        l.pending x.em ++ spread (each_auto wants now (here_at x) g).1
        ≡ spread m.1 ++ l.pending m.0.em
    pub used : Used wants now s l steady m.0.em

  done-IsRun : (x : Scan E) → Used wants now s l steady x.em → IsRun x [] (done x)
  unfolding each_auto spread
  done-IsRun x u = record { ends = refl; calls = append-nil (l.pending x.em); used = u }

  advanced-IsRun :
      (x : Scan E) (e : FrameEntry) (g : List FrameEntry) (m : Log (Scan E))
      (rest : Scan E → Log (Scan E))
      → Agrees wants now s l steady x e (advanced m)
      → IsRun (progress m.0) g (rest (progress m.0))
      → IsRun x (e ∷ g) (m >>= (λ x'. rest (progress x')))
  unfolding each_auto
  advanced-IsRun x e g m rest a r = record {
    ends = ap (λ (q : Sequencer). (each_auto wants now q g).0) a.0 ∙ r.ends;
    calls =
        relay (l.pending x.em) (l.pending m.0.em) (l.pending (rest (progress m.0)).0.em)
          (cold_apply wants now (here_at x) e).1
          (each_auto wants now (cold_apply wants now (here_at x) e).0 g).1 m.1
          (rest (progress m.0)).1 a.1
          (ap (λ (q : Sequencer). l.pending m.0.em ++ spread (each_auto wants now q g).1) a.0
            ∙ r.calls);
    used = r.used;
  }

  dup-IsRun :
      (x x' : Scan E) (e : FrameEntry) (g : List FrameEntry) (m : Log (Scan E))
      → cold_apply wants now (here_at x) e ≡ done (here_at x')
      → x'.em ≡ x.em
      → IsRun x' g m
      → IsRun x (e ∷ g) m
  unfolding each_auto
  dup-IsRun x x' e g m a same r = record {
    ends = ap (λ (q : Log Sequencer). (each_auto wants now q.0 g).0) a ∙ r.ends;
    calls =
        ap (λ (q : Log Sequencer). l.pending x.em ++ spread (q.1 ++ (each_auto wants now q.0 g).1))
          a
        ∙ ap (λ em. l.pending em ++ spread (each_auto wants now (here_at x') g).1) (sym same)
        ∙ r.calls;
    used = r.used;
  }

  pub pair_steps-IsRun :
      (f0 f1 : ℕ) (g : List FrameEntry) (x : Scan E)
      → Pairs (env wants now s l steady) f0 f1 x.w g
      → Used wants now s l steady x.em
      → IsRun x g (pair_steps emit (env wants now s l steady) g x)
  unfolding pair_steps
  pair_steps-IsRun f0 f1 [] x p u = done-IsRun x u
  pair_steps-IsRun f0 f1 (a ∷ []) x p u = absurd p
  pair_steps-IsRun f0 f1 (a ∷ b ∷ es) x p u =
      let c = p.0 in
      let m =
        apply_steady emit (env wants now s l steady) (count_of a) (a.first_seq + (count_of a - 1)) a
          x in
      let adv =
        advanced-Agrees wants now s l steady x a c.indexed_a u c.lo_a c.hi_a c.first_a c.memo_a in
      let x1 : Scan E = progress m.0 in
      let x2 : Scan E = skip_steady (count_of b) b x1 in
      let w2 : x2.w ≡ add64 x.w (count_of a) =
        (unfold apply_steady in pair_watermark emit (env wants now s l steady) f0 f1 a b x.w c) in
      let below : ltb (b.first_seq + (count_of b - 1)) x1.w ≡ true =
        lt→ltb _ _ (
          omega
            (arith, c.first_a, c.first_b, c.shorter, c.indexed_a.bound, c.indexed_b.nonempty)) in
      let ih =
        pair_steps-IsRun f0 f1 es x2
          (subst (λ (w : ℕ). Pairs (env wants now s l steady) f0 f1 w es) (sym w2) p.1) adv.2 in
      advanced-IsRun x a (b ∷ es) m
        (λ x'. pair_steps emit (env wants now s l steady) es (skip_steady (count_of b) b x')) adv
        (dup-IsRun x1 x2 b es _
          (dup-Agrees wants now s l steady x1 b c.indexed_b c.lo_b c.hi_b below) refl ih)

  abbrev pub live : ScanEnv
  live = env wants now s l steady

  -- A group's result, with the scan marked as progressed.
  abbrev pub marked : Log (Scan E) → Log (Scan E)
  marked m = (progress m.0, m.1)

  group-IsRun :
      (half : ℕ) (a b : FrameEntry) (es : List FrameEntry) (x : Scan E)
      → half ≡ suc (half_of es)
      → Pairs live (elig_feed a.elig) (elig_feed b.elig) x.w (a ∷ b ∷ es)
      → Used wants now s l steady x.em
      → IsRun x (a ∷ b ∷ es) (marked (apply_group emit live half (a ∷ b ∷ es) x))
  unfolding apply_group
  group-IsRun half a b es x h p u =
      let f0 = elig_feed a.elig in
      let f1 = elig_feed b.elig in
      rw h (
        subst (IsRun x (a ∷ b ∷ es)) (pair_steps-eq-group emit live f0 f1 a b es x p)
          (pair_steps-IsRun f0 f1 (a ∷ b ∷ es) x p u))

  -- A fast path that takes entries: `k` of them, and they are run.
  pub record IsTaken (x : Scan E) (es : List FrameEntry) (k : ℕ) (m : Log (Scan E)) : Type 0 where
    pub taken : List FrameEntry
    pub left : List FrameEntry
    pub split : es ≡ taken ++ left
    pub size : length taken ≡ k
    pub run : IsRun x taken (marked m)

  abbrev pub Right : Scan E → List FrameEntry → Option (ℕ × Log (Scan E)) → Type 0
  Right x es none = Unit
  Right x es (some (k, m)) = IsTaken x es k m × (0 < k)

  module _ (lo hi : ℕ) (x : Scan E) (u : Used wants now s l steady x.em) where
    pub group8-Right :
        (es : List FrameEntry)
        → All (IsPublished lo hi) es
        → 8 ≤ length es
        → Right x es (taking 8 (ladder_group_apply emit live ladder8_scalar es x))
    unfolding ladder_group_apply
    group8-Right (e0 ∷ e1 ∷ e2 ∷ e3 ∷ e4 ∷ e5 ∷ e6 ∷ e7 ∷ es) p h =
        let g : List FrameEntry = e0 ∷ e1 ∷ e2 ∷ e3 ∷ e4 ∷ e5 ∷ e6 ∷ e7 ∷ [] in
        let P : Option (Log (Scan E)) → Type 0 = λ o. Right x (g ++ es) (taking 8 o) in
        if-cases P (not (ladder8_scalar (firsts_of g) (counts_of g) x.w)) (λ a. tt)
          (λ a.
            if-cases P (not (group_elig live g)) (λ b. tt)
              (λ b.
                let q : All (IsPublished lo hi) g = All-take (IsPublished lo hi) 8 (g ++ es) p in
                (
                  record {
                    taken = g;
                    left = es;
                    split = refl;
                    size = refl;
                    run =
                        group-IsRun 4 e0 e1 (e2 ∷ e3 ∷ e4 ∷ e5 ∷ e6 ∷ e7 ∷ []) x refl
                          (group8-Pairs live lo hi x.w e0 e1 e2 e3 e4 e5 e6 e7 q (ground (arith, a))
                            (ground (arith, b)))
                          u;
                  },
                  omega arith,
                )))
    group8-Right es p h = absurd (omega arith)

    pub group16-Right :
        (es : List FrameEntry)
        → All (IsPublished lo hi) es
        → 16 ≤ length es
        → Right x es (taking 16 (ladder_group16_apply emit live ladder8_scalar es x))
    unfolding ladder_group16_apply
    group16-Right
          (e0 ∷ e1 ∷ e2 ∷ e3 ∷ e4 ∷ e5 ∷ e6 ∷ e7 ∷ d0 ∷ d1 ∷ d2 ∷ d3 ∷ d4 ∷ d5 ∷ d6 ∷ d7 ∷ es) p h =
        let a : List FrameEntry = e0 ∷ e1 ∷ e2 ∷ e3 ∷ e4 ∷ e5 ∷ e6 ∷ e7 ∷ [] in
        let b : List FrameEntry = d0 ∷ d1 ∷ d2 ∷ d3 ∷ d4 ∷ d5 ∷ d6 ∷ d7 ∷ [] in
        let g : List FrameEntry = a ++ b in
        let P : Option (Log (Scan E)) → Type 0 = λ o. Right x (g ++ es) (taking 16 o) in
        let w' : ℕ = add64 x.w (even_sum (counts_of g)) in
        if-cases P (not (ladder8_scalar (firsts_of g) (counts_of g) x.w)) (λ c. tt)
          (λ c.
            if-cases P (not (ladder8_scalar (firsts_of b) (counts_of b) w')) (λ d. tt)
              (λ d.
                if-cases P (not (group_elig live g)) (λ e. tt)
                  (λ e.
                    let q : All (IsPublished lo hi) g =
                      All-take (IsPublished lo hi) 16 (g ++ es) p in
                    (
                      record {
                        taken = g;
                        left = es;
                        split = refl;
                        size = refl;
                        run =
                            group-IsRun 8 e0 e1
                              (e2 ∷ e3 ∷ e4 ∷ e5 ∷ e6 ∷ e7 ∷ d0 ∷ d1 ∷ d2 ∷ d3 ∷ d4 ∷ d5 ∷ d6 ∷ d7
                                ∷ [])
                              x refl
                              (group16-Pairs live lo hi x.w e0 e1 e2 e3 e4 e5 e6 e7 d0 d1 d2 d3 d4
                                d5 d6 d7 q (ground (arith, c)) (ground (arith, d))
                                (ground (arith, e)))
                              u;
                      },
                      omega arith,
                    ))))
    group16-Right es p h = absurd (omega arith)
