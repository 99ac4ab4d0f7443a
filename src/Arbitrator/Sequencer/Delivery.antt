-- ===== src/Arbitrator/Sequencer/Delivery.antt =====
-- crates/nf-arbitrator/src/lib.rs: what one `ingest` delivers, and the invariant that it keeps.
use hft_proj.Prelude.{
  ℕ, zero, suc, ◌+◌, ◌-◌, ◌<◌, ◌≤◌, ◌≡◌, ◌≢◌, refl, ap, ◌∙◌, false, ◌&&◌, not, Option, none, some,
  if◌then◌else◌, leb, ◌==◌, Bytes, add64, u64, arith, if-cases, subst, max,
}
use hft_proj.Arbitrator.Types.{init, state_eq, no_mutation, LiveFeedProof, Log, ◌>>=◌, done}
use hft_proj.Arbitrator.Window.{clear_slots, drain}
use hft_proj.Arbitrator.Window.Slots.{IsWindow}
use hft_proj.Arbitrator.Window.Staging.{held}
use hft_proj.Arbitrator.Window.Clearing.{clear_slots-held}
use hft_proj.Arbitrator.Window.Draining.{drain-Drains, handed, nothing_held}
use hft_proj.Arbitrator.State.{Sequencer, check_gap_close}
use hft_proj.Arbitrator.State.Invariant.{
  IsSequencer, expect, expect-append, Delivers, done-Delivers,
}
use hft_proj.Arbitrator.State.Lifecycle.{check_gap_close-Delivers}
use hft_proj.Arbitrator.Sequencer.{
  is_clear_disabled, drain_window, clear_on_advance, settle, close_open, advance, retire_pending,
  after_staging,
}

-- Messages that a map holds are delivered in sequence.
expect-handed :
    (proof : LiveFeedProof) (m : ℕ → Option Bytes) (n w : ℕ)
    → ((j : ℕ) → w ≤ j → j < w + n → m j ≢ none)
    → expect w (handed proof m w n) ≡ some (w + n)
unfolding expect handed
expect-handed proof m zero w h = ground arith
expect-handed proof m (suc n) w h = ground (
  arith,
  h w (omega arith) (omega arith),
  expect-handed proof m n (w + 1) (λ j lo hi. h j (omega arith) (omega arith)),
)

-- A drain, as a step of the sequencer.
record DrainStep (s : Sequencer) (m : Log Sequencer) : Type 0 where
  window : IsWindow m.0.win
  vacant : held m.0.win m.0.w m.0.w ≡ none
  runs : expect s.w m.1 ≡ some m.0.w
  up : s.w ≤ m.0.w
  same_state : m.0.state ≡ s.state
  same_mutation : m.0.mutation ≡ s.mutation
  same_gap : (m.0.gap_active ≡ s.gap_active) × (m.0.evidence_hwm ≡ s.evidence_hwm)

drain_window-DrainStep :
    (now_ns : ℕ) (s : Sequencer)
    → IsWindow s.win
    → s.w + 4096 < u64
    → DrainStep s (drain_window now_ns s)
unfolding drain_window
drain_window-DrainStep now_ns s v room =
    let d = drain-Drains s.gen s.w v room in
    let w' : ℕ = (drain s.win s.w s.gen).w in
    let e : s.w + (w' - s.w) ≡ w' = omega (arith, d.up) in
    record {
      window = d.keeps;
      vacant = d.next_absent;
      runs = rw d.handed_over (
          expect-handed _ (held s.win s.w) (w' - s.w) s.w
            (λ j lo hi. d.each_held j lo (omega (arith, d.up)))
          ∙ ap some e);
      up = d.up;
      same_state = refl;
      same_mutation = refl;
      same_gap = (refl, refl);
    }

no_drain : (s : Sequencer) → IsWindow s.win → s.win.staged_count ≡ 0 → DrainStep s (done s)
unfolding expect
no_drain s v z = record {
  window = v;
  vacant = nothing_held s.win s.w s.w v z;
  runs = refl;
  up = omega arith;
  same_state = refl;
  same_mutation = refl;
  same_gap = (refl, refl);
}

module _ {s : Sequencer} {m : Log Sequencer} (d : DrainStep s m) (n : state_eq s.state init ≡ false)
    (p : s.mutation ≡ no_mutation) where
  close : Delivers m.0.w (check_gap_close m.0)
  close =
      check_gap_close-Delivers m.0 d.window d.vacant (ground (arith, d.same_state))
        (d.same_mutation ∙ p)

  -- The close where the flag is tested first.
  close_if : Delivers m.0.w (close_open m.0)
  close_if =
      if-cases (Delivers m.0.w) m.0.gap_active (λ g. close)
        (λ g. done-Delivers m.0 (record {
          window = d.window;
          vacant = d.vacant;
          gapped = λ e. cc;
          fresh = λ e. ground (arith, d.same_state);
          production = d.same_mutation ∙ p;
        }))

  then-Delivers : (f : Sequencer → Log Sequencer) → Delivers m.0.w (f m.0) → Delivers s.w (m >>= f)
  then-Delivers f q = record {
    keeps = q.keeps;
    runs = expect-append m.1 (f m.0).1 s.w m.0.w d.runs ∙ q.runs;
    up = omega (arith, d.up, q.up);
  }

settle-Delivers :
    (now_ns : ℕ) (s : Sequencer)
    → IsWindow s.win
    → state_eq s.state init ≡ false
    → s.mutation ≡ no_mutation
    → s.w + 4096 < u64
    → Delivers s.w (settle now_ns s)
unfolding settle
settle-Delivers now_ns s v n p room =
    if-cases (λ m. Delivers s.w (m >>= close_open)) (s.win.staged_count == 0)
      (λ z. let d = no_drain s v (ground arith) in then-Delivers d n p close_open (close_if d n p))
      (λ z.
        let d = drain_window-DrainStep now_ns s v room in
        then-Delivers d n p close_open (close_if d n p))

-- The watermark moves past `last`, and on past what is staged there.
pub advance-Delivers :
    (last now_ns : ℕ) (s : Sequencer)
    → IsWindow s.win
    → state_eq s.state init ≡ false
    → s.mutation ≡ no_mutation
    → s.w ≤ last
    → last + 8192 < u64
    → Delivers (last + 1) (advance last now_ns s)
unfolding advance clear_on_advance
advance-Delivers last now_ns s v n p up room =
    let e : add64 last 1 ≡ last + 1 = omega arith in
    let x : Sequencer = record s { w = add64 last 1; progress_vt = now_ns } in
    let y : Sequencer = record x { win = clear_slots s.win s.w (add64 last 1) } in
    let c : IsWindow (clear_slots s.win s.w (add64 last 1)) =
      rw e (clear_slots-held s.w (last + 1) v (omega arith) (omega arith)).0 in
    if-cases
      (λ (x : Sequencer). Delivers (last + 1) (settle now_ns (record x { progress_vt = now_ns })))
      (not (s.win.staged_count == 0) && not (is_clear_disabled s.mutation)) (λ _. from y e n p c)
      (λ _. from x e n p v)
  where
    from :
        (x : Sequencer)
        → x.w ≡ last + 1
        → state_eq x.state init ≡ false
        → x.mutation ≡ no_mutation
        → IsWindow x.win
        → Delivers (last + 1) (settle now_ns x)
    from x e n p v =
        subst (λ (k : ℕ). Delivers k (settle now_ns x)) e
          (settle-Delivers now_ns x v n p (omega arith))

pub after_staging-Delivers :
    (last now_ns : ℕ) (s : Sequencer)
    → IsSequencer s
    → state_eq s.state init ≡ false
    → s.w + 4096 < u64
    → Delivers s.w (after_staging last now_ns s)
unfolding after_staging
after_staging-Delivers last now_ns s i n room =
    if-cases
      (λ (x : Sequencer). Delivers s.w (do
        s3 ←
            drain_window now_ns
              (record x { win = record (x.win) { max_staged = max x.win.max_staged last } })
        check_gap_close s3))
      (leb (add64 s.w 1024) last)
      (λ a.
        step _ (record { counted = i.window.counted; small = i.window.small }) n i.production room)
      (λ a.
        step _ (record { counted = i.window.counted; small = i.window.small }) n i.production room)
  where
    step :
        (x : Sequencer)
        → IsWindow x.win
        → state_eq x.state init ≡ false
        → x.mutation ≡ no_mutation
        → x.w + 4096 < u64
        → Delivers x.w (drain_window now_ns x >>= check_gap_close)
    step x v n p room =
        let d = drain_window-DrainStep now_ns x v room in
        then-Delivers d n p check_gap_close (close d n p)

pub retire_pending-Delivers :
    (s : Sequencer) → IsSequencer s → Delivers s.w (done (retire_pending s))
unfolding retire_pending
retire_pending-Delivers s i =
    elim s.pending_to
      as (λ o. Delivers s.w (
        done (elim o [
          | none ↦ s
          | some p ↦ if leb p s.w then record s { pending_to = none } else s
        ]))) [
          | none ↦ done-Delivers s i
          | some p ↦
              if-cases (λ x. Delivers s.w (done x)) (leb p s.w)
                (λ a. done-Delivers _ (record {
                  window = i.window;
                  vacant = i.vacant;
                  gapped = i.gapped;
                  fresh = i.fresh;
                  production = i.production;
                }))
                (λ a. done-Delivers s i)
        ]
