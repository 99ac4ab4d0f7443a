-- ===== src/Arbitrator/Sequencer/Staged.antt =====
-- crates/nf-arbitrator/src/lib.rs: the gap path's walk of `ingest`, which stages a frame's messages.
use hft_proj.Prelude.{
  ℕ, zero, suc, ◌+◌, ◌-◌, ◌<◌, ◌≤◌, ◌≡◌, refl, ◌∙◌, false, ltb, Bytes, add64, u64, arith, if-cases,
  length, slice, Result, ok, err,
}
use hft_proj.Protocol.Itch5.{ItchError, validate}
use hft_proj.Protocol.Itch5.Table.{validate_bounds}
use hft_proj.Protocol.Packet.{
  PacketError, visit, continue, has_block, block_end, walk_from, ingest_walk,
}
use hft_proj.Arbitrator.Types.{init, state_eq}
use hft_proj.Arbitrator.Window.{stage_msg}
use hft_proj.Arbitrator.Window.Staging.{stage_msg-held}
use hft_proj.Arbitrator.State.{Sequencer}
use hft_proj.Arbitrator.State.Invariant.{IsSequencer}
use hft_proj.Arbitrator.Sequencer.{stage_valid, stage_or_drop}

-- Staging keeps the invariant, the watermark, the state and the count of violations.
pub record Stages (s s' : Sequencer) : Type 0 where
  pub keeps : IsSequencer s'
  pub same_w : s'.w ≡ s.w
  pub same_state : s'.state ≡ s.state
  pub same_violations : s'.counters.total_violations ≡ s.counters.total_violations

Stages-refl : {s : Sequencer} → IsSequencer s → Stages s s
Stages-refl i = record { keeps = i; same_w = refl; same_state = refl; same_violations = refl }

Stages-trans : {a b c : Sequencer} → Stages a b → Stages b c → Stages a c
Stages-trans p q = record {
  keeps = q.keeps;
  same_w = q.same_w ∙ p.same_w;
  same_state = q.same_state ∙ p.same_state;
  same_violations = q.same_violations ∙ p.same_violations;
}

module _ {s : Sequencer} (clamp : ℕ) (room : s.w + 1024 < u64)
    (past : state_eq s.state init ≡ false) (reach : clamp ≡ s.w + 1024) where
  stage_or_drop-Stages :
      (seq : ℕ) (msg : Bytes)
      → IsSequencer s
      → length msg ≤ 64
      → s.w < seq
      → Stages s (stage_or_drop clamp seq msg s)
  unfolding stage_or_drop
  stage_or_drop-Stages seq msg i small above =
      if-cases (Stages s) (ltb seq clamp)
        (λ below.
          let (flag, v, h) = stage_msg-held s.w seq msg i.window small above (ground arith) room in
          if-cases (Stages s) (stage_msg s.win s.w seq msg).0
            (λ f. record {
              keeps = record {
                window = v;
                vacant = ground (arith, h s.w, i.vacant);
                gapped = i.gapped;
                fresh = λ e. cc;
                production = i.production;
              };
              same_w = refl;
              same_state = refl;
              same_violations = refl;
            })
            (λ f. cc))
        (λ beyond. record {
          keeps = record {
            window = i.window;
            vacant = i.vacant;
            gapped = i.gapped;
            fresh = λ e. cc;
            production = i.production;
          };
          same_w = refl;
          same_state = refl;
          same_violations = refl;
        })

pub stage_valid_ok :
    (clamp seq : ℕ) (msg : Bytes) (s : Sequencer) (u : Unit {0})
    → validate msg ≡ ok u
    → stage_valid clamp seq msg s ≡ (ok tt, stage_or_drop clamp seq msg s)
unfolding stage_valid
stage_valid_ok clamp seq msg s u h = rw (h, stage_valid)

pub stage_valid_err :
    (clamp seq : ℕ) (msg : Bytes) (s : Sequencer) (x : ItchError)
    → validate msg ≡ err x
    → stage_valid clamp seq msg s ≡ (err x, s)
unfolding stage_valid
stage_valid_err clamp seq msg s x h = rw (h, stage_valid)

-- The walk over any frame, where all its numbers are past the watermark.
walk_from-Stages :
    (count : ℕ) (frame : Bytes) {s : Sequencer} (clamp pos seq : ℕ)
    → IsSequencer s
    → state_eq s.state init ≡ false
    → s.w + 1024 < u64
    → clamp ≡ s.w + 1024
    → s.w < seq
    → seq + count < u64
    → Stages s (walk_from frame (stage_valid clamp) pos seq count 0 s).1
unfolding walk_from continue visit
walk_from-Stages zero frame clamp pos seq i n room reach above bound = Stages-refl i
walk_from-Stages (suc count) frame {s} clamp pos seq i n room reach above bound =
    let next : ℕ = block_end frame pos in
    let msg : Bytes = slice frame (pos + 2) next in
    if-cases (λ (r : Result PacketError (Unit {0}) × Sequencer). Stages s r.1) (has_block frame pos)
      (λ present. one msg (validate msg) refl (λ s' t.
        let e : add64 seq 1 ≡ seq + 1 = omega arith in
        let e' : 0 - 1 ≡ 0 = omega arith in
        rw (e, e')
          (Stages-trans t (
            walk_from-Stages count frame clamp next (seq + 1) t.keeps (ground (arith, t.same_state))
              (omega (arith, t.same_w)) (omega (arith, t.same_w)) (omega (arith, t.same_w))
              (omega arith)))))
      (λ absent. Stages-refl i)
  where
    one :
        (msg : Bytes) (r : Result ItchError (Unit {0}))
        → validate msg ≡ r
        → ((s' : Sequencer)
            → Stages s s'
            → Stages s
                (walk_from frame
                  (stage_valid clamp)
                  (block_end frame pos)
                  (add64 seq 1)
                  count
                  (0 - 1)
                  s').1)
        → Stages s
            (continue (stage_valid clamp seq msg s) (λ s'.
              walk_from frame
                (stage_valid clamp)
                (block_end frame pos)
                (add64 seq 1)
                count
                (0 - 1)
                s')).1
    one msg (ok u) e k = rw (stage_valid_ok clamp seq msg s u e) (
        k _ (
          stage_or_drop-Stages clamp room n reach seq msg i (omega (arith, validate_bounds msg e))
            above))
    one msg (err x) e k = rw (stage_valid_err clamp seq msg s x e) (Stages-refl i)

pub ingest_walk-Stages :
    (count : ℕ) (frame : Bytes) {s : Sequencer} (clamp seq : ℕ)
    → IsSequencer s
    → state_eq s.state init ≡ false
    → s.w + 1024 < u64
    → clamp ≡ s.w + 1024
    → s.w < seq
    → seq + count < u64
    → Stages s (ingest_walk frame (stage_valid clamp) seq count 0 s).1
unfolding ingest_walk
ingest_walk-Stages count frame clamp seq i n room reach above bound =
    walk_from-Stages count frame clamp 20 seq i n room reach above bound
