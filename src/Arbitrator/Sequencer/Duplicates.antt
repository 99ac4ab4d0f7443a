-- ===== src/Arbitrator/Sequencer/Duplicates.antt =====
-- crates/nf-arbitrator/src/lib.rs: the second copy of a frame, as the other feed brings it.
use hft_proj.Prelude.{
  ℕ, ◌+◌, ◌<◌, ◌≤◌, ◌≡◌, ◌⊎◌, inl, inr, refl, true, false, ◌&&◌, not, none, some, List, [], arith,
  Bytes, if-cases, if◌then◌else◌, ltb, leb, lt→ltb, ◌==◌, add64, sub64, u64, min, Result, ok, err,
}
use hft_proj.Protocol.Packet.{PacketError, ingest_walk}
use hft_proj.Arbitrator.Types.{Call, Log, done, state_eq, init}
use hft_proj.Arbitrator.Counters.{on_feed}
use hft_proj.Arbitrator.Window.{clear_slots}
use hft_proj.Arbitrator.State.{Sequencer, check_gap_close}
use hft_proj.Arbitrator.State.Invariant.{IsSequencer, counted-IsSequencer}
use hft_proj.Arbitrator.Sequencer.{
  is_clear_disabled, drain_window, clear_on_advance, close_open, settle, advance, retire_pending,
  finish_contig, violate, skip_prefix, add_dups, add_emitted, emit_valid, apply_contig, ingest_data,
  skip_duplicate,
}
use hft_proj.Arbitrator.Sequencer.Delivery.{advance-Delivers}

abbrev Anchored : Sequencer → Type 0
Anchored s = state_eq s.state init ≡ false

check_gap_close-Anchored : (s : Sequencer) → Anchored s → Anchored (check_gap_close s).0
unfolding check_gap_close
check_gap_close-Anchored s n =
    if-cases (λ (m : Log Sequencer). Anchored m.0) (s.gap_active && leb s.evidence_hwm s.w)
      (λ _. refl) (λ _. n)

close_open-Anchored : (s : Sequencer) → Anchored s → Anchored (close_open s).0
close_open-Anchored s n =
    if-cases (λ (m : Log Sequencer). Anchored m.0) s.gap_active (λ _. check_gap_close-Anchored s n)
      (λ _. n)

settle-Anchored : (now_ns : ℕ) (s : Sequencer) → Anchored s → Anchored (settle now_ns s).0
unfolding settle drain_window
settle-Anchored now_ns s n =
    if-cases (λ (m : Log Sequencer). Anchored (close_open m.0).0) (s.win.staged_count == 0)
      (λ _. close_open-Anchored s n) (λ _. close_open-Anchored (drain_window now_ns s).0 n)

advance-Anchored :
    (last now_ns : ℕ) (s : Sequencer) → Anchored s → Anchored (advance last now_ns s).0
unfolding advance clear_on_advance
advance-Anchored last now_ns s n =
    if-cases (λ (x : Sequencer). Anchored (settle now_ns (record x { progress_vt = now_ns })).0)
      (not (s.win.staged_count == 0) && not (is_clear_disabled s.mutation))
      (λ _.
        settle-Anchored now_ns
          (record s {
            w = add64 last 1;
            win = clear_slots s.win s.w (add64 last 1);
            progress_vt = now_ns;
          })
          n)
      (λ _. settle-Anchored now_ns (record s { w = add64 last 1; progress_vt = now_ns }) n)

retire_pending_same :
    (s : Sequencer) → ((retire_pending s).w ≡ s.w) × ((retire_pending s).state ≡ s.state)
unfolding retire_pending
retire_pending_same s =
    let P : Sequencer → Type 0 = λ x. (x.w ≡ s.w) × (x.state ≡ s.state) in
    elim s.pending_to
      as (λ o.
        P (elim o [
          | none ↦ s
          | some p ↦ if leb p s.w then record s { pending_to = none } else s
        ])) [
          | none ↦ (refl, refl)
          | some p ↦ if-cases P (leb p s.w) (λ _. (refl, refl)) (λ _. (refl, refl))
        ]

-- The frame's last number is below the new watermark, or a violation was counted.
abbrev Covered : (last v : ℕ) → Log Sequencer → Type 0
Covered last v m = (Anchored m.0 × (last < m.0.w)) ⊎ (m.0.counters.total_violations ≡ add64 v 1)

finish_contig-Covered :
    (last now_ns : ℕ) (r : Result PacketError (Unit {0})) (calls : List Call) (s : Sequencer)
    → IsSequencer s
    → Anchored s
    → s.w ≤ last
    → last + 8192 < u64
    → Covered last s.counters.total_violations (finish_contig last now_ns r calls s)
unfolding finish_contig violate
finish_contig-Covered last now_ns (err e) calls s i n up room = inr refl
finish_contig-Covered last now_ns (ok u) calls s i n up room =
    let a = advance-Delivers last now_ns s i.window n i.production up room in
    let b = advance-Anchored last now_ns s n in
    let (ew, es) = retire_pending_same (advance last now_ns s).0 in
    inl (ground (arith, b, es), omega (arith, a.up, ew))

apply_contig-Covered :
    (frame : Bytes) (first last blocks now_ns : ℕ) (s : Sequencer)
    → IsSequencer s
    → Anchored s
    → first ≤ s.w
    → s.w ≤ last
    → last + 1 ≡ first + blocks
    → last + 8192 < u64
    → Covered last s.counters.total_violations (apply_contig frame first last blocks now_ns s)
unfolding apply_contig skip_prefix
apply_contig-Covered frame first last blocks now_ns s i n lo hi span room =
    let skip : ℕ = min (sub64 s.w first) blocks in
    let out = ingest_walk frame (emit_valid (record { gen = s.gen })) first blocks skip (0, []) in
    if-cases
      (λ x.
        Covered last s.counters.total_violations
          (finish_contig last now_ns out.0 out.1.1 (add_emitted out.1.0 x)))
      (skip == 0)
      (λ z.
        finish_contig-Covered last now_ns out.0 out.1.1 (add_emitted out.1.0 s)
          (counted-IsSequencer i) n hi room)
      (λ z.
        finish_contig-Covered last now_ns out.0 out.1.1 (add_emitted out.1.0 (add_dups skip s))
          (counted-IsSequencer i) n hi room)

-- What a pure duplicate does: no call, and no change but to the counters, of which those of the
-- duplicates count its blocks and those of the emitted messages and of the violations stay.
abbrev pub Ignored : (blocks : ℕ) → Sequencer → Log Sequencer → Type 0
Ignored blocks s m =
    (m.1 ≡ [])
    × (record (m.0) { counters = s.counters } ≡ s)
    × (m.0.counters.dup_msgs ≡ add64 s.counters.dup_msgs blocks)
    × (m.0.counters.msgs_emitted ≡ s.counters.msgs_emitted)
    × (m.0.counters.total_violations ≡ s.counters.total_violations)

ignored :
    (frame : Bytes) (feed now_ns first last blocks : ℕ) (x : Sequencer)
    → Anchored x
    → ltb last x.w ≡ true
    → Ignored blocks x (ingest_data frame feed now_ns first last blocks x)
unfolding ingest_data skip_duplicate on_feed
ignored frame feed now_ns first last blocks x a lt =
    simp (a, lt) (refl, refl, dups, emitted, violations)
  where
    dups :
        (done (skip_duplicate feed blocks x)).0.counters.dup_msgs ≡ add64 x.counters.dup_msgs blocks
    dups = ground arith

    emitted :
        (done (skip_duplicate feed blocks x)).0.counters.msgs_emitted ≡ x.counters.msgs_emitted
    emitted = ground arith

    violations :
        (done (skip_duplicate feed blocks x)).0.counters.total_violations
        ≡ x.counters.total_violations
    violations = ground arith

-- Under the invariant and past the anchor, once a data frame whose numbers reach the watermark has been
-- ingested without a violation, its second copy, on either feed and at any time, is a pure duplicate:
-- no call is made, and all but the counters stays as it is; its blocks are counted as duplicates, no
-- message as emitted and no violation. The frame's last number stays 8192 below the end of the 64-bit
-- range.
pub ingest_data_twice :
    (frame : Bytes) (feed feed' now_ns now_ns' first last blocks : ℕ) (s : Sequencer)
    → IsSequencer s
    → state_eq s.state init ≡ false
    → first ≤ s.w
    → s.w ≤ last
    → last + 1 ≡ first + blocks
    → last + 8192 < u64
    → let s' : Sequencer = (ingest_data frame feed now_ns first last blocks s).0 in
      Ignored blocks s' (ingest_data frame feed' now_ns' first last blocks s')
      ⊎ (s'.counters.total_violations ≡ add64 s.counters.total_violations 1)
unfolding ingest_data
ingest_data_twice frame feed feed' now_ns now_ns' first last blocks s i n lo hi span room =
    let b : ltb last s.w ≡ false = ground arith in
    let c : leb first s.w ≡ true = ground arith in
    simp (n, b, c)
      (again (apply_contig frame first last blocks now_ns s).0
        (apply_contig-Covered frame first last blocks now_ns s i n lo hi span room))
  where
    again :
        (x : Sequencer)
        → (Anchored x × (last < x.w))
          ⊎ (x.counters.total_violations ≡ add64 s.counters.total_violations 1)
        → Ignored blocks x (ingest_data frame feed' now_ns' first last blocks x)
          ⊎ (x.counters.total_violations ≡ add64 s.counters.total_violations 1)
    again x (inl (a, lt)) =
        inl (ignored frame feed' now_ns' first last blocks x a (lt→ltb last x.w lt))
    again x (inr e) = inr e
