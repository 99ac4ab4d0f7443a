-- ===== src/Arbitrator/Batch/Tallies.antt =====
-- crates/nf-arbitrator/src/lib.rs: the deferred counters of a scan, against the counting of one frame at
-- a time.
use hft_proj.Arbitrator.Steady.{
  progress, skip_steady, Scan, tally_emitted, tally_dups, tally_arrivals, zero_tally, Tally,
}
use hft_proj.Prelude.{
  ℕ, ◌%◌, ◌<◌, ◌≡◌, refl, ap, ◌∙◌, inl, inr, arith, length, add64, u64, ◌==◌, Bool-cases,
}
use hft_proj.Protocol.Packet.{FrameEntry}
use hft_proj.Arbitrator.Counters.{Counters, FeedCounters, on_feed}
use hft_proj.Arbitrator.State.{Sequencer}
use hft_proj.Arbitrator.Sequencer.{arrive, add_emitted, count_arrival, skip_duplicate}
use hft_proj.Arbitrator.Batch.{commit_tally, write_back, start_scan}
use hft_proj.Arbitrator.Batch.Contract.{AreBounded, IsBounded}

pub add64_assoc : (a b c : ℕ) → add64 (add64 a b) c ≡ add64 a (add64 b c)
add64_assoc a b c = omega arith

add64_zero : (a : ℕ) → a < u64 → add64 a 0 ≡ a
add64_zero a h = omega arith

abbrev dup_of : FeedCounters → FeedCounters
dup_of f = record f { dups = add64 f.dups 1 }

abbrev more_dups : ℕ → Counters → Counters
more_dups n c = record c { dup_msgs = add64 c.dup_msgs n }

abbrev more_emitted : ℕ → Counters → Counters
more_emitted n c = record c { msgs_emitted = add64 c.msgs_emitted n }

module _ (feed : ℕ) (t : Tally) (c : Counters) where
  arrive-commit :
      (n : ℕ)
      → on_feed feed (arrive n) (commit_tally t c) ≡ commit_tally (tally_arrivals feed 1 n t) c
  unfolding on_feed commit_tally tally_arrivals
  arrive-commit n = elim (Bool-cases (feed % 2 == 0)) [
    | inl e ↦ simp (e, add64_assoc) refl
    | inr e ↦ simp (e, add64_assoc) refl
  ]

  dups-commit :
      (n : ℕ)
      → more_dups n (on_feed feed dup_of (commit_tally t c))
        ≡ commit_tally (tally_dups feed 1 n t) c
  unfolding on_feed commit_tally tally_dups
  dups-commit n = elim (Bool-cases (feed % 2 == 0)) [
    | inl e ↦ simp (e, add64_assoc) refl
    | inr e ↦ simp (e, add64_assoc) refl
  ]

emitted-commit :
    (n : ℕ) (t : Tally) (c : Counters)
    → more_emitted n (commit_tally t c) ≡ commit_tally (tally_emitted n t) c
unfolding commit_tally
emitted-commit n t c = rw (add64_assoc c.msgs_emitted t.emitted n) refl

zero-commit : (c : Counters) → AreBounded c → commit_tally zero_tally c ≡ c
unfolding commit_tally
zero-commit c h =
    simp
      (
        add64_zero c.feed_a.packets h.packets_a,
        add64_zero c.feed_b.packets h.packets_b,
        add64_zero c.feed_a.bytes h.bytes_a,
        add64_zero c.feed_b.bytes h.bytes_b,
        add64_zero c.feed_a.dups h.dups_a,
        add64_zero c.feed_b.dups h.dups_b,
        add64_zero c.dup_msgs h.dup_msgs,
        add64_zero c.msgs_emitted h.msgs_emitted,
      )
      refl

-- A scan that has done nothing writes nothing back.
pub start-write_back :
    {E : Type 0} (em : E) (now : ℕ) (s : Sequencer)
    → IsBounded s
    → write_back now (start_scan em s.w) s ≡ s
unfolding write_back
start-write_back em now s h =
    ap (λ (c : Counters). record s { counters = c }) (zero-commit s.counters h.counters)

module _ {E : Type 0} (x : Scan E) (now : ℕ) (s : Sequencer) (e : FrameEntry) (n : ℕ) where
  -- A duplicate counted by the classic path is one counted by the scan.
  pub skip-write_back :
      skip_duplicate e.feed n (count_arrival e.bytes e.feed (write_back now x s))
      ≡ write_back now (skip_steady n e x) s
  unfolding write_back skip_duplicate count_arrival
  skip-write_back =
      let a = arrive-commit e.feed x.tally s.counters (length e.bytes) in
      let b = dups-commit e.feed (tally_arrivals e.feed 1 (length e.bytes) x.tally) s.counters n in
      ap (λ (c : Counters). record (write_back now x s) { counters = c })
        (ap (λ (c : Counters). more_dups n (on_feed e.feed dup_of c)) a ∙ b)

  -- So is a contiguous frame.
  pub apply-write_back :
      (w' : ℕ) (em' : E)
      → record (add_emitted n (count_arrival e.bytes e.feed (write_back now x s))) {
        w = w';
        progress_vt = now;
      }
        ≡ write_back now
            (progress (record x {
              w = w';
              tally = tally_emitted n (tally_arrivals e.feed 1 (length e.bytes) x.tally);
              em = em';
            }))
            s
  unfolding write_back count_arrival
  apply-write_back w' em' =
      let a = arrive-commit e.feed x.tally s.counters (length e.bytes) in
      let b = emitted-commit n (tally_arrivals e.feed 1 (length e.bytes) x.tally) s.counters in
      ap (λ (c : Counters). record (write_back now x s) { counters = c; w = w'; progress_vt = now })
        (ap (more_emitted n) a ∙ b)
