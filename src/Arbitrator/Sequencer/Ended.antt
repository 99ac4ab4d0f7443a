-- ===== src/Arbitrator/Sequencer/Ended.antt =====
-- crates/nf-arbitrator/src/lib.rs: `ingest` once a session is sealed or has ended.
use hft_proj.Arbitrator.Counters.{Counters}
use hft_proj.Prelude.{
  arith, if◌then◌else◌, ◌&&◌, not, Bool, ℕ, ◌≡◌, refl, true, false, [], ◌==◌, Bytes, Bool-cases,
  add64, inl, inr,
}
use hft_proj.Protocol.Moldudp64.{Header, heartbeat_count, eos_count}
use hft_proj.Arbitrator.Types.{init, no_mutation, Log, dead, ended, state_eq}
use hft_proj.Arbitrator.State.{count_eos_dup, handle_eos, handle_heartbeat, Sequencer}
use hft_proj.Arbitrator.Sequencer.{is_eos_drop, done, classify, reject_after_eos}

-- What a sealed sequencer does with any frame: it makes no call and stays as it is but for its counters.
abbrev pub Still : Sequencer → Log Sequencer → Type 0
Still s m =
    (m.1 ≡ [])
    × (m.0.state ≡ s.state)
    × (m.0.w ≡ s.w)
    × (m.0.session ≡ s.session)
    × (m.0.win ≡ s.win)
    × (m.0.gap_active ≡ s.gap_active)

handle_heartbeat_ended :
    (s : Sequencer) (seq now_ns : ℕ)
    → s.state ≡ ended
    → handle_heartbeat s seq now_ns
      ≡ done (record s {
        counters = record (s.counters) { heartbeats = add64 s.counters.heartbeats 1 };
      })
unfolding handle_heartbeat
handle_heartbeat_ended s seq now_ns e =
    let d : state_eq s.state dead ≡ false = rw e refl in
    let i : state_eq s.state init ≡ false = rw e refl in
    let l : state_eq s.state ended ≡ true = rw e refl in simp (d, i, l) refl

handle_eos_ended :
    (s : Sequencer) (hdr : Header) → s.state ≡ ended → handle_eos s hdr ≡ done (count_eos_dup s)
unfolding handle_eos
handle_eos_ended s hdr e =
    let d : state_eq s.state dead ≡ false = rw e refl in
    let l : state_eq s.state ended ≡ true = rw e refl in simp (d, l) refl

-- After the end of its session a production sequencer makes no call for a frame of that session,
-- whatever its header, and stays as it is but for its counters: a heartbeat is counted, a further end of
-- session is counted as a duplicate, and any other frame is counted as data after the end, and
-- as a violation.
pub classify_ended :
    (s : Sequencer) (frame : Bytes) (feed now_ns : ℕ) (hdr : Header)
    → s.state ≡ ended
    → s.mutation ≡ no_mutation
    → let m : Log Sequencer = classify frame feed now_ns hdr s in
      let is_beat : Bool = hdr.count == heartbeat_count in
      let is_data : Bool = not is_beat && not (hdr.count == eos_count) in
      let c : Counters = s.counters in
      (m.1 ≡ [])
      × (record (m.0) { counters = c } ≡ s)
      × (m.0.counters.heartbeats ≡ (if is_beat then add64 c.heartbeats 1 else c.heartbeats))
      × (m.0.counters.eos_dup ≡ (if hdr.count == eos_count then add64 c.eos_dup 1 else c.eos_dup))
      × (m.0.counters.data_after_eos
          ≡ (if is_data then add64 c.data_after_eos 1 else c.data_after_eos))
      × (m.0.counters.total_violations
          ≡ (if is_data then add64 c.total_violations 1 else c.total_violations))
unfolding classify reject_after_eos
classify_ended s frame feed now_ns hdr e p = elim (Bool-cases (hdr.count == heartbeat_count)) [
  | inl h ↦
      let n : (hdr.count == eos_count) ≡ false = ground arith in
      simp (h, n, handle_heartbeat_ended s hdr.seq now_ns e) (refl, refl, refl, refl, refl, refl)
  | inr h ↦ elim (Bool-cases (hdr.count == eos_count)) [
    | inl n ↦
        let k : is_eos_drop s.mutation ≡ false = rw p refl in
        simp (h, n, k, handle_eos_ended s hdr e) (refl, refl, refl, refl, refl, refl)
    | inr n ↦
        let l : state_eq s.state ended ≡ true = rw e refl in
        simp (h, n, l) (refl, refl, refl, refl, refl, refl)
  ]
]
