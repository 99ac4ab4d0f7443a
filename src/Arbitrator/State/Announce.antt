-- ===== src/Arbitrator/State/Announce.antt =====
-- crates/nf-arbitrator/src/session.rs: what the frames without blocks announce, heartbeats and ends of
-- session.
use hft_proj.Prelude.{
  max, some, add64, ◌&&◌, not, ℕ, ◌≤◌, ◌≡◌, ◌⊎◌, inl, inr, refl, ◌↔◌, Bool, true, false, [], ◌∷◌,
  arith, leb, ltb, if◌then◌else◌, Bool-cases,
}
use hft_proj.Protocol.Moldudp64.{Header}
use hft_proj.Arbitrator.Types.{
  gap_opened, on_event, end_of_session, state_eq, init, ended, dead, eos_persist,
}
use hft_proj.Arbitrator.State.{Sequencer, handle_heartbeat, handle_eos, gap_evidence}

-- Where the session is neither dead nor ended, an end of session tells the sink of the end, with the
-- watermark and the announced number, exactly if the session has no anchor yet or the watermark has
-- reached the announced number.
pub handle_eos_iff :
    (s : Sequencer) (hdr : Header)
    → state_eq s.state dead ≡ false
    → state_eq s.state ended ≡ false
    → ((handle_eos s hdr).1 ≡ on_event (end_of_session s.session s.w hdr.seq) ∷ [])
      ↔ ((state_eq s.state init ≡ true) ⊎ (hdr.seq ≤ s.w))
unfolding handle_eos
handle_eos_iff s hdr d e = elim (Bool-cases (state_eq s.state init)) [
  | inl i ↦ simp (d, e, i) (λ _. inl refl, λ _. refl)
  | inr i ↦ elim (Bool-cases (leb hdr.seq s.w)) [
    | inl le ↦
        let past : ltb s.w hdr.seq ≡ false = ground arith in
        elim (Bool-cases (state_eq s.state eos_persist)) [
          | inl p ↦ simp (d, e, i, p, le) (λ _. inr (ground arith), λ _. refl)
          | inr p ↦ simp (d, e, i, p, past) (λ _. inr (ground arith), λ _. refl)
        ]
    | inr gt ↦
        let short : ltb s.w hdr.seq ≡ true = ground arith in
        let never : (false ≡ true) ⊎ (hdr.seq ≤ s.w) → ⊥ = λ h. ground (arith, h) in
        elim (Bool-cases (state_eq s.state eos_persist)) [
          | inl p ↦ simp (d, e, i, p, gt) (λ h. cc, λ h. absurd (never (h)))
          | inr p ↦ simp (d, e, i, p, short) (λ h. cc, λ h. absurd (never (h)))
        ]
  ]
]

-- Where the session is past its anchor and neither dead nor ended, a heartbeat leaves a gap open exactly
-- if one was open or it announces a number past the watermark, and it makes a call, the event of the
-- opening with the new generation, exactly if it opens one; a number past the watermark is noted with
-- its time, and as evidence, the larger one where a gap was open; the watermark and the window stay.
pub handle_heartbeat-gap :
    (s : Sequencer) (seq now_ns : ℕ)
    → state_eq s.state dead ≡ false
    → state_eq s.state init ≡ false
    → state_eq s.state ended ≡ false
    → let s' : Sequencer = (handle_heartbeat s seq now_ns).0 in
      let opens : Bool = not s.gap_active && ltb s.w seq in
      let gen : ℕ = add64 s.gen 1 in
      (s'.gap_active ≡ (if s.gap_active then true else ltb s.w seq))
      × ((handle_heartbeat s seq now_ns).1
          ≡ (if opens then on_event (gap_opened s.w (some seq) gen) ∷ [] else []))
      × (s'.gen ≡ (if opens then gen else s.gen))
      × (s'.evidence_hwm ≡ (
          if ltb s.w seq
          then (if s.gap_active then max s.evidence_hwm seq else seq)
          else s.evidence_hwm))
      × (s'.hb_seq ≡ (if ltb s.w seq then seq else s.hb_seq))
      × (s'.hb_vt ≡ (if ltb s.w seq then now_ns else s.hb_vt))
      × (s'.w ≡ s.w)
      × (s'.win ≡ s.win)
unfolding handle_heartbeat gap_evidence
handle_heartbeat-gap s seq now_ns d i e = elim (Bool-cases (ltb s.w seq)) [
  | inl a ↦ elim (Bool-cases s.gap_active) [
    | inl g ↦ simp (d, i, e, a, g) (refl, refl, refl, refl, refl, refl, refl, refl)
    | inr g ↦ simp (d, i, e, a, g) (refl, refl, refl, refl, refl, refl, refl, refl)
  ]
  | inr a ↦ elim (Bool-cases s.gap_active) [
    | inl g ↦ simp (d, i, e, a, g) (refl, refl, refl, refl, refl, refl, refl, refl)
    | inr g ↦ simp (d, i, e, a, g) (refl, refl, refl, refl, refl, refl, refl, refl)
  ]
]
