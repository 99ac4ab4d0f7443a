-- ===== src/Arbitrator/Intent/Bounds.antt =====
-- crates/nf-arbitrator/src/intent.rs: what an intent asks for, and when one goes out.
use hft_proj.Prelude.{
  ◌∙◌, ℕ, ◌+◌, ◌-◌, ◌<◌, ◌≤◌, ◌≡◌, ◌≢◌, ◌⊎◌, inl, inr, true, none, some, arith, u64, Option-cases,
  if◌then◌else◌, min, add64, Bool-cases, refl,
}
use hft_proj.Arbitrator.Types.{RecoveryIntent}
use hft_proj.Arbitrator.State.{Sequencer}
use hft_proj.Arbitrator.Intent.{
  recovery_intent, resuggest_due, staged_trigger, heartbeat_trigger, intend,
}

-- One request past the watermark stays below 2^64, and so does an outstanding intent, which ends
-- within one request of the watermark.
pub record CanIntend (s : Sequencer) : Type 0 where
  pub room : s.w + 65535 < u64
  pub pending : (p : ℕ) → s.pending_to ≡ some p → p ≤ s.w + 65535

-- Where an intent can ask for nothing: what it would reach for is not past the watermark.
abbrev pub Spent : Sequencer → (to_excl : ℕ) → Type 0
Spent s to_excl =
    ((s.win.staged_count ≢ 0) × (to_excl ≡ s.win.max_staged) ⊎ (s.pending_to ≡ some to_excl))
    × (to_excl ≤ s.w)

-- Where one request past the watermark stays below 2^64 and an outstanding intent ends within one
-- request of the watermark, an intent starts at the watermark, ends at most 65535 past it, becomes
-- the outstanding one, dated now, and changes neither the watermark nor the window. It asks for a message
-- at least, unless it reaches for a staged maximum or for the end of the outstanding intent and
-- this is not past the watermark.
pub recovery_intent_bounds :
    {s : Sequencer} (now_ns : ℕ) {i : RecoveryIntent}
    → CanIntend s
    → (recovery_intent s now_ns).1 ≡ some i
    → let s' = (recovery_intent s now_ns).0 in
      (i.from ≡ s.w)
      × ((s.w < i.to_excl) ⊎ Spent s i.to_excl)
      × (i.to_excl ≤ s.w + 65535)
      × (s'.pending_to ≡ some i.to_excl)
      × (s'.last_intent_vt ≡ now_ns)
      × (s'.w ≡ s.w)
      × (s'.win ≡ s.win)
unfolding recovery_intent resuggest_due
recovery_intent_bounds {s} now_ns {i} c e = elim (Option-cases s.pending_to) [
  | inl none_out ↦ ground (arith, c.room)
  | inr (p, out) ↦ ground (arith, c.room, c.pending p out)
]

intent_dated :
    (s : Sequencer) (now_ns : ℕ) (i : RecoveryIntent)
    → (recovery_intent s now_ns).1 ≡ some i
    → let s' = (recovery_intent s now_ns).0 in
      (s'.pending_to ≡ some i.to_excl) × (s'.last_intent_vt ≡ now_ns)
unfolding recovery_intent resuggest_due
intent_dated s now_ns i e = elim (Option-cases s.pending_to) [
  | inl none_out ↦ ground arith
  | inr (p, out) ↦ ground arith
]

widened :
    (s : Sequencer) (now_ns p : ℕ) (j : RecoveryIntent)
    → s.pending_to ≡ some p
    → now_ns - s.last_intent_vt < 250_000
    → (recovery_intent s now_ns).1 ≡ some j
    → p < j.to_excl
unfolding recovery_intent resuggest_due
widened s now_ns p j out soon e = ground arith

-- After an intent has gone out, whatever else the sequencer does that leaves it outstanding and dated, a
-- further one within 250 microseconds asks for more: its end is past that of the first.
pub recovery_intent_widens :
    (s s' : Sequencer) (now_ns now_ns' : ℕ) (i j : RecoveryIntent)
    → (recovery_intent s now_ns).1 ≡ some i
    → s'.pending_to ≡ (recovery_intent s now_ns).0.pending_to
    → s'.last_intent_vt ≡ (recovery_intent s now_ns).0.last_intent_vt
    → now_ns' - now_ns < 250_000
    → (recovery_intent s' now_ns').1 ≡ some j
    → i.to_excl < j.to_excl
recovery_intent_widens s s' now_ns now_ns' i j e out dated soon e' =
    let (p, d) = intent_dated s now_ns i e in
    widened s' now_ns' i.to_excl j (out ∙ p) (rw (dated ∙ d) soon) e'

intend_free :
    (s : Sequencer) (now_ns target : ℕ)
    → s.w + 65535 < u64
    → s.pending_to ≡ none
    → (intend s now_ns target).1 ≡ some (record { from = s.w; to_excl = min target (s.w + 65535) })
unfolding intend
intend_free s now_ns target room free =
    let a : add64 s.w 65535 ≡ s.w + 65535 = omega arith in rw (free, intend, a) refl

-- Where one request past the watermark stays below 2^64, a heartbeat has announced a number past the
-- watermark, its time is 250 microseconds ago or more, and no intent is outstanding, an intent goes
-- out: it asks for the messages from the watermark on, up to the announced number, to the staged
-- maximum, or to the 65535 of one request.
pub recovery_intent_fires :
    (s : Sequencer) (now_ns : ℕ)
    → s.w + 65535 < u64
    → s.w < s.hb_seq
    → s.hb_vt + 250_000 ≤ now_ns
    → s.pending_to ≡ none
    → let target : ℕ = if staged_trigger s now_ns then s.win.max_staged else s.hb_seq in
      (recovery_intent s now_ns).1
      ≡ some (record { from = s.w; to_excl = min target (s.w + 65535) })
unfolding recovery_intent
recovery_intent_fires s now_ns room hb due free =
    let h : heartbeat_trigger s now_ns ≡ true = unfold heartbeat_trigger in ground arith in
    elim (Bool-cases (staged_trigger s now_ns)) [
      | inl t ↦ simp t (intend_free s now_ns s.win.max_staged room free)
      | inr t ↦ simp (t, h) (intend_free s now_ns s.hb_seq room free)
    ]
