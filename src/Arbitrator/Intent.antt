-- ===== src/Arbitrator/Intent.antt =====
-- crates/nf-arbitrator/src/intent.rs: the recovery intents that the sequencer suggests.
pub mod Bounds
use hft_proj.Prelude.{
  ℕ, ◌+◌, ◌-◌, min, Bool, true, false, ◌&&◌, ◌||◌, Option, none, some, if◌then◌else◌, ltb, leb,
  add64,
}
use hft_proj.Arbitrator.Types.{RecoveryIntent}
use hft_proj.Arbitrator.State.{Sequencer}

abbrev pub time_trigger_ns : ℕ
time_trigger_ns = 250_000

abbrev pub hb_trigger_ns : ℕ
hb_trigger_ns = 250_000

abbrev pub resuggest_window_ns : ℕ
resuggest_window_ns = 250_000

abbrev pub hwm_staged_threshold : ℕ
hwm_staged_threshold = 512

abbrev pub max_wire_request : ℕ
max_wire_request = 65535

-- T-HWM, or T-TIME. The subtraction of times saturates at 0, as `-` does.
unfoldable pub staged_trigger : Sequencer → (now_ns : ℕ) → Bool
staged_trigger s now_ns =
    (ltb s.w s.win.max_staged && leb hwm_staged_threshold (s.win.max_staged - s.w))
    || (ltb 0 s.win.staged_count && leb time_trigger_ns (now_ns - s.progress_vt))

-- T-HB.
unfoldable pub heartbeat_trigger : Sequencer → (now_ns : ℕ) → Bool
heartbeat_trigger s now_ns = ltb s.w s.hb_seq && leb hb_trigger_ns (now_ns - s.hb_vt)

unfoldable pub resuggest_due : Sequencer → (now_ns : ℕ) → Bool
resuggest_due s now_ns = leb resuggest_window_ns (now_ns - s.last_intent_vt)

-- The intent to fetch up to `to` goes out now.
abbrev pub issue : Sequencer → (now_ns to : ℕ) → Sequencer × Option RecoveryIntent
issue s now_ns to = (
  record s {
    last_intent_vt = now_ns;
    counters = record (s.counters) { intents_issued = add64 s.counters.intents_issued 1 };
  },
  some (record { from = s.w; to_excl = to }),
)

-- An outstanding intent is suggested again once its window has passed.
unfoldable pub resuggest : Sequencer → (now_ns to : ℕ) → Sequencer × Option RecoveryIntent
unfolding resuggest_due
resuggest s now_ns to = if resuggest_due s now_ns then issue s now_ns to else (s, none)

-- A trigger asks for the messages up to `target`, of which one request can fetch 65535.
unfoldable pub intend : Sequencer → (now_ns target : ℕ) → Sequencer × Option RecoveryIntent
unfolding resuggest
intend s now_ns target =
    let t = min target (add64 s.w max_wire_request) in
    elim s.pending_to [
      | none ↦ issue (record s { pending_to = some t }) now_ns t
      | some p ↦
          if ltb p t
          then issue (record s { pending_to = some t }) now_ns t
          else resuggest s now_ns p
    ]

-- `Sequencer::recovery_intent`, which is `check_recovery_intent` on the sequencer's fields.
unfoldable pub recovery_intent : Sequencer → (now_ns : ℕ) → Sequencer × Option RecoveryIntent
unfolding staged_trigger heartbeat_trigger intend
recovery_intent s now_ns =
    if staged_trigger s now_ns
    then intend s now_ns s.win.max_staged
    else if heartbeat_trigger s now_ns
    then intend s now_ns s.hb_seq
    else elim s.pending_to [ none ↦ (s, none) | some p ↦ resuggest s now_ns p ]
