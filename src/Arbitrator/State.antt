-- ===== src/Arbitrator/State.antt =====
-- crates/nf-arbitrator/src/lib.rs (`Sequencer` and its constructors), gap.rs and session.rs: the
-- sequencer's state, its gap lifecycle and its session lifecycle.
pub mod Invariant
pub mod Lifecycle
pub mod Template
pub mod Boundary
pub mod Announce
pub mod Reanchor
use hft_proj.Prelude.{
  ℕ, ◌+◌, ◌*◌, ◌^◌, max, Bool, true, false, ◌&&◌, not, Option, none, some, List, [], ◌∷◌,
  if◌then◌else◌, ltb, leb, ◌==◌, Bytes, bytes_eq, add64, le64_at, ◌++◌,
}
use hft_proj.Protocol.Moldudp64.{Header}
use hft_proj.Arbitrator.Types.{
  State, init, contig, gap, eos_persist, ended, dead, state_eq, Event, gap_opened, re_anchored,
  session_boundary, end_of_session, session_dead, DeadReason, SequencerMutation, no_mutation, Call,
  on_event, Log, ◌>>=◌, done, emit,
}
use hft_proj.Arbitrator.Counters.{Counters, zero_counters}
use hft_proj.Arbitrator.Window.{Window, Array}

pub record Sequencer : Type 0 where
  pub w : ℕ
  pub gen : ℕ
  pub session : Bytes
  pub session_lo : ℕ
  pub session_hi : ℕ
  pub session_live : Bool
  pub state : State
  pub gap_active : Bool
  pub evidence_hwm : ℕ
  pub win : Window
  pub progress_vt : ℕ
  pub hb_seq : ℕ
  pub hb_vt : ℕ
  pub pending_to : Option ℕ
  pub last_intent_vt : ℕ
  pub counters : Counters
  pub mutation : SequencerMutation

abbrev pub zero_session : Bytes
zero_session = 0 ∷ 0 ∷ 0 ∷ 0 ∷ 0 ∷ 0 ∷ 0 ∷ 0 ∷ 0 ∷ 0 ∷ []

abbrev pub empty_window : Array → Window
empty_window arena = record { lens = λ _. 0; arena = arena; staged_count = 0; max_staged = 0 }

unfoldable pub new_unboxed : Sequencer
new_unboxed = record {
  w = 0;
  gen = 0;
  session = zero_session;
  session_lo = 0;
  session_hi = 0;
  session_live = false;
  state = init;
  gap_active = false;
  evidence_hwm = 0;
  win = empty_window (λ _. 0);
  progress_vt = 0;
  hb_seq = 0;
  hb_vt = 0;
  pending_to = none;
  last_intent_vt = 0;
  counters = zero_counters;
  mutation = no_mutation;
}

-- `Sequencer::with_mutation`: the test-only modes of the differential oracle.
unfoldable pub with_mutation : SequencerMutation → Sequencer
unfolding new_unboxed
with_mutation m = record new_unboxed { mutation = m }

-- The O(1) reset between passes: all but the arena, and the mutation.
unfoldable pub reanchor : Sequencer → Sequencer
reanchor s = record s {
  w = 0;
  gen = 0;
  session = zero_session;
  session_lo = 0;
  session_hi = 0;
  session_live = false;
  state = init;
  gap_active = false;
  evidence_hwm = 0;
  win = empty_window s.win.arena;
  progress_vt = 0;
  hb_seq = 0;
  hb_vt = 0;
  pending_to = none;
  last_intent_vt = 0;
  counters = zero_counters;
}

-- gap.rs

unfoldable pub gap_evidence : Sequencer → (x : ℕ) → Log Sequencer
gap_evidence s x =
    if not s.gap_active && ltb s.w x
    then emit
        (record s {
          gap_active = true;
          gen = add64 s.gen 1;
          counters = record (s.counters) { gap_opens = add64 s.counters.gap_opens 1 };
          state = gap;
          evidence_hwm = x;
        })
        (on_event (gap_opened s.w (some x) (add64 s.gen 1)))
    else if s.gap_active
    then done (record s { evidence_hwm = max s.evidence_hwm x })
    else done s

unfoldable pub check_gap_close : Sequencer → Log Sequencer
check_gap_close s =
    if s.gap_active && leb s.evidence_hwm s.w
    then emit
        (record s {
          gap_active = false;
          state = contig;
          counters = record (s.counters) { reanchors = add64 s.counters.reanchors 1 };
          evidence_hwm = 0;
        })
        (on_event (re_anchored s.gen s.w))
    else done s

-- session.rs

-- The boundary's reset of the window: the presence bytes only if something is staged.
abbrev pub flush_window : Window → Window
flush_window win =
    if win.staged_count == 0
    then record win { max_staged = 0 }
    else record win { lens = λ _. 0; staged_count = 0; max_staged = 0 }

abbrev pub flushed : Window → Counters → Counters
flushed win c =
    if win.staged_count == 0 then c else record c { window_flushed = add64 c.window_flushed 1 }

unfoldable pub session_dispatch : Sequencer → Bytes → Log Sequencer
session_dispatch s new_session =
    let sessions' = add64 s.counters.sessions 1 in
    if bytes_eq s.session zero_session
    then done (record s {
      session = new_session;
      counters = record (s.counters) { sessions = sessions' };
    })
    else if not (bytes_eq s.session new_session)
    then emit
        (record s {
          session = new_session;
          counters = flushed s.win (record (s.counters) { sessions = sessions' });
          win = flush_window s.win;
          gap_active = false;
          evidence_hwm = 0;
          hb_seq = 0;
          hb_vt = 0;
          pending_to = none;
          gen = add64 s.gen 1;
          state = init;
        })
        (on_event (session_boundary s.session new_session (add64 s.gen 1)))
    else done s

-- The heartbeat's sequence number and time are noted.
abbrev pub note_heartbeat : Sequencer → (seq now_ns : ℕ) → Sequencer
note_heartbeat s seq now_ns = record s { hb_seq = seq; hb_vt = now_ns }

unfoldable pub handle_heartbeat : Sequencer → (seq now_ns : ℕ) → Log Sequencer
unfolding gap_evidence
handle_heartbeat s seq now_ns =
    let s' = record s {
      counters = record (s.counters) { heartbeats = add64 s.counters.heartbeats 1 };
    } in
    if state_eq s.state dead
    then done s'
    else if state_eq s.state init
    then done (note_heartbeat s' seq now_ns)
    else if state_eq s.state ended
    then done s'
    else if ltb s.w seq
    then gap_evidence (note_heartbeat s' seq now_ns) seq
    else done s'

abbrev pub count_eos_seen : Sequencer → Sequencer
count_eos_seen s = record s {
  counters = record (s.counters) { eos_seen = add64 s.counters.eos_seen 1 };
}

abbrev pub count_eos_dup : Sequencer → Sequencer
count_eos_dup s = record s {
  counters = record (s.counters) { eos_dup = add64 s.counters.eos_dup 1 };
}

-- The session ends, and the sink is told the final watermark.
abbrev pub end_session : Sequencer → ℕ → Log Sequencer
end_session s announced =
    emit (record s { state = ended }) (on_event (end_of_session s.session s.w announced))

unfoldable pub handle_eos : Sequencer → Header → Log Sequencer
handle_eos s hdr =
    if state_eq s.state dead
    then done s
    else if state_eq s.state ended
    then done (count_eos_dup s)
    else if state_eq s.state init
    then end_session (count_eos_seen s) hdr.seq
    else if state_eq s.state eos_persist
    then (if leb hdr.seq s.w then end_session (count_eos_dup s) hdr.seq else done (count_eos_dup s))
    else if ltb s.w hdr.seq
    then done (record (count_eos_seen s) { state = eos_persist })
    else end_session (count_eos_seen s) hdr.seq

unfoldable pub seal : Sequencer → DeadReason → Log Sequencer
seal s reason =
    if state_eq s.state dead
    then done s
    else emit (record s { state = dead }) (on_event (session_dead reason s.w))

-- The compare template of the live session.
unfoldable pub refresh_session_tmpl : Sequencer → Sequencer
refresh_session_tmpl s = record s {
  session_lo = le64_at s.session 0;
  session_hi = le64_at s.session 2;
  session_live = not (bytes_eq s.session zero_session);
}

-- `refresh_session_tmpl` after a dispatch, if the template may be stale.
abbrev pub refresh_if_stale : Bytes → Sequencer → Sequencer
refresh_if_stale prev_session s =
    if s.session_live && bytes_eq s.session prev_session then s else refresh_session_tmpl s

unfoldable pub dispatch_session : Sequencer → Bytes → Log Sequencer
unfolding session_dispatch refresh_session_tmpl
dispatch_session s new_session = do
  s' ← session_dispatch s new_session
  done (refresh_if_stale s.session s')
