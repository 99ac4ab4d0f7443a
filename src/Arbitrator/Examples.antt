-- ===== src/Arbitrator/Examples.antt =====
-- crates/nf-arbitrator: a new sequencer, a sequencer with a staged message, and the theorems at them.
use hft_proj.Prelude.{
  ℕ, ◌+◌, ◌<◌, ◌≤◌, ◌≡◌, ◌↔◌, ◌⊎◌, refl, true, false, ◌&&◌, Option, none, some, [], ◌∷◌, arith,
  Bytes, ltb, leb, ◌==◌, if◌then◌else◌, u64, add64, bytes_eq, sym, be64_at, be16_at,
}
use hft_proj.Protocol.Moldudp64.{Header}
use hft_proj.Protocol.Moldudp64.Wire.{encode_frame, encode_header, encode_blocks}
use hft_proj.Protocol.Itch5.{validate, length_of}
use hft_proj.Protocol.Packet.{FrameMemo}
use hft_proj.Protocol.Examples.{
  event_msg, one_msg, some_session, one_frame, one_msg-Fits, is_bytes_sound,
}
use hft_proj.Arbitrator.Types.{
  gap_opened, Log, on_event, session_boundary, session_dead, sealed, retry_exhausted, done,
  no_mutation, state_eq, init, contig, dead, ended,
}
use hft_proj.Arbitrator.Counters.{zero_counters}
use hft_proj.Arbitrator.Window.{Window, stage_msg, drain, clear_slots}
use hft_proj.Arbitrator.Window.Slots.{IsWindow, occupied, occupied-none}
use hft_proj.Arbitrator.Window.Staging.{held, stage_msg_iff, stage_msg-held}
use hft_proj.Arbitrator.Window.Draining.{Drains, drain-Drains}
use hft_proj.Arbitrator.Window.Clearing.{clear_slots-held}
use hft_proj.Arbitrator.State.{Sequencer, zero_session, empty_window, dispatch_session, seal}
use hft_proj.Arbitrator.State.Invariant.{IsSequencer, expect}
use hft_proj.Arbitrator.State.Template.{HasTemplate, IsSession, bytes_ne}
use hft_proj.Arbitrator.State.Boundary.{
  dispatch_session-HasTemplate, dispatch_session_boundary, seal_once,
}
use hft_proj.Arbitrator.Sequencer.{ingest, classify}
use hft_proj.Arbitrator.State.Announce.{handle_eos_iff, handle_heartbeat-gap}
use hft_proj.Arbitrator.State.{handle_eos, handle_heartbeat}
use hft_proj.Arbitrator.Types.{end_of_session}
use hft_proj.Prelude.{ltb, min, ◌+◌, if◌then◌else◌}
use hft_proj.Arbitrator.Sequencer.Duplicates.{Ignored, ingest_data_twice}
use hft_proj.Arbitrator.Sequencer.{ingest_data}
use hft_proj.Arbitrator.State.Reanchor.{reanchor-IsSequencer}
use hft_proj.Arbitrator.State.{new_unboxed, reanchor}
use hft_proj.Arbitrator.Sequencer.Gapless.{ingest-IsSequencer, ingest_gapless, base_of}
use hft_proj.Arbitrator.Sequencer.Ended.{classify_ended}
use hft_proj.Arbitrator.Sequencer.Indexed.{ingest_auto}
use hft_proj.Arbitrator.Sequencer.Indexed.Blocks.{triples}
use hft_proj.Arbitrator.Sequencer.Indexed.Spans.{spread, AllValid}
use hft_proj.Arbitrator.Sequencer.Indexed.Equivalence.{ingest_auto-eq-ingest}
use hft_proj.Arbitrator.Intent.{recovery_intent, staged_trigger, heartbeat_trigger, intend}
use hft_proj.Arbitrator.Intent.Bounds.{
  Spent, CanIntend, recovery_intent_bounds, recovery_intent_widens, recovery_intent_fires,
}

abbrev pub no_window : Window
no_window = empty_window (λ _. 0)

no_window-IsWindow : IsWindow no_window
no_window-IsWindow = record { counted = occupied-none-sym; small = λ i lt. omega arith }
  where
    occupied-none-sym : 0 ≡ occupied 1024 (λ _. 0)
    occupied-none-sym = sym (occupied-none 1024)

-- The sequencer as the constructor leaves it.
abbrev pub new_one : Sequencer
new_one = record {
  w = 0;
  gen = 0;
  session = zero_session;
  session_lo = 0;
  session_hi = 0;
  session_live = false;
  state = init;
  gap_active = false;
  evidence_hwm = 0;
  win = no_window;
  progress_vt = 0;
  hb_seq = 0;
  hb_vt = 0;
  pending_to = none;
  last_intent_vt = 0;
  counters = zero_counters;
  mutation = no_mutation;
}

new_one-IsSequencer : IsSequencer new_one
new_one-IsSequencer = record {
  window = no_window-IsWindow;
  vacant = refl;
  gapped = λ e. cc;
  fresh = λ e. (refl, refl);
  production = refl;
}

one_frame_in_range : be64_at one_frame 10 + be16_at one_frame 18 + 8192 < u64
unfolding encode_frame encode_header encode_blocks
one_frame_in_range = omega arith

pub some_session-IsSession : IsSession some_session
some_session-IsSession = (refl, is_bytes_sound some_session refl)

zero_session-IsSession : IsSession zero_session
zero_session-IsSession = (refl, is_bytes_sound zero_session refl)

pub new_one-HasTemplate : HasTemplate new_one
new_one-HasTemplate = (zero_session-IsSession, λ live. cc)

ingest-IsSequencer_example : IsSequencer (ingest new_one one_frame 0 9).0
ingest-IsSequencer_example =
    ingest-IsSequencer new_one one_frame 0 9 new_one-IsSequencer (omega arith) one_frame_in_range

ingest_gapless_example :
    (upto : ℕ) × (expect (base_of new_one one_frame 0) (ingest new_one one_frame 0 9).1 ≡ some upto)
    × (base_of new_one one_frame 0 ≤ (ingest new_one one_frame 0 9).0.w)
    × ((upto ≡ (ingest new_one one_frame 0 9).0.w)
        ⊎ (((ingest new_one one_frame 0 9).0.w ≡ base_of new_one one_frame 0)
            × ((ingest new_one one_frame 0 9).0.counters.total_violations ≡ add64 0 1)))
ingest_gapless_example =
    ingest_gapless new_one one_frame 0 9 new_one-IsSequencer (omega arith) one_frame_in_range

abbrev full_memo : Option FrameMemo
full_memo = some (record { valid_count = 1 })

one_msg-AllValid : AllValid one_msg
unfolding validate length_of
one_msg-AllValid = (refl, tt)

ingest_auto-eq-ingest_example :
    ((ingest new_one one_frame 0 9).0
      ≡ (ingest_auto true new_one one_frame 0 9 (triples 20 5 one_msg) full_memo).0)
    × (spread (ingest new_one one_frame 0 9).1
        ≡ spread (ingest_auto true new_one one_frame 0 9 (triples 20 5 one_msg) full_memo).1)
ingest_auto-eq-ingest_example =
    ingest_auto-eq-ingest true new_one some_session 5 one_msg full_memo 0 9 new_one-HasTemplate
      (omega arith) some_session-IsSession one_msg-Fits (omega arith) (omega arith, omega arith)
      (λ e. one_msg-AllValid)

-- A window with the message of number 6, staged at watermark 5.
abbrev one_staged : Window
one_staged = (stage_msg no_window 5 6 event_msg).1

one_staged-IsWindow : IsWindow one_staged
one_staged-IsWindow =
    (stage_msg-held 5 6 event_msg no_window-IsWindow (omega arith) (omega arith) (omega arith)
      (omega arith)).1

stage_msg_iff_example : ((stage_msg no_window 5 6 event_msg).0 ≡ true) ↔ ((5 < 6) × (6 ≤ 5 + 1024))
stage_msg_iff_example = stage_msg_iff no_window 5 6 event_msg (omega arith) (omega arith)

stage_msg-held_example :
    ((stage_msg no_window 5 6 event_msg).0 ≡ true)
    × IsWindow one_staged
    × ((j : ℕ) → held one_staged 5 j ≡ (if j == 6 then some event_msg else held no_window 5 j))
stage_msg-held_example =
    stage_msg-held 5 6 event_msg no_window-IsWindow (omega arith) (omega arith) (omega arith)
      (omega arith)

drain-Drains_example : Drains (record { gen = 3 }) one_staged 6 (drain one_staged 6 3)
drain-Drains_example = drain-Drains 3 6 one_staged-IsWindow (omega arith)

clear_slots-held_example :
    IsWindow (clear_slots one_staged 5 9)
    × ((j : ℕ)
        → held (clear_slots one_staged 5 9) 9 j
          ≡ (if leb 9 j && ltb j (5 + 1024) then held one_staged 5 j else none))
clear_slots-held_example = clear_slots-held 5 9 one_staged-IsWindow (omega arith) (omega arith)

dispatch_session-HasTemplate_example :
    HasTemplate (dispatch_session new_one some_session).0
    × ((dispatch_session new_one some_session).0.session ≡ some_session)
dispatch_session-HasTemplate_example =
    dispatch_session-HasTemplate new_one some_session new_one-HasTemplate some_session-IsSession

abbrev other_session : Bytes
other_session = 67 ∷ 65 ∷ 65 ∷ 65 ∷ 65 ∷ 65 ∷ 65 ∷ 65 ∷ 65 ∷ 66 ∷ []

-- A sequencer in the middle of a session, and that with something staged past its watermark.
abbrev running : Sequencer
running = record new_one { w = 5; session = some_session; state = contig }

running-IsSequencer : IsSequencer running
running-IsSequencer = record {
  window = no_window-IsWindow;
  vacant = refl;
  gapped = λ e. cc;
  fresh = λ e. cc;
  production = refl;
}

some_ne_zero : bytes_eq some_session zero_session ≡ false
some_ne_zero = bytes_ne 65 0 _ _ refl

some_ne_other : bytes_eq some_session other_session ≡ false
some_ne_other = bytes_ne 65 67 _ _ refl

dispatch_session_boundary_example :
    ((w seq : ℕ) → held (dispatch_session running other_session).0.win w seq ≡ none)
    × ((dispatch_session running other_session).0.gap_active ≡ false)
    × (state_eq (dispatch_session running other_session).0.state init ≡ true)
    × ((dispatch_session running other_session).0.w ≡ 5)
    × ((dispatch_session running other_session).1
        ≡ on_event (session_boundary some_session other_session (add64 0 1)) ∷ [])
dispatch_session_boundary_example =
    dispatch_session_boundary running other_session running-IsSequencer some_ne_zero some_ne_other

seal_once_example :
    (state_eq (seal running sealed).0.state dead ≡ true)
    × (seal (seal running sealed).0 retry_exhausted ≡ done (seal running sealed).0)
    × ((seal running sealed).1 ≡ on_event (session_dead sealed 5) ∷ [])
seal_once_example = seal_once running sealed retry_exhausted

abbrev data_header : Header
data_header = record { session = some_session; seq = 5; count = 1 }

abbrev finished : Sequencer
finished = record running { state = ended }

classify_ended_example :
    let m : Log Sequencer = classify one_frame 0 9 data_header finished in
    (m.1 ≡ [])
    × (record (m.0) { counters = finished.counters } ≡ finished)
    × (m.0.counters.heartbeats ≡ 0)
    × (m.0.counters.eos_dup ≡ 0)
    × (m.0.counters.data_after_eos ≡ add64 0 1)
    × (m.0.counters.total_violations ≡ add64 0 1)
classify_ended_example = classify_ended finished one_frame 0 9 data_header refl refl

abbrev behind : Sequencer
behind = record running { hb_seq = 20; hb_vt = 0 }

behind-CanIntend : CanIntend behind
behind-CanIntend = record { room = omega arith; pending = λ p e. cc }

behind_intends : (recovery_intent behind 1_000_000_000).1 ≡ some (record { from = 5; to_excl = 20 })
unfolding recovery_intent staged_trigger heartbeat_trigger intend
behind_intends = refl

recovery_intent_bounds_example :
    (behind.w ≡ 5)
    × ((5 < 20) ⊎ Spent behind 20)
    × (20 ≤ 5 + 65535)
    × ((recovery_intent behind 1_000_000_000).0.pending_to ≡ some 20)
    × ((recovery_intent behind 1_000_000_000).0.last_intent_vt ≡ 1_000_000_000)
    × ((recovery_intent behind 1_000_000_000).0.w ≡ 5)
    × ((recovery_intent behind 1_000_000_000).0.win ≡ no_window)
recovery_intent_bounds_example =
    recovery_intent_bounds 1_000_000_000 behind-CanIntend behind_intends

-- A heartbeat has announced more since the intent.
abbrev further : Sequencer
further = record (recovery_intent behind 1_000_000_000).0 { hb_seq = 30 }

further_intends :
    (recovery_intent further 1_000_000_009).1 ≡ some (record { from = 5; to_excl = 30 })
unfolding recovery_intent staged_trigger heartbeat_trigger intend
further_intends = refl

recovery_intent_widens_example : 20 < 30
recovery_intent_widens_example =
    recovery_intent_widens behind further 1_000_000_000 1_000_000_009
      (record { from = 5; to_excl = 20 }) (record { from = 5; to_excl = 30 }) behind_intends refl
      refl (omega arith) further_intends

abbrev last_header : Header
last_header = record { session = some_session; seq = 5; count = 65535 }

handle_eos_iff_example :
    ((handle_eos running last_header).1 ≡ on_event (end_of_session some_session 5 5) ∷ [])
    ↔ ((state_eq contig init ≡ true) ⊎ (5 ≤ 5))
handle_eos_iff_example = handle_eos_iff running last_header refl refl

handle_heartbeat-gap_example :
    let m : Log Sequencer = handle_heartbeat running 20 9 in
    (m.0.gap_active ≡ true)
    × (m.1 ≡ on_event (gap_opened 5 (some 20) (add64 0 1)) ∷ [])
    × (m.0.gen ≡ add64 0 1)
    × (m.0.evidence_hwm ≡ 20)
    × (m.0.hb_seq ≡ 20)
    × (m.0.hb_vt ≡ 9)
    × (m.0.w ≡ 5)
    × (m.0.win ≡ no_window)
handle_heartbeat-gap_example = handle_heartbeat-gap running 20 9 refl refl refl

recovery_intent_fires_example :
    (recovery_intent behind 1_000_000_000).1
    ≡ some (record {
      from = 5;
      to_excl = min (if staged_trigger behind 1_000_000_000 then 0 else 20) (5 + 65535);
    })
recovery_intent_fires_example =
    recovery_intent_fires behind 1_000_000_000 (omega arith) (omega arith) (omega arith) refl

ingest_data_twice_example :
    Ignored 1
      (ingest_data one_frame 0 9 5 5 1 running).0
      (ingest_data one_frame 1 10 5 5 1 (ingest_data one_frame 0 9 5 5 1 running).0)
    ⊎ ((ingest_data one_frame 0 9 5 5 1 running).0.counters.total_violations ≡ add64 0 1)
ingest_data_twice_example =
    ingest_data_twice one_frame 0 1 9 10 5 5 1 running running-IsSequencer refl (omega arith)
      (omega arith) refl (omega arith)

reanchor-IsSequencer_example :
    IsSequencer (reanchor running)
    × HasTemplate (reanchor running)
    × ((w seq : ℕ) → held (reanchor running).win w seq ≡ none)
    × (reanchor running ≡ record new_unboxed {
      mutation = no_mutation;
      win = record (new_unboxed.win) { arena = no_window.arena };
    })
reanchor-IsSequencer_example = reanchor-IsSequencer running refl
