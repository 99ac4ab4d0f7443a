-- ===== src/Arbitrator/State/Lifecycle.antt =====
-- crates/nf-arbitrator/src/gap.rs and session.rs: what the gap and the session steps keep and change.
use hft_proj.Prelude.{
  ℕ, ◌≡◌, refl, sym, true, false, ◌&&◌, not, none, some, [], ltb, leb, ◌==◌, Bytes, bytes_eq, arith,
  if-cases,
}
use hft_proj.Protocol.Moldudp64.{Header}
use hft_proj.Arbitrator.Types.{
  State, init, eos_persist, ended, dead, state_eq, no_mutation, Log, done,
}
use hft_proj.Arbitrator.Window.{Window}
use hft_proj.Arbitrator.Counters.{Counters}
use hft_proj.Arbitrator.Window.Slots.{IsWindow, occupied-none}
use hft_proj.Arbitrator.Window.Staging.{held}
use hft_proj.Arbitrator.Window.Draining.{nothing_held}
use hft_proj.Arbitrator.State.{
  Sequencer, gap_evidence, check_gap_close, session_dispatch, handle_heartbeat, handle_eos,
  dispatch_session, refresh_session_tmpl, refresh_if_stale, flush_window, zero_session,
}
use hft_proj.Arbitrator.State.Invariant.{
  IsSequencer, Delivers, done-Delivers, emit-Delivers, bind-Delivers, expect, expect-append,
}

-- A step of a sequencer that is past its anchor, and stays there.
abbrev pub Anchored : ℕ → Log Sequencer → Type 0
Anchored w m = Delivers w m × (state_eq m.0.state init ≡ false) × (m.0.w ≡ w)

-- Evidence opens a gap, or pushes the evidence of an open one.
pub gap_evidence-Anchored :
    (s : Sequencer) (x : ℕ)
    → IsSequencer s
    → state_eq s.state init ≡ false
    → Anchored s.w (gap_evidence s x)
unfolding gap_evidence
gap_evidence-Anchored s x i n =
    if-cases (Anchored s.w) (not s.gap_active && ltb s.w x)
      (λ b. (
        emit-Delivers _ _ (record {
          window = i.window;
          vacant = i.vacant;
          gapped = λ e. ground arith;
          fresh = λ e. cc;
          production = i.production;
        }),
        refl,
        refl,
      ))
      (λ b.
        if-cases (Anchored s.w) s.gap_active
          (λ a. (
            done-Delivers _ (record {
              window = i.window;
              vacant = i.vacant;
              gapped = λ e. omega (arith, i.gapped a);
              fresh = λ e. cc;
              production = i.production;
            }),
            n,
            refl,
          ))
          (λ a. (done-Delivers s i, n, refl)))

-- A gap closes as soon as the watermark has reached its evidence.
pub check_gap_close-Delivers :
    (s : Sequencer)
    → IsWindow s.win
    → held s.win s.w s.w ≡ none
    → state_eq s.state init ≡ false
    → s.mutation ≡ no_mutation
    → Delivers s.w (check_gap_close s)
unfolding check_gap_close
check_gap_close-Delivers s v h n m =
    if-cases (Delivers s.w) (s.gap_active && leb s.evidence_hwm s.w)
      (λ a.
        emit-Delivers _ _
          (record { window = v; vacant = h; gapped = λ e. cc; fresh = λ e. cc; production = m }))
      (λ a. done-Delivers s (record {
        window = v;
        vacant = h;
        gapped = λ e. ground arith;
        fresh = λ e. cc;
        production = m;
      }))

-- A heartbeat delivers nothing.
pub handle_heartbeat-Delivers :
    (s : Sequencer) (seq now_ns : ℕ) → IsSequencer s → Delivers s.w (handle_heartbeat s seq now_ns)
unfolding handle_heartbeat
handle_heartbeat-Delivers s seq now_ns i =
    if-cases (Delivers s.w) (state_eq s.state dead) (λ a. done-Delivers _ (same i))
      (λ a.
        if-cases (Delivers s.w) (state_eq s.state init) (λ b. done-Delivers _ (same i))
          (λ b.
            if-cases (Delivers s.w) (state_eq s.state ended) (λ c. done-Delivers _ (same i))
              (λ c.
                if-cases (Delivers s.w) (ltb s.w seq)
                  (λ d. (gap_evidence-Anchored _ seq (same i) b).0)
                  (λ d. done-Delivers _ (same i)))))
  where
    same :
        {hb_seq hb_vt : ℕ} {c : Counters}
        → IsSequencer s
        → IsSequencer (record s { hb_seq = hb_seq; hb_vt = hb_vt; counters = c })
    same i = record {
      window = i.window;
      vacant = i.vacant;
      gapped = i.gapped;
      fresh = i.fresh;
      production = i.production;
    }

-- An end of session delivers nothing.
pub handle_eos-Delivers :
    (s : Sequencer) (hdr : Header) → IsSequencer s → Delivers s.w (handle_eos s hdr)
unfolding handle_eos
handle_eos-Delivers s hdr i =
    if-cases (Delivers s.w) (state_eq s.state dead) (λ a. done-Delivers s i)
      (λ a.
        if-cases (Delivers s.w) (state_eq s.state ended) (λ b. done-Delivers _ (same i))
          (λ b.
            if-cases (Delivers s.w) (state_eq s.state init)
              (λ c. emit-Delivers _ _ (moved i (λ e. cc)))
              (λ c.
                if-cases (Delivers s.w) (state_eq s.state eos_persist)
                  (λ d.
                    if-cases (Delivers s.w) (leb hdr.seq s.w)
                      (λ e. emit-Delivers _ _ (moved i (λ f. cc))) (λ e. done-Delivers _ (same i)))
                  (λ d.
                    if-cases (Delivers s.w) (ltb s.w hdr.seq)
                      (λ e. done-Delivers _ (moved i (λ f. cc)))
                      (λ e. emit-Delivers _ _ (moved i (λ f. cc)))))))
  where
    same : {c : Counters} → IsSequencer s → IsSequencer (record s { counters = c })
    same i = record {
      window = i.window;
      vacant = i.vacant;
      gapped = i.gapped;
      fresh = i.fresh;
      production = i.production;
    }

    moved :
        {c : Counters} {st : State}
        → IsSequencer s
        → (state_eq st init ≡ true → (s.gap_active ≡ false) × (s.win.staged_count ≡ 0))
        → IsSequencer (record s { counters = c; state = st })
    moved i f = record {
      window = i.window;
      vacant = i.vacant;
      gapped = i.gapped;
      fresh = f;
      production = i.production;
    }

-- The window of a new session holds nothing.
pub flush_window-IsWindow :
    {win : Window}
    → IsWindow win
    → IsWindow (flush_window win) × ((flush_window win).staged_count ≡ 0)
flush_window-IsWindow {win} v =
    if-cases (λ (w : Window). IsWindow w × (w.staged_count ≡ 0)) (win.staged_count == 0)
      (λ e. (record { counted = v.counted; small = v.small }, ground arith))
      (λ e. (record { counted = sym (occupied-none 1024); small = λ i lt. omega arith }, refl))

session_dispatch-Delivers :
    (s : Sequencer) (session : Bytes) → IsSequencer s → Delivers s.w (session_dispatch s session)
unfolding session_dispatch
session_dispatch-Delivers s session i =
    if-cases (Delivers s.w) (bytes_eq s.session zero_session)
      (λ a. done-Delivers _ (record {
        window = i.window;
        vacant = i.vacant;
        gapped = i.gapped;
        fresh = i.fresh;
        production = i.production;
      }))
      (λ a.
        if-cases (Delivers s.w) (not (bytes_eq s.session session))
          (λ b.
            let (v, z) = flush_window-IsWindow i.window in
            emit-Delivers _ _ (record {
              window = v;
              vacant = nothing_held (flush_window s.win) s.w s.w v z;
              gapped = λ e. cc;
              fresh = λ e. (refl, z);
              production = i.production;
            }))
          (λ b. done-Delivers s i))

-- The session step delivers nothing and keeps the watermark.
pub dispatch_session-Delivers :
    (s : Sequencer) (session : Bytes) → IsSequencer s → Delivers s.w (dispatch_session s session)
unfolding dispatch_session refresh_session_tmpl
dispatch_session-Delivers s session i =
    let d = session_dispatch-Delivers s session i in
    let s' : Sequencer = (session_dispatch s session).0 in
    bind-Delivers s.w (session_dispatch s session) (λ s'. done (refresh_if_stale s.session s')) d
      (if-cases (λ (x : Sequencer). Delivers s'.w (done x))
        (s'.session_live && bytes_eq s'.session s.session) (λ e. done-Delivers s' d.keeps)
        (λ e. done-Delivers _ (refreshed s' d.keeps)))
  where
    refreshed : (x : Sequencer) → IsSequencer x → IsSequencer (refresh_session_tmpl x)
    refreshed x i = record {
      window = i.window;
      vacant = i.vacant;
      gapped = i.gapped;
      fresh = i.fresh;
      production = i.production;
    }

-- The session step calls the sink with events alone, and keeps the watermark and the violations.
abbrev pub Quiet : (w v a : ℕ) → Log Sequencer → Type 0
Quiet w v a m = (expect a m.1 ≡ some a) × (m.0.w ≡ w) × (m.0.counters.total_violations ≡ v)

session_dispatch-Quiet :
    (s : Sequencer) (session : Bytes) (a : ℕ)
    → Quiet s.w s.counters.total_violations a (session_dispatch s session)
unfolding session_dispatch expect
session_dispatch-Quiet s session a =
    let P : Log Sequencer → Type 0 = Quiet s.w s.counters.total_violations a in
    if-cases P (bytes_eq s.session zero_session) (λ _. (refl, refl, refl))
      (λ _.
        if-cases P (not (bytes_eq s.session session))
          (λ _. (
            refl,
            refl,
            if-cases (λ (c : Counters). c.total_violations ≡ s.counters.total_violations)
                (s.win.staged_count == 0) (λ _. refl) (λ _. refl),
          ))
          (λ _. (refl, refl, refl)))

pub dispatch_session-Quiet :
    (s : Sequencer) (session : Bytes) (a : ℕ)
    → Quiet s.w s.counters.total_violations a (dispatch_session s session)
unfolding dispatch_session refresh_session_tmpl expect
dispatch_session-Quiet s session a =
    let q = session_dispatch-Quiet s session a in
    let s' : Sequencer = (session_dispatch s session).0 in
    let r : (x : Sequencer)
        → (x.w ≡ s.w) × (x.counters.total_violations ≡ s.counters.total_violations)
        → ((refresh_if_stale s.session x).w ≡ s.w)
          × ((refresh_if_stale s.session x).counters.total_violations
              ≡ s.counters.total_violations) =
      λ x h.
        if-cases
          (λ (y : Sequencer).
            (y.w ≡ s.w) × (y.counters.total_violations ≡ s.counters.total_violations))
          (x.session_live && bytes_eq x.session s.session) (λ _. h) (λ _. h) in
    let (ew, ev) = r s' (q.1, q.2) in
    (expect-append (session_dispatch s session).1 [] a a q.0, ew, ev)
