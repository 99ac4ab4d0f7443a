-- ===== src/Arbitrator/Sequencer/Gapless.antt =====
-- crates/nf-arbitrator/src/lib.rs: `ingest` keeps the sequencer's invariant, and delivers each number
-- once and in order.
use hft_proj.Prelude.{
  ℕ, ◌+◌, ◌-◌, ◌<◌, ◌≤◌, ◌≡◌, ◌⊎◌, inl, inr, sym, ap, ◌∙◌, false, ◌&&◌, ◌||◌, not, some,
  if◌then◌else◌, ltb, ◌==◌, Bytes, add64, u64, arith, Bool-cases, if-cases, subst, length, ok,
  be64_at, be16_at, slice,
}
use hft_proj.Protocol.Moldudp64.{Header, span, parse_header, header_len, heartbeat_count, eos_count}
use hft_proj.Arbitrator.Types.{init, dead, ended, state_eq, Log, ◌>>=◌}
use hft_proj.Arbitrator.Counters.{on_feed}
use hft_proj.Arbitrator.State.{Sequencer, dispatch_session, handle_eos}
use hft_proj.Arbitrator.State.Invariant.{
  IsSequencer, counted-IsSequencer, expect, expect-append, Delivers, done-Delivers,
}
use hft_proj.Arbitrator.State.Lifecycle.{
  handle_heartbeat-Delivers, handle_eos-Delivers, dispatch_session-Delivers, dispatch_session-Quiet,
}
use hft_proj.Arbitrator.Sequencer.{
  classify, is_eos_drop, violate_short, ignore_dead, count_arrival, reject_after_eos, ingest,
}
use hft_proj.Arbitrator.Sequencer.Outcomes.{Outcome, delivered, ingest_data-Outcome}

-- The next number before a frame: its own first, if it is the anchor.
abbrev pub base : Sequencer → Header → ℕ
base s hdr =
    if state_eq s.state init && not (hdr.count == heartbeat_count || hdr.count == eos_count)
    then hdr.seq
    else s.w

abbrev pub InRange : ℕ → Type 0
InRange n = n + 8192 < u64

same_base :
    (s : Sequencer) (hdr : Header) (v : ℕ) (m : Log Sequencer)
    → base s hdr ≡ s.w
    → Delivers s.w m
    → Outcome (base s hdr) v m
same_base s hdr v m e d = subst (λ (k : ℕ). Outcome k v m) (sym e) (delivered d)

span-some :
    (hdr : Header)
    → (hdr.count == heartbeat_count) ≡ false
    → (hdr.count == eos_count) ≡ false
    → InRange (hdr.seq + hdr.count)
    → span hdr ≡ some (hdr.seq, hdr.seq + (hdr.count - 1))
unfolding span
span-some hdr h e room = ground arith

base_data :
    (s : Sequencer) (hdr : Header)
    → (hdr.count == heartbeat_count) ≡ false
    → (hdr.count == eos_count) ≡ false
    → base s hdr ≡ (if state_eq s.state init then hdr.seq else s.w)
base_data s hdr h e = rw (h, e) (ground arith)

classify-Outcome :
    (frame : Bytes) (feed now_ns : ℕ) (hdr : Header) (s : Sequencer)
    → IsSequencer s
    → InRange s.w
    → InRange (hdr.seq + hdr.count)
    → Outcome (base s hdr) s.counters.total_violations (classify frame feed now_ns hdr s)
unfolding classify reject_after_eos
classify-Outcome frame feed now_ns hdr s i room room' =
    if-cases O (hdr.count == heartbeat_count)
      (λ h. same_base s hdr _ _ (ground (arith, h)) (handle_heartbeat-Delivers s hdr.seq now_ns i))
      (λ h.
        if-cases O (hdr.count == eos_count)
          (λ e. same_base s hdr _ _ (ground (arith, h, e)) (
            if-cases (λ x. Delivers s.w (handle_eos x hdr)) (is_eos_drop s.mutation) (λ d. cc)
              (λ d. handle_eos-Delivers s hdr i)))
          (λ e.
            if-cases O (state_eq s.state ended)
              (λ x.
                same_base s hdr _ _ (ground (arith, x)) (done-Delivers _ (counted-IsSequencer i)))
              (λ x.
                rw (span-some hdr h e room', base_data s hdr h e)
                  (ingest_data-Outcome frame feed now_ns hdr.seq (hdr.seq + (hdr.count - 1))
                    hdr.count s i room (omega arith) (ground arith) (ground arith)))))
  where
    O : Log Sequencer → Type 0
    O = Outcome (base s hdr) s.counters.total_violations

-- The header of a frame, as `parse_header` reads it.
abbrev pub header_of : Bytes → Header
header_of frame = record {
  session = slice frame 0 10;
  seq = be64_at frame 10;
  count = be16_at frame 18;
}

-- The next number before `ingest` takes a frame: its own first, if the frame is the anchor of a session.
abbrev pub base_of : Sequencer → Bytes → (feed : ℕ) → ℕ
base_of s frame feed =
    if ltb (length frame) header_len
    then s.w
    else if state_eq s.state dead
    then s.w
    else base (dispatch_session (count_arrival frame feed s) (slice frame 0 10)).0 (header_of frame)

pub parse_header_ok :
    (frame : Bytes)
    → ltb (length frame) header_len ≡ false
    → parse_header frame ≡ ok (header_of frame)
unfolding parse_header
parse_header_ok frame h = rw h

-- The session step, then the frame's class.
dispatched-Outcome :
    (frame : Bytes) (feed now_ns : ℕ) (hdr : Header) (s : Sequencer) (v : ℕ)
    → s.counters.total_violations ≡ v
    → IsSequencer s
    → InRange s.w
    → InRange (hdr.seq + hdr.count)
    → Outcome
        (base (dispatch_session s hdr.session).0 hdr)
        v
        (dispatch_session s hdr.session >>= classify frame feed now_ns hdr)
dispatched-Outcome frame feed now_ns hdr s v vs i room room' =
    let m : Log Sequencer = dispatch_session s hdr.session in
    let q = dispatch_session-Quiet s hdr.session (base m.0 hdr) in
    let o =
      classify-Outcome frame feed now_ns hdr m.0 (dispatch_session-Delivers s hdr.session i).keeps
        (omega (arith, q.1)) room' in
    record {
      keeps = o.keeps;
      upto = o.upto;
      runs = expect-append m.1 _ _ _ q.0 ∙ o.runs;
      up = o.up;
      settled = elim o.settled [
        | inl e ↦ inl e
        | inr e ↦ inr (e.0, e.1 ∙ ap (λ (v : ℕ). add64 v 1) (q.2 ∙ vs))
      ];
    }

arrival_violations :
    (frame : Bytes) (feed : ℕ) (s : Sequencer)
    → (count_arrival frame feed s).counters.total_violations ≡ s.counters.total_violations
unfolding count_arrival on_feed
arrival_violations frame feed s = ground arith

pub ingest-Outcome :
    (s : Sequencer) (frame : Bytes) (feed now_ns : ℕ)
    → IsSequencer s
    → InRange s.w
    → InRange (be64_at frame 10 + be16_at frame 18)
    → Outcome (base_of s frame feed) s.counters.total_violations (ingest s frame feed now_ns)
unfolding ingest violate_short ignore_dead count_arrival
ingest-Outcome s frame feed now_ns i room room' =
    elim (Bool-cases (ltb (length frame) header_len)) [
      | inl h ↦ simp h (delivered (done-Delivers _ (counted-IsSequencer i)))
      | inr h ↦
          simp (h, parse_header_ok frame h)
            (elim (Bool-cases (state_eq s.state dead)) [
              | inl d ↦ simp d (delivered (done-Delivers _ (counted-IsSequencer i)))
              | inr d ↦ simp d (
                  dispatched-Outcome frame feed now_ns (header_of frame)
                    (count_arrival frame feed s) s.counters.total_violations
                    (arrival_violations frame feed s) (counted-IsSequencer i) room room')
            ])
    ]

-- `ingest` keeps the sequencer's invariant, whatever the bytes of the frame are: the window's count is
-- right, the next number is not among the staged, and an open gap has evidence past the watermark.
-- It holds where the watermark and the frame's numbers stay 8192 below the end of the 64-bit range.
pub ingest-IsSequencer :
    (s : Sequencer) (frame : Bytes) (feed now_ns : ℕ)
    → IsSequencer s
    → InRange s.w
    → InRange (be64_at frame 10 + be16_at frame 18)
    → IsSequencer (ingest s frame feed now_ns).0
ingest-IsSequencer s frame feed now_ns i room room' =
    (ingest-Outcome s frame feed now_ns i room room').keeps

-- Under the invariant, and where the watermark and the frame's numbers stay 8192 below the end of the
-- 64-bit range, whatever the bytes of the frame are, the calls of
-- `ingest` deliver consecutive numbers, each once and in order, from the next number before the frame
-- (the frame's own first, if it is the anchor of its session) up to a number `upto`, and the watermark
-- does not fall. Either `upto` is the new watermark, or a violation is counted and the watermark is
-- left where it was.
pub ingest_gapless :
    (s : Sequencer) (frame : Bytes) (feed now_ns : ℕ)
    → IsSequencer s
    → InRange s.w
    → InRange (be64_at frame 10 + be16_at frame 18)
    → let start : ℕ = base_of s frame feed in
      let (s', calls) = ingest s frame feed now_ns in
      (upto : ℕ) × (expect start calls ≡ some upto)
      × (start ≤ s'.w)
      × ((upto ≡ s'.w)
          ⊎ ((s'.w ≡ start) × (s'.counters.total_violations ≡ add64 s.counters.total_violations 1)))
ingest_gapless s frame feed now_ns i room room' =
    let o = ingest-Outcome s frame feed now_ns i room room' in (o.upto, o.runs, o.up, o.settled)
