-- ===== src/Arbitrator/State/Invariant.antt =====
-- crates/nf-arbitrator/src/lib.rs: the invariant of the sequencer's state, and the numbers that a trace
-- of sink calls delivers.
use hft_proj.Prelude.{
  ℕ, ◌+◌, ◌<◌, ◌≤◌, ◌≡◌, refl, sym, ap, ◌∙◌, inl, inr, Option-cases, true, false, Option, none,
  some, List, [], ◌∷◌, ◌++◌, if◌then◌else◌, ◌==◌, arith,
}
use hft_proj.Arbitrator.Types.{
  init, state_eq, no_mutation, Event, Call, on_event, on_msg, on_span, on_span_batch, SpanRec, Log,
  ◌>>=◌, done, emit,
}
use hft_proj.Arbitrator.Counters.{Counters}
use hft_proj.Arbitrator.Window.Slots.{IsWindow}
use hft_proj.Arbitrator.Window.Staging.{held}
use hft_proj.Arbitrator.State.{Sequencer}

-- The number that a trace delivers next, where `w` was the next before it; `none` if a message is
-- out of order, repeated or missing.
abbrev pub expect_spans : ℕ → List SpanRec → Option ℕ
expect_spans w [] = some w
expect_spans w (r ∷ rs) = if r.first_seq == w then expect_spans (w + r.count) rs else none

unfoldable pub expect : ℕ → List Call → Option ℕ
expect w [] = some w
expect w (on_event e ∷ cs) = expect w cs
expect w (on_msg proof seq msg ∷ cs) = if seq == w then expect (w + 1) cs else none
expect w (on_span proof r ∷ cs) = if r.first_seq == w then expect (w + r.count) cs else none
expect w (on_span_batch proof rs ∷ cs) = elim (expect_spans w rs) [
  | none ↦ none
  | some w' ↦ expect w' cs
]

pub expect-append :
    (xs ys : List Call) (a b : ℕ) → expect a xs ≡ some b → expect a (xs ++ ys) ≡ expect b ys
unfolding expect
expect-append [] ys a b h = ground arith
expect-append (on_event e ∷ xs) ys a b h = expect-append xs ys a b h
expect-append (on_msg proof seq msg ∷ xs) ys a b h = ground (arith, expect-append xs ys (a + 1) b)
expect-append (on_span proof r ∷ xs) ys a b h = ground (arith, expect-append xs ys (a + r.count) b)
expect-append (on_span_batch proof rs ∷ xs) ys a b h = elim (Option-cases (expect_spans a rs)) [
  | inl e ↦ cc (e, h)
  | inr (a', e) ↦
      rw (e, expect) (expect-append xs ys a' b (sym (ap (λ (o : Option ℕ). onward o) e) ∙ h))
]
  where
    onward : Option ℕ → Option ℕ
    onward none = none
    onward (some w') = expect w' xs

-- The invariant of the production sequencer.
pub record IsSequencer (s : Sequencer) : Type 0 where
  -- the window's count and lengths are right
  pub window : IsWindow s.win
  -- the next number is not among the staged
  pub vacant : held s.win s.w s.w ≡ none
  -- an open gap has evidence past the watermark
  pub gapped : s.gap_active ≡ true → s.w < s.evidence_hwm
  -- before the anchor nothing is staged and no gap is open
  pub fresh : state_eq s.state init ≡ true → (s.gap_active ≡ false) × (s.win.staged_count ≡ 0)
  pub production : s.mutation ≡ no_mutation

-- The invariant does not read the counters.
pub counted-IsSequencer :
    {s : Sequencer} {c : Counters} → IsSequencer s → IsSequencer (record s { counters = c })
counted-IsSequencer i = record {
  window = i.window;
  vacant = i.vacant;
  gapped = i.gapped;
  fresh = i.fresh;
  production = i.production;
}

-- A step that delivers the numbers from `w` to its new watermark, each once and in order.
pub record Delivers (w : ℕ) (m : Log Sequencer) : Type 0 where
  pub keeps : IsSequencer m.0
  pub runs : expect w m.1 ≡ some m.0.w
  pub up : w ≤ m.0.w

pub bind-Delivers :
    (w : ℕ) (m : Log Sequencer) (f : Sequencer → Log Sequencer)
    → Delivers w m
    → Delivers m.0.w (f m.0)
    → Delivers w (m >>= f)
bind-Delivers w m f p q = record {
  keeps = q.keeps;
  runs = expect-append m.1 (f m.0).1 w m.0.w p.runs ∙ q.runs;
  up = omega (arith, p.up, q.up);
}

pub done-Delivers : (s : Sequencer) → IsSequencer s → Delivers s.w (done s)
done-Delivers s i = record { keeps = i; runs = unfold expect in refl; up = omega arith }

pub emit-Delivers : (s : Sequencer) (e : Event) → IsSequencer s → Delivers s.w (emit s (on_event e))
emit-Delivers s e i = record { keeps = i; runs = unfold expect in refl; up = omega arith }
