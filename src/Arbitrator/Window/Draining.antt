-- ===== src/Arbitrator/Window/Draining.antt =====
-- crates/nf-arbitrator/src/window.rs: `drain` against the partial map of staged messages.
use hft_proj.Prelude.{
  ℕ, zero, suc, ◌+◌, ◌-◌, ◌<◌, ◌≤◌, ◌≡◌, ◌≢◌, inl, inr, refl, sym, ap, ◌∙◌, true, false, ◌&&◌, List,
  [], ◌∷◌, arith, Bytes, Option, some, none, if◌then◌else◌, ltb, leb, ◌==◌, Bool-cases, ==_iff, u64,
  add64,
}
use hft_proj.Arbitrator.Types.{LiveFeedProof, Call, on_msg}
use hft_proj.Arbitrator.Window.{
  Window, Drained, slot_msg, slot_of, take_slot, with_first, reset_max, drain_loop, drain,
}
use hft_proj.Arbitrator.Window.Slots.{
  IsWindow, occupied-le, empty_of_occupied, content-take_slot, take_slot-IsWindow,
}
use hft_proj.Arbitrator.Window.Staging.{held}

-- The calls that hand over `n` messages in sequence from `w` on, as a map holds them.
unfoldable pub handed : LiveFeedProof → (ℕ → Option Bytes) → (w n : ℕ) → List Call
handed proof m w zero = []
handed proof m w (suc n) = elim (m w) [
  | none ↦ []
  | some msg ↦ on_msg proof w msg ∷ handed proof m (w + 1) n
]

handed-some :
    (proof : LiveFeedProof) (m : ℕ → Option Bytes) (w n : ℕ) {msg : Bytes}
    → m w ≡ some msg
    → handed proof m w (suc n) ≡ on_msg proof w msg ∷ handed proof m (w + 1) n
unfolding handed
handed-some proof m w n h = rw (h, handed)

handed_ext :
    (proof : LiveFeedProof) (m m' : ℕ → Option Bytes) (n w : ℕ)
    → ((j : ℕ) → w ≤ j → j < w + n → m j ≡ m' j)
    → handed proof m w n ≡ handed proof m' w n
unfolding handed
handed_ext proof m m' zero w h = refl
handed_ext proof m m' (suc n) w h = ground (
  arith,
  h w (omega arith) (omega arith),
  handed_ext proof m m' n (w + 1) (λ j lo hi. h j (omega arith) (omega arith)),
)

-- What a drain from `w` does: it hands over the messages from `w` on, without a gap, up to the first
-- number that is not held; it forgets these and no others; and what it takes for the new watermark
-- is not held.
pub record Drains (proof : LiveFeedProof) (win : Window) (w : ℕ) (d : Drained) : Type 0 where
  pub keeps : IsWindow d.win
  pub up : w ≤ d.w
  pub near : d.w ≤ w + win.staged_count
  pub number : d.emitted ≡ d.w - w
  pub each_held : (j : ℕ) → w ≤ j → j < d.w → held win w j ≢ none
  pub handed_over : d.calls ≡ handed proof (held win w) w (d.w - w)
  pub next_absent : held d.win d.w d.w ≡ none
  pub others :
      (j : ℕ) → held d.win d.w j ≡ (if leb d.w j && ltb j (w + 1024) then held win w j else none)

pub nothing_held :
    (win : Window) (w j : ℕ) → IsWindow win → win.staged_count ≡ 0 → held win w j ≡ none
nothing_held win w j v e = ground (arith, v.counted, empty_of_occupied 1024 win.lens (slot_of j))

-- A window that holds nothing, or not the watermark, is drained of nothing.
Drains-nothing :
    (proof : LiveFeedProof) {win : Window} (w : ℕ)
    → IsWindow win
    → held win w w ≡ none
    → Drains proof win w (record { win = win; w = w; emitted = 0; calls = [] })
unfolding handed
Drains-nothing proof {win} w v e = record {
  keeps = v;
  up = omega arith;
  near = omega arith;
  number = omega arith;
  each_held = λ j lo hi. absurd (omega arith);
  handed_over = let z : w - w ≡ 0 = omega arith in rw z;
  next_absent = e;
  others = λ j. ground arith;
}

module _ (proof : LiveFeedProof) {win : Window} (w : ℕ) (v : IsWindow win)
    (present : win.lens (slot_of w) ≢ 0) where
  abbrev next_win : Window
  next_win = take_slot win (slot_of w)

  -- After the message of the watermark is taken, the other messages are held as before.
  held_after :
      (j : ℕ)
      → held next_win (w + 1) j ≡ (if leb (w + 1) j && ltb j (w + 1024) then held win w j else none)
  held_after j = ground (arith, content-take_slot win (slot_of w) (slot_of j))

  held_first : held win w w ≡ some (slot_msg win (slot_of w))
  held_first = ground arith

  Drains-first :
      {d : Drained}
      → w + 2048 < u64
      → Drains proof next_win (w + 1) d
      → Drains proof win w (with_first (on_msg proof w (slot_msg win (slot_of w))) d)
  Drains-first {d} room r =
      let less : suc next_win.staged_count ≡ win.staged_count =
        (take_slot-IsWindow (slot_of w) v (omega arith) present).1 in
      let cap : win.staged_count ≤ 1024 = omega (arith, v.counted, occupied-le 1024 win.lens) in
      let n : d.w - w ≡ suc (d.w - (w + 1)) = omega (arith, r.up) in
      record {
        keeps = r.keeps;
        up = omega (arith, r.up);
        near = omega (arith, r.near, less);
        number = omega (arith, r.number, r.up, r.near, less, cap);
        each_held = λ j lo hi. elim (Bool-cases (j == w)) [
          | inl e ↦ let e' : j ≡ w = (==_iff j w).0 e in rw (e', held_first) (λ p. cc)
          | inr e ↦ λ p. r.each_held j (ground arith) hi (ground (arith, held_after j))
        ];
        handed_over =
            ap (λ (t : List Call). on_msg proof w (slot_msg win (slot_of w)) ∷ t)
              (r.handed_over
                ∙ handed_ext proof (held next_win (w + 1)) (held win w) (d.w - (w + 1)) (w + 1)
                    (λ j lo hi. ground (arith, held_after j, less, cap, r.near)))
            ∙ sym (handed-some proof (held win w) w (d.w - (w + 1)) held_first)
            ∙ ap (handed proof (held win w) w) (sym n);
        next_absent = r.next_absent;
        others = λ j. ground (arith, r.others j, held_after j, r.up);
      }

module _ (fuel : ℕ) (proof : LiveFeedProof) (win : Window) (w : ℕ) where
  abbrev round : Call
  round = on_msg proof w (slot_msg win (slot_of w))

  drain_loop_stop :
      (win.lens (slot_of w) == 0) ≡ true
      → drain_loop (suc fuel) proof win w ≡ record { win = win; w = w; emitted = 0; calls = [] }
  unfolding drain_loop
  drain_loop_stop e = rw (e, drain_loop)

  drain_loop_last :
      (win.lens (slot_of w) == 0) ≡ false
      → ((take_slot win (slot_of w)).staged_count == 0) ≡ true
      → drain_loop (suc fuel) proof win w
        ≡ with_first round
            (record { win = take_slot win (slot_of w); w = add64 w 1; emitted = 0; calls = [] })
  unfolding drain_loop
  drain_loop_last e l = rw (e, l, drain_loop)

  drain_loop_more :
      (win.lens (slot_of w) == 0) ≡ false
      → ((take_slot win (slot_of w)).staged_count == 0) ≡ false
      → drain_loop (suc fuel) proof win w
        ≡ with_first round (drain_loop fuel proof (take_slot win (slot_of w)) (add64 w 1))
  unfolding drain_loop
  drain_loop_more e l = rw (e, l, drain_loop)

-- The loop drains, if it has a round for each staged message.
drain_loop-Drains :
    (fuel : ℕ) (proof : LiveFeedProof) {win : Window} (w : ℕ)
    → IsWindow win
    → win.staged_count ≤ fuel
    → win.staged_count ≢ 0
    → w + fuel + 2048 < u64
    → Drains proof win w (drain_loop fuel proof win w)
drain_loop-Drains zero proof w v le ne room = absurd (omega arith)
drain_loop-Drains (suc fuel) proof {win} w v le ne room =
    let win' : Window = take_slot win (slot_of w) in
    let w' : add64 w 1 ≡ w + 1 = omega arith in
    elim (Bool-cases (win.lens (slot_of w) == 0)) [
      | inl absent ↦
          rw (drain_loop_stop fuel proof win w absent) (Drains-nothing proof w v (ground arith))
      | inr present ↦
          let ne' : win.lens (slot_of w) ≢ 0 = ground arith in
          let (v', less) = take_slot-IsWindow (slot_of w) v (omega arith) ne' in
          elim (Bool-cases (win'.staged_count == 0)) [
            | inl last ↦
                rw (drain_loop_last fuel proof win w present last, w')
                  (Drains-first proof w v ne' (omega arith) (
                    Drains-nothing proof (w + 1) v'
                      (nothing_held win' (w + 1) (w + 1) v' (ground arith))))
            | inr more ↦
                rw (drain_loop_more fuel proof win w present more, w')
                  (Drains-first proof w v ne' (omega arith) (
                    drain_loop-Drains fuel proof (w + 1) v' (omega arith) (ground arith)
                      (omega arith)))
          ]
    ]

reset_max-Drains :
    (proof : LiveFeedProof) {win : Window} (w : ℕ) {d : Drained}
    → Drains proof win w d
    → Drains proof win w (reset_max d)
reset_max-Drains proof w {d} r = elim (Bool-cases (d.win.staged_count == 0)) [
  | inl e ↦ rw e (record {
    keeps = record { counted = r.keeps.counted; small = r.keeps.small };
    up = r.up;
    near = r.near;
    number = r.number;
    each_held = r.each_held;
    handed_over = r.handed_over;
    next_absent = r.next_absent;
    others = r.others;
  })
  | inr e ↦ rw e r
]

-- `drain` hands over the staged messages from the watermark on, in order and without a gap, up to the
-- first number that is not staged; its loop ends there, or with the last staged message; the messages
-- past that number stay staged and no other number becomes so.
pub drain-Drains :
    (gen : ℕ) {win : Window} (w : ℕ)
    → IsWindow win
    → w + 4096 < u64
    → Drains (record { gen = gen }) win w (drain win w gen)
unfolding drain
drain-Drains gen {win} w v room = elim (Bool-cases (win.staged_count == 0)) [
  | inl e ↦ rw e (Drains-nothing _ w v (nothing_held win w w v (ground arith)))
  | inr e ↦ rw e (
      reset_max-Drains _ w (
        drain_loop-Drains win.staged_count _ w v (omega arith) (ground arith)
          (omega (arith, v.counted, occupied-le 1024 win.lens))))
]
