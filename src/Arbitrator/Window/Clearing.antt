-- ===== src/Arbitrator/Window/Clearing.antt =====
-- crates/nf-arbitrator/src/window.rs: `clear_slots`, the clear-on-advance law, against the partial map
-- of staged messages.
use hft_proj.Prelude.{
  ℕ, zero, suc, ◌+◌, ◌-◌, ◌<◌, ◌≤◌, ◌≡◌, inl, inr, Bool, true, ◌&&◌, ◌||◌, arith, min, none,
  if◌then◌else◌, ltb, leb, ◌==◌, Bool-cases, u64, sat_add64,
}
use hft_proj.Arbitrator.Window.{
  Window, slot_of, clear_cell, was_last, clear_run, clear_slots, window_slots,
}
use hft_proj.Arbitrator.Window.Slots.{
  IsWindow, content, empty_of_occupied, content-take_slot, take_slot-IsWindow,
}
use hft_proj.Arbitrator.Window.Staging.{held}
use hft_proj.Arbitrator.Window.Draining.{nothing_held}

abbrev inside : (start n i : ℕ) → Bool
inside start n i = leb start i && ltb i (start + n)

-- The cells from `start` to `start + n` are emptied, and the others keep their content.
record Clears (start n : ℕ) (win win' : Window) : Type 0 where
  keeps : IsWindow win'
  cells : (i : ℕ) → i < 1024 → content win' i ≡ (if inside start n i then none else content win i)

content-clear_cell :
    (win : Window) (s i : ℕ)
    → content (clear_cell win s) i ≡ (if i == s then none else content win i)
content-clear_cell win s i = ground (arith, content-take_slot win s i)

clear_cell-IsWindow : {win : Window} (s : ℕ) → IsWindow win → s < 1024 → IsWindow (clear_cell win s)
clear_cell-IsWindow {win} s v lt = elim (Bool-cases (win.lens s == 0)) [
  | inl e ↦ rw e v
  | inr e ↦ rw e (take_slot-IsWindow s v lt (ground arith)).0
]

none_of_count :
    {win : Window} (i : ℕ) → IsWindow win → win.staged_count ≡ 0 → i < 1024 → content win i ≡ none
none_of_count {win} i v e lt = rw (empty_of_occupied 1024 win.lens i (omega (arith, v.counted)) lt)

-- A loop that returned early has emptied the whole window.
clear_run-Clears :
    (n start : ℕ) {win : Window}
    → IsWindow win
    → start + n ≤ 1024
    → Clears start n win (clear_run n start win).1
      × ((clear_run n start win).0 ≡ true → (clear_run n start win).1.staged_count ≡ 0)
unfolding clear_run
clear_run-Clears zero start {win} v h =
    (record { keeps = v; cells = λ i lt. ground arith }, λ e. cc)
clear_run-Clears (suc n) start {win} v h =
    let win' : Window = clear_cell win start in
    let v' : IsWindow win' = clear_cell-IsWindow start v (omega arith) in
    elim (Bool-cases (was_last win start)) [
      | inl last ↦
          let none_left : win'.staged_count ≡ 0 = ground arith in
          rw (last, clear_run)
            (
              record {
                keeps = record { counted = v'.counted; small = v'.small };
                cells = λ i lt.
                    ground (arith, none_of_count i v' none_left lt, content-clear_cell win start i);
              },
              λ e. none_left,
            )
      | inr more ↦
          let r = clear_run-Clears n (start + 1) v' (omega arith) in
          rw (more, clear_run)
            (
              record {
                keeps = r.0.keeps;
                cells = λ i lt. ground (arith, r.0.cells i lt, content-clear_cell win start i);
              },
              r.1,
            )
    ]

-- What is held once the cells of the numbers from `old_w` to `new_w` are empty.
record Advances (win : Window) (old_w new_w : ℕ) (win' : Window) : Type 0 where
  keeps : IsWindow win'
  holds :
      (j : ℕ)
      → held win' new_w j ≡ (if leb new_w j && ltb j (old_w + 1024) then held win old_w j else none)

module _ {win : Window} (old_w new_w : ℕ) (v : IsWindow win) (up : old_w ≤ new_w)
    (room : old_w + 1024 < u64) where
  abbrev reach : ℕ
  reach = min new_w (sat_add64 old_w window_slots) - old_w

  abbrev chunk : ℕ
  chunk = min (window_slots - slot_of old_w) reach

  Advances-cells :
      {win' : Window}
      → IsWindow win'
      → ((i : ℕ)
          → i < 1024
          → content win' i ≡ (
              if inside (slot_of old_w) chunk i || inside 0 (reach - chunk) i
              then none
              else content win i))
      → Advances win old_w new_w win'
  Advances-cells {win'} k c = record {
    keeps = k;
    holds = λ j. ground (arith, c (slot_of j) (omega arith));
  }

  -- When the watermark advances over a window, `clear_slots` drops every message below the new
  -- watermark, keeps every message that is held past it, and makes no number held that was not: a slot
  -- that the new range reuses is empty.
  pub clear_slots-held :
      IsWindow (clear_slots win old_w new_w)
      × ((j : ℕ)
          → held (clear_slots win old_w new_w) new_w j
            ≡ (if leb new_w j && ltb j (old_w + 1024) then held win old_w j else none))
  unfolding clear_slots
  clear_slots-held = elim (Bool-cases (win.staged_count == 0)) [
    | inl e ↦
        let z : win.staged_count ≡ 0 = ground arith in
        rw e (v, λ j. ground (arith, nothing_held win new_w j v z, nothing_held win old_w j v z))
    | inr e ↦ elim (Bool-cases (leb (min new_w (sat_add64 old_w window_slots)) old_w)) [
      | inl l ↦ rw (e, l) (v, λ j. ground arith)
      | inr l ↦ elim (Bool-cases (clear_run chunk (slot_of old_w) win).0) [
        | inl s ↦
            let left = r.1 s in
            let a =
              Advances-cells r.0.keeps
                (λ i lt. ground (arith, r.0.cells i lt, none_of_count i r.0.keeps left lt)) in
            rw (e, l, s) (a.keeps, a.holds)
        | inr s ↦
            let q = (clear_run-Clears (reach - chunk) 0 r.0.keeps (omega arith)).0 in
            let a = Advances-cells q.keeps (λ i lt. ground (arith, r.0.cells i lt, q.cells i lt)) in
            rw (e, l, s) (a.keeps, a.holds)
      ]
    ]
  ]
    where
      r :
          Clears (slot_of old_w) chunk win (clear_run chunk (slot_of old_w) win).1
          × ((clear_run chunk (slot_of old_w) win).0 ≡ true
              → (clear_run chunk (slot_of old_w) win).1.staged_count ≡ 0)
      r = clear_run-Clears chunk (slot_of old_w) v (omega arith)
