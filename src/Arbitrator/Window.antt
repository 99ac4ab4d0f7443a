-- ===== src/Arbitrator/Window.antt =====
-- crates/nf-arbitrator/src/window.rs: the reorder window, a ring of 1024 presence bytes over an arena
-- of 1024 slots of 64 bytes. Arrays are functions of the index.
pub mod Slots
pub mod Staging
pub mod Clearing
pub mod Draining
use hft_proj.Prelude.{
  ℕ, zero, suc, ◌+◌, ◌-◌, ◌*◌, ◌%◌, ◌^◌, min, Bool, true, false, List, [], ◌∷◌, if◌then◌else◌, ltb,
  leb, ◌==◌, not, ◌&&◌, length, take, Bytes, add64, sub64, add32, sat_add64,
}
use hft_proj.Arbitrator.Types.{LiveFeedProof, Call, on_msg}

abbrev pub window_slots : ℕ
window_slots = 1024

abbrev pub slot_size : ℕ
slot_size = 64

abbrev pub Array : Type 0
Array = ℕ → ℕ

abbrev pub put : Array → ℕ → ℕ → Array
put a i v j = if j == i then v else a j

-- The fields of the sequencer that window.rs takes by reference.
pub record Window : Type 0 where
  pub lens : Array
  pub arena : Array
  pub staged_count : ℕ
  pub max_staged : ℕ

-- `staged_count -= 1` on a `u32`
abbrev pub dec32 : ℕ → ℕ
dec32 n = (n + 2 ^ 32 - 1) % 2 ^ 32

-- `seq & WINDOW_MASK`
abbrev pub slot_of : ℕ → ℕ
slot_of seq = seq % window_slots

-- `arena[start..start + len].copy_from_slice(bytes)`
unfoldable pub write_bytes : Array → ℕ → Bytes → Array
write_bytes arena start [] = arena
write_bytes arena start (b ∷ bs) = put (write_bytes arena (start + 1) bs) start b

-- `&arena[start..start + len]`
unfoldable pub read_bytes : Array → ℕ → ℕ → Bytes
read_bytes arena start zero = []
read_bytes arena start (suc len) = arena start ∷ read_bytes arena (start + 1) len

unfoldable pub in_window : ℕ → ℕ → Bool
in_window w seq = ltb (sub64 (sub64 seq w) 1) window_slots

unfoldable pub store : Window → ℕ → Bytes → Window
store win seq msg =
    let slot = slot_of seq in
    let len = min (length msg) slot_size in
    record win {
      staged_count = if win.lens slot == 0 then add32 win.staged_count 1 else win.staged_count;
      lens = put win.lens slot ((len % 256 + 1) % 256);
      arena = write_bytes win.arena (slot * 64) (take len msg);
    }

-- The flag says whether the message was staged.
unfoldable pub stage_msg : Window → (w seq : ℕ) → Bytes → Bool × Window
unfolding in_window store
stage_msg win w seq msg = if in_window w seq then (true, store win seq msg) else (false, win)

-- One cell of a clearing loop.
abbrev pub clear_cell : Window → ℕ → Window
clear_cell win i =
    if win.lens i == 0
    then win
    else record win { lens = put win.lens i 0; staged_count = dec32 win.staged_count }

-- The cell was the last that was staged: the loop returns.
abbrev pub was_last : Window → ℕ → Bool
was_last win i = not (win.lens i == 0) && dec32 win.staged_count == 0

-- One of the two linear loops of `clear_slots`; the flag says that it returned early.
unfoldable pub clear_run : ℕ → ℕ → Window → Bool × Window
clear_run zero i win = (false, win)
clear_run (suc n) i win = elim (was_last win i) [
  | true ↦ (true, record (clear_cell win i) { max_staged = 0 })
  | false ↦ clear_run n (i + 1) (clear_cell win i)
]

unfoldable pub clear_slots : Window → (old_w new_w : ℕ) → Window
unfolding clear_run
clear_slots win old_w new_w =
    let limit = min new_w (sat_add64 old_w window_slots) in
    let n = limit - old_w in
    let start = slot_of old_w in
    let first_n = min (window_slots - start) n in
    let (stopped, win') = clear_run first_n start win in
    if win.staged_count == 0
    then win
    else if leb limit old_w
    then win
    else if stopped
    then win'
    else (clear_run (n - first_n) 0 win').1

pub record Drained : Type 0 where
  pub win : Window
  pub w : ℕ
  pub emitted : ℕ
  pub calls : List Call

abbrev pub take_slot : Window → ℕ → Window
take_slot win slot = record win {
  lens = put win.lens slot 0;
  staged_count = dec32 win.staged_count;
}

-- The bytes of an occupied slot.
abbrev pub slot_msg : Window → ℕ → Bytes
slot_msg win slot = read_bytes win.arena (slot * 64) (win.lens slot - 1)

-- A round of the loop in front of the later rounds.
abbrev pub with_first : Call → Drained → Drained
with_first c d = record d { emitted = add64 d.emitted 1; calls = c ∷ d.calls }

-- The loop of `drain`. Each round takes a staged message and the loop ends with the last, so
-- `staged_count` rounds are enough.
unfoldable pub drain_loop : ℕ → LiveFeedProof → Window → ℕ → Drained
drain_loop zero proof win wv = record { win = win; w = wv; emitted = 0; calls = [] }
drain_loop (suc fuel) proof win wv =
    let slot = slot_of wv in
    let win' = take_slot win slot in
    let c = on_msg proof wv (slot_msg win slot) in
    let last : Drained = record { win = win'; w = add64 wv 1; emitted = 1; calls = c ∷ [] } in
    elim (win.lens slot == 0) [
      | true ↦ record { win = win; w = wv; emitted = 0; calls = [] }
      | false ↦ elim (win'.staged_count == 0) [
        | true ↦ last
        | false ↦ with_first c (drain_loop fuel proof win' (add64 wv 1))
      ]
    ]

-- The end of `drain`: nothing staged, no maximum.
abbrev pub reset_max : Drained → Drained
reset_max d =
    if d.win.staged_count == 0 then record d { win = record (d.win) { max_staged = 0 } } else d

unfoldable pub drain : Window → (w gen : ℕ) → Drained
unfolding drain_loop
drain win w gen =
    if win.staged_count == 0
    then record { win = win; w = w; emitted = 0; calls = [] }
    else reset_max (drain_loop win.staged_count (record { gen = gen }) win w)
