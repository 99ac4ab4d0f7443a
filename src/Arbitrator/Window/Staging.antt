-- ===== src/Arbitrator/Window/Staging.antt =====
-- crates/nf-arbitrator/src/window.rs: `stage_msg` against a partial map from sequence numbers to
-- messages.
use hft_proj.Prelude.{
  ℕ, suc, ◌+◌, ◌-◌, ◌*◌, ◌%◌, ◌<◌, ◌≤◌, ◌≡◌, inl, inr, refl, ◌↔◌, true, false, ◌&&◌, arith, length,
  take-length, Bytes, Option, some, none, if◌then◌else◌, ltb, leb, ◌==◌, Bool-cases, ==_refl,
  ==_iff, u64, min,
}
use hft_proj.Arbitrator.Window.{Window, slot_of, in_window, store, stage_msg}
use hft_proj.Arbitrator.Window.Slots.{
  IsWindow, content, occupied-put, occupied-le, read_bytes-write_self, read_bytes-write_off,
}

-- The message held for a sequence number, where the watermark is `w`.
abbrev pub held : Window → ℕ → ℕ → Option Bytes
held win w seq = if leb w seq && ltb seq (w + 1024) then content win (slot_of seq) else none

-- `stage_msg` accepts exactly the 1024 sequence numbers that follow the watermark, where
-- these stay below 2^64.
pub stage_msg_iff :
    (win : Window) (w seq : ℕ) (msg : Bytes)
    → seq < u64
    → w + 1024 < u64
    → ((stage_msg win w seq msg).0 ≡ true) ↔ ((w < seq) × (seq ≤ w + 1024))
unfolding stage_msg
stage_msg_iff win w seq msg hs hw = (λ h. ground arith, λ h. ground arith)

-- The slot that is written holds the message, and every other slot what it held.
content-store_self :
    (win : Window) (seq : ℕ) (msg : Bytes)
    → length msg ≤ 64
    → content (store win seq msg) (slot_of seq) ≡ some msg
unfolding store
content-store_self win seq msg h =
    let n : min (length msg) 64 ≡ length msg = omega arith in
    let l : (length msg % 256 + 1) % 256 ≡ suc (length msg) = omega arith in
    let p : suc (length msg) - 1 ≡ length msg = omega arith in
    rw (n, take-length msg, ==_refl (slot_of seq), l, p)
      (ground (arith, read_bytes-write_self msg win.arena (slot_of seq * 64)))

content-store_ne :
    (win : Window) (seq i : ℕ) (msg : Bytes)
    → length msg ≤ 64
    → win.lens i ≤ 65
    → (i == slot_of seq) ≡ false
    → content (store win seq msg) i ≡ content win i
unfolding store
content-store_ne win seq i msg h small e =
    let n : min (length msg) 64 ≡ length msg = omega arith in
    rw (n, take-length msg, e)
      (ground (
        arith,
        read_bytes-write_off msg win.arena (slot_of seq * 64) (i * 64) (win.lens i - 1)
            (ground arith),
      ))

store-IsWindow :
    {win : Window} (seq : ℕ) (msg : Bytes)
    → length msg ≤ 64
    → IsWindow win
    → IsWindow (store win seq msg)
unfolding store
store-IsWindow {win} seq msg h v =
    let s : ℕ = slot_of seq in
    let n : min (length msg) 64 ≡ length msg = omega arith in
    let l : ℕ = (length msg % 256 + 1) % 256 in
    rw n (record {
      counted = ground (
        arith,
        v.counted,
        occupied-put 1024 win.lens s l (omega arith),
        occupied-le 1024 win.lens,
      );
      small = λ i hi. ground (arith, v.small i hi);
    })

-- A message of at most 64 bytes in front of the watermark and within 1023 of it is staged: the window
-- then holds that message for its number, holds for every other number what it held, and keeps its
-- invariant.
pub stage_msg-held :
    {win : Window} (w seq : ℕ) (msg : Bytes)
    → IsWindow win
    → length msg ≤ 64
    → w < seq
    → seq < w + 1024
    → w + 1024 < u64
    → ((stage_msg win w seq msg).0 ≡ true)
      × IsWindow (stage_msg win w seq msg).1
      × ((j : ℕ)
          → held (stage_msg win w seq msg).1 w j ≡ (if j == seq then some msg else held win w j))
unfolding stage_msg
stage_msg-held {win} w seq msg v small lo hi room =
    let adm : in_window w seq ≡ true = ground arith in
    rw adm (refl, store-IsWindow seq msg small v, λ j. at j)
  where
    at : (j : ℕ) → held (store win seq msg) w j ≡ (if j == seq then some msg else held win w j)
    at j = elim (Bool-cases (j == seq)) [
      | inl e ↦
          let j=seq : j ≡ seq = (==_iff j seq).0 e in
          rw (e, j=seq) (ground (arith, content-store_self win seq msg small))
      | inr e ↦ elim (Bool-cases (leb w j && ltb j (w + 1024))) [
        | inl inside ↦
            rw (e, inside)
              (content-store_ne win seq (slot_of j) msg small (v.small (slot_of j) (omega arith))
                (ground arith))
        | inr outside ↦ rw (e, outside)
      ]
    ]
