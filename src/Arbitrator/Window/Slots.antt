-- ===== src/Arbitrator/Window/Slots.antt =====
-- crates/nf-arbitrator/src/window.rs: the slots of the window one by one, and the invariant that ties
-- `staged_count` to the presence bytes.
use hft_proj.Prelude.{
  ℕ, zero, suc, ◌+◌, ◌<◌, ◌≤◌, ◌≡◌, ◌≢◌, ◌⊎◌, inl, inr, refl, ap, ◌∙◌, [], ◌∷◌, arith, length,
  Bytes, Option, some, none, if◌then◌else◌, ◌==◌, Bool-cases, ==_refl, ==_iff,
}
use hft_proj.Arbitrator.Window.{Array, put, Window, write_bytes, read_bytes, slot_msg, take_slot}

-- 1 for an occupied slot.
abbrev pub mark : ℕ → ℕ
mark l = if l == 0 then 0 else 1

-- How many of the first `n` slots are occupied.
unfoldable pub occupied : ℕ → Array → ℕ
occupied zero a = 0
occupied (suc n) a = mark (a n) + occupied n a

occupied-put_above : (n : ℕ) (a : Array) (i v : ℕ) → n ≤ i → occupied n (put a i v) ≡ occupied n a
unfolding occupied
occupied-put_above zero a i v h = refl
occupied-put_above (suc n) a i v h = ground (arith, occupied-put_above n a i v)

pub occupied-put :
    (n : ℕ) (a : Array) (i v : ℕ)
    → i < n
    → occupied n (put a i v) + mark (a i) ≡ occupied n a + mark v
unfolding occupied
occupied-put zero a i v h = absurd (omega arith)
occupied-put (suc n) a i v h = elim (Bool-cases (n == i)) [
  | inl e ↦
      let n=i : n ≡ i = (==_iff n i).0 e in
      rw (e, occupied-put_above n a i v (omega arith), n=i) (omega arith)
  | inr e ↦ rw e (omega (arith, occupied-put n a i v (ground arith)))
]

pub occupied-le : (n : ℕ) (a : Array) → occupied n a ≤ n
unfolding occupied
occupied-le zero a = omega arith
occupied-le (suc n) a = ground (arith, occupied-le n a)

-- No slot is occupied where the count is 0.
pub empty_of_occupied : (n : ℕ) (a : Array) (i : ℕ) → occupied n a ≡ 0 → i < n → a i ≡ 0
unfolding occupied
empty_of_occupied zero a i h lt = absurd (omega arith)
empty_of_occupied (suc n) a i h lt = elim (Bool-cases (n == i)) [
  | inl e ↦ let n=i : n ≡ i = (==_iff n i).0 e in rw (← n=i) (ground arith)
  | inr e ↦ empty_of_occupied n a i (ground arith) (ground arith)
]

-- An occupied slot is counted.
pub occupied_pos : (n : ℕ) (a : Array) (i : ℕ) → i < n → a i ≢ 0 → 0 < occupied n a
unfolding occupied
occupied_pos n a i lt h = elim (Bool-cases (occupied n a == 0)) [
  | inl e ↦ absurd (h (empty_of_occupied n a i (ground arith) lt))
  | inr e ↦ ground arith
]

pub occupied-none : (n : ℕ) → occupied n (λ _. 0) ≡ 0
unfolding occupied
occupied-none zero = refl
occupied-none (suc n) = omega (arith, occupied-none n)

-- The invariant of the window: the count is right, and a presence byte stands for at most 64 bytes.
pub record IsWindow (win : Window) : Type 0 where
  pub counted : win.staged_count ≡ occupied 1024 win.lens
  pub small : (i : ℕ) → i < 1024 → win.lens i ≤ 65

-- What a slot holds.
abbrev pub content : Window → ℕ → Option Bytes
content win i = if win.lens i == 0 then none else some (slot_msg win i)

read_bytes-put_off :
    (n : ℕ) (a : Array) (i v start : ℕ)
    → (i < start) ⊎ (start + n ≤ i)
    → read_bytes (put a i v) start n ≡ read_bytes a start n
unfolding read_bytes
read_bytes-put_off zero a i v start h = refl
read_bytes-put_off (suc n) a i v start h =
    ground (arith, read_bytes-put_off n a i v (start + 1) (omega arith))

-- A write leaves the bytes outside its range alone.
pub read_bytes-write_off :
    (bs : Bytes) (a : Array) (s start n : ℕ)
    → (s + length bs ≤ start) ⊎ (start + n ≤ s)
    → read_bytes (write_bytes a s bs) start n ≡ read_bytes a start n
unfolding write_bytes
read_bytes-write_off [] a s start n h = refl
read_bytes-write_off (b ∷ bs) a s start n h =
    read_bytes-put_off n (write_bytes a (s + 1) bs) s b start (omega arith)
    ∙ read_bytes-write_off bs a (s + 1) start n (omega arith)

-- What was written is read back.
pub read_bytes-write_self :
    (bs : Bytes) (a : Array) (s : ℕ) → read_bytes (write_bytes a s bs) s (length bs) ≡ bs
unfolding write_bytes read_bytes
read_bytes-write_self [] a s = refl
read_bytes-write_self (b ∷ bs) a s = rw (==_refl s) (
    ap (λ (t : Bytes). b ∷ t)
      (read_bytes-put_off (length bs) (write_bytes a (s + 1) bs) s b (s + 1) (omega arith)
        ∙ read_bytes-write_self bs a (s + 1)))

-- A slot that is taken is empty, and the others keep their content.
pub content-take_slot :
    (win : Window) (s i : ℕ)
    → content (take_slot win s) i ≡ (if i == s then none else content win i)
content-take_slot win s i = ground arith

-- Taking an occupied slot keeps the invariant, and counts one message less.
pub take_slot-IsWindow :
    {win : Window} (s : ℕ)
    → IsWindow win
    → s < 1024
    → win.lens s ≢ 0
    → IsWindow (take_slot win s) × (suc (take_slot win s).staged_count ≡ win.staged_count)
take_slot-IsWindow {win} s v lt h =
    let pos : 0 < occupied 1024 win.lens = occupied_pos 1024 win.lens s lt h in
    let low : occupied 1024 win.lens ≤ 1024 = occupied-le 1024 win.lens in
    let step : occupied 1024 (put win.lens s 0) + mark (win.lens s) ≡ occupied 1024 win.lens + 0 =
      occupied-put 1024 win.lens s 0 lt in
    let cnt : win.staged_count ≡ occupied 1024 win.lens = v.counted in
    (record { counted = ground arith; small = λ i hi. ground (arith, v.small i hi) }, omega arith)
