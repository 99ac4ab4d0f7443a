-- ===== src/Protocol/Moldudp64/Slicer.antt =====
-- crates/nf-protocol/src/moldudp64.rs: the speculative slicer of a block stream, window by window.
pub mod Walks
pub mod Items
pub mod Messages
pub mod Encoded
pub mod Words
pub mod Ingest
pub mod Tallied
mod Examples
use hft_proj.Prelude.{
  ◌||◌, ◌+◌, ◌-◌, ◌%◌, ◌*◌, ◌/◌, ◌==◌, ℕ, zero, suc, Bool, true, false, Option, none, some, List,
  [], ◌∷◌, if◌then◌else◌, ltb, leb, min, map, length, slice, Bytes, be16_at,
}

pub record SpecMsg : Type 0 where
  pub off : ℕ
  pub len : ℕ

-- A builder of the two tables of candidate lengths, at the even and at the odd offsets of a window.
abbrev pub SpecTableBuilder : Type 0
SpecTableBuilder = Bytes → (ℕ → ℕ) × (ℕ → ℕ)

abbrev pub spec_slice_cap : ℕ
spec_slice_cap = 16

abbrev pub with_msg : SpecMsg → List SpecMsg × ℕ → List SpecMsg × ℕ
with_msg m (ms, p) = (m ∷ ms, p)

-- The walk of a window of `n` bytes from `p` on, with `room` descriptors left, where `lane p` is the
-- length that stands at `p`.
unfoldable pub spec_loop : (lane : ℕ → ℕ) (n limit room p : ℕ) → List SpecMsg × ℕ
spec_loop lane n limit zero p = ([], p)
spec_loop lane n limit (suc room) p =
    let l = lane p in
    let rest = spec_loop lane n limit room (p + 2 + l) in
    if ltb n (p + 2)
    then ([], p)
    else if ltb limit (p + 2 + l)
    then ([], p)
    else with_msg (record { off = (p + 2) % 4294967296; len = l }) rest

abbrev pub lane_of : (ℕ → ℕ) × (ℕ → ℕ) → ℕ → ℕ
lane_of (e_tab, o_tab) p = if p % 2 == 0 then e_tab (p / 2) else o_tab (p / 2)

unfoldable pub spec_slice_walk : (ℕ → ℕ) × (ℕ → ℕ) → (n start limit : ℕ) → List SpecMsg × ℕ
unfolding spec_loop
spec_slice_walk tabs n start limit = spec_loop (lane_of tabs) n limit spec_slice_cap start

-- One window, with the tables of a builder if `spec_vec_active`, or read directly.
unfoldable pub spec_slice_512 :
    Option SpecTableBuilder → Bytes → (start limit : ℕ) → List SpecMsg × ℕ
unfolding spec_slice_walk spec_loop
spec_slice_512 vec chunk start limit = if ltb (length chunk) 2 then ([], start) else elim vec [
  | some build ↦ spec_slice_walk (build chunk) (length chunk) start limit
  | none ↦ spec_loop (be16_at chunk) (length chunk) limit spec_slice_cap start
]

-- The iterator; `batch` holds the descriptors from `i` up to `n`, which are not yielded yet.
pub record SpecSliceIter : Type 0 where
  pub buf : Bytes
  pub pos : ℕ
  pub batch : List SpecMsg
  pub done : Bool

unfoldable pub spec_slices : Bytes → SpecSliceIter
spec_slices payload = record { buf = payload; pos = 0; batch = []; done = length payload == 0 }

-- `m.off += base as u32`
abbrev pub shift : ℕ → SpecMsg → SpecMsg
shift base m = record m { off = (m.off + base % 4294967296) % 4294967296 }

-- The next window: the iterator behind it, and how far the walk came.
unfoldable pub slice_window : Option SpecTableBuilder → SpecSliceIter → SpecSliceIter × ℕ
unfolding spec_slice_512
slice_window vec it =
    let rem = length it.buf - it.pos in
    let w = spec_slice_512 vec (slice it.buf it.pos (it.pos + min rem 64)) 0 rem in
    (record it { batch = map (shift it.pos) w.0; pos = it.pos + w.1 }, w.1)

abbrev pub set_done : SpecSliceIter → SpecSliceIter
set_done it = record it { done = true }

module _ (vec : Option SpecTableBuilder) where
  -- One round of `refill` with an empty batch, before `again`.
  unfoldable pub refill_window :
      SpecSliceIter
      → (SpecSliceIter → Option (Bool × SpecSliceIter))
      → Option (Bool × SpecSliceIter)
  unfolding slice_window
  refill_window it again =
      if it.done || leb (length it.buf) it.pos
      then some (false, set_done it)
      else (let (it', p_final) = slice_window vec it in
          if p_final == 0 then some (false, set_done (record it' { batch = [] })) else again it')

  -- The loop of `refill`; `none` where the fuel runs out.
  unfoldable pub refill_loop : (fuel : ℕ) → SpecSliceIter → Option (Bool × SpecSliceIter)
  unfolding refill_window
  refill_loop zero it = none
  refill_loop (suc fuel) it = elim it.batch [
    | m ∷ ms ↦ some (true, it)
    | [] ↦ refill_window it (refill_loop fuel)
  ]

  -- `refill`: a window gives a descriptor or ends the loop, so two rounds are enough.
  abbrev pub refill : SpecSliceIter → Option (Bool × SpecSliceIter)
  refill = refill_loop 2

  -- `batch[i]`, and `i += 1`.
  abbrev pub take_first : SpecSliceIter → Option SpecMsg × SpecSliceIter
  take_first it = elim it.batch [ [] ↦ (none, it) | m ∷ ms ↦ (some m, record it { batch = ms }) ]

  abbrev pub after_refill : Option (Bool × SpecSliceIter) → Option (Option SpecMsg × SpecSliceIter)
  after_refill none = none
  after_refill (some (false, it)) = some (none, it)
  after_refill (some (true, it)) = some (take_first it)

  unfoldable pub spec_next : SpecSliceIter → Option (Option SpecMsg × SpecSliceIter)
  unfolding refill_loop
  spec_next it = elim it.batch [ [] ↦ after_refill (refill it) | m ∷ ms ↦ some (take_first it) ]

  abbrev pub onto : SpecMsg → Option (List SpecMsg) → Option (List SpecMsg)
  onto m none = none
  onto m (some ms) = some (m ∷ ms)

  abbrev pub yield_to :
      Option (Option SpecMsg × SpecSliceIter)
      → (SpecSliceIter → Option (List SpecMsg))
      → Option (List SpecMsg)
  yield_to none rest = none
  yield_to (some (none, it)) rest = some []
  yield_to (some (some m, it)) rest = onto m (rest it)

  -- A `for` loop over the iterator; `none` where the fuel runs out.
  unfoldable pub collect_slices : (fuel : ℕ) → SpecSliceIter → Option (List SpecMsg)
  unfolding spec_next
  collect_slices zero it = none
  collect_slices (suc fuel) it = yield_to (spec_next it) (collect_slices fuel)
