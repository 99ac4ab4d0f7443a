-- ===== src/Protocol/Moldudp64/Slicer/Items.antt =====
-- crates/nf-protocol/src/moldudp64.rs: the items of the speculative slicer's iterator.
use hft_proj.Protocol.Moldudp64.Slicer.Walks.{
  sliced_end, spec_loop_short, spec_loop-moves, spec_loop-sliced, sliced, Reads,
}
use hft_proj.Protocol.Moldudp64.Slicer.{
  shift, SpecMsg, spec_loop, lane_of, SpecSliceIter, spec_slice_walk, slice_window, spec_slice_512,
  SpecTableBuilder,
}
use hft_proj.Prelude.{
  get_or-drop, Bool, get_or-take, sym, subst, length-drop, drop, map, length-take, ◌⊎◌, min, ◌++◌,
  ap, ◌∙◌, ◌==◌, ltb, ◌%◌, byte_at, if-cases, ◌/◌, ◌<◌, ◌*◌, length, slice, Option, be16_at, inl,
  inr, ◌+◌, ◌-◌, ◌≤◌, ◌≡◌, ℕ, refl, true, false, none, some, List, [], ◌∷◌, Bytes, arith,
}

-- A builder's tables hold the 16-bit words at the even and at the odd offsets of a window, as far as both
-- bytes are real.
abbrev pub Builds : Option SpecTableBuilder → Type 0
Builds none = Unit
Builds (some build) =
    (chunk : Bytes) (j : ℕ)
    → length chunk ≤ 64
    → (2 * j + 2 ≤ length chunk → (build chunk).0 j ≡ be16_at chunk (2 * j))
      × (2 * j + 3 ≤ length chunk → (build chunk).1 j ≡ be16_at chunk (2 * j + 1))

lane_of-reads :
    (build : SpecTableBuilder) (chunk : Bytes) (p : ℕ)
    → Builds (some build)
    → length chunk ≤ 64
    → p + 2 ≤ length chunk
    → lane_of (build chunk) p ≡ be16_at chunk p
lane_of-reads build chunk p h s fits =
    let b = h chunk (p / 2) s in
    if-cases (λ (l : ℕ). l ≡ be16_at chunk p) (p % 2 == 0)
      (λ e.
        let even : 2 * (p / 2) ≡ p = ground (arith, e) in
        b.0 (omega (arith, even, fits)) ∙ ap (be16_at chunk) even)
      (λ e.
        let odd : 2 * (p / 2) + 1 ≡ p = ground (arith, e) in
        b.1 (omega (arith, odd, fits)) ∙ ap (be16_at chunk) odd)

-- The bytes of a window are the stream's.
be16_at-window :
    (buf : Bytes) (base n p : ℕ)
    → p + 2 ≤ n
    → be16_at (slice buf base (base + n)) p ≡ be16_at buf (base + p)
be16_at-window buf base n p h =
    let e : base + p + 1 ≡ base + (p + 1) = omega arith in
    rw (at p (omega arith), at (p + 1) (omega arith), e) refl
  where
    at : (k : ℕ) → k < n → byte_at (slice buf base (base + n)) k ≡ byte_at buf (base + k)
    at k lt =
        get_or-take (base + n - base) (drop base buf) k 0 (omega (arith, lt))
        ∙ get_or-drop base buf k 0

-- A window's walk reads the lengths at its offsets, whichever way they are found.
spec_slice_512-lane :
    (vec : Option SpecTableBuilder) (chunk : Bytes) (limit : ℕ)
    → Builds vec
    → length chunk ≤ 64
    → (lane : ℕ → ℕ) × ((p : ℕ) → p + 2 ≤ length chunk → lane p ≡ be16_at chunk p)
      × (spec_slice_512 vec chunk 0 limit ≡ spec_loop lane (length chunk) limit 16 0)
unfolding spec_slice_512 spec_slice_walk spec_loop
spec_slice_512-lane none chunk limit h s = (
  be16_at chunk,
  λ p k. refl,
  if-cases (λ (w : List SpecMsg × ℕ). w ≡ spec_loop (be16_at chunk) (length chunk) limit 16 0)
      (ltb (length chunk) 2) (λ e. sym (spec_loop_short (be16_at chunk) (length chunk) limit 15 e))
      (λ e. refl),
)
spec_slice_512-lane (some build) chunk limit h s = (
  lane_of (build chunk),
  λ p k. lane_of-reads build chunk p h s k,
  if-cases
      (λ (w : List SpecMsg × ℕ). w ≡ spec_loop (lane_of (build chunk)) (length chunk) limit 16 0)
      (ltb (length chunk) 2)
      (λ e. sym (spec_loop_short (lane_of (build chunk)) (length chunk) limit 15 e)) (λ e. refl),
)

-- What a window does: its descriptors and what follows are the stream's, and it makes progress or the
-- stream has no more blocks.
pub record IsSlice (buf : Bytes) (pos : ℕ) (done : Bool) (w : SpecSliceIter × ℕ) : Type 0 where
  pub same : w.0.batch ++ sliced buf w.0.pos ≡ sliced buf pos
  pub stream : w.0.buf ≡ buf
  pub still : w.0.done ≡ done
  pub moves : (0 < length w.0.batch × 0 < w.1) ⊎ ((w.1 ≡ 0) × (sliced buf pos ≡ []))

map_nonempty : (base : ℕ) (ms : List SpecMsg) → 0 < length ms → 0 < length (map (shift base) ms)
map_nonempty base [] h = absurd (omega arith)
map_nonempty base (m ∷ ms) h = omega arith

short_tail :
    (buf : Bytes) (pos n rem : ℕ)
    → pos + rem ≡ length buf
    → (n ≡ rem) ⊎ (n ≡ 64)
    → n < 2
    → length buf < pos + 2 + be16_at buf pos
short_tail buf pos n rem e (inl k) short = omega (arith, e, k, short)
short_tail buf pos n rem e (inr k) short = absurd (omega (arith, k, short))

-- Where the first block of a window is cut off, so is that of the stream.
cut_off :
    (buf : Bytes) (pos n rem : ℕ) (lane : ℕ → ℕ)
    → Reads buf pos n lane
    → pos + rem ≡ length buf
    → (n ≡ rem) ⊎ (n ≡ 64)
    → (n < 2) ⊎ (rem < 2 + lane 0)
    → length buf < pos + 2 + be16_at buf pos
cut_off buf pos n rem lane reads e k (inl short) = short_tail buf pos n rem e k short
cut_off buf pos n rem lane reads e k (inr cut) =
    if-cases (λ (b : Bool). length buf < pos + 2 + be16_at buf pos) (ltb n 2) {x = true} {y = false}
      (λ a. short_tail buf pos n rem e k (ground (arith, a)))
      (λ a.
        let zero_at : pos + 0 ≡ pos = omega arith in
        let l : lane 0 ≡ be16_at buf pos = reads 0 (ground (arith, a)) ∙ ap (be16_at buf) zero_at in
        omega (arith, e, cut, l))

moved :
    (buf : Bytes) (pos n rem : ℕ) (lane : ℕ → ℕ) (w : List SpecMsg × ℕ)
    → Reads buf pos n lane
    → pos + rem ≡ length buf
    → (n ≡ rem) ⊎ (n ≡ 64)
    → (0 < length w.0 × 0 < w.1) ⊎ ((w.0 ≡ []) × (w.1 ≡ 0) × ((n < 2) ⊎ (rem < 2 + lane 0)))
    → (0 < length (map (shift pos) w.0) × 0 < w.1) ⊎ ((w.1 ≡ 0) × (sliced buf pos ≡ []))
moved buf pos n rem lane w reads e k (inl (a, b)) = inl (map_nonempty pos w.0 a, b)
moved buf pos n rem lane w reads e k (inr (nil, z, c)) =
    inr (z, sliced_end buf pos (cut_off buf pos n rem lane reads e k c))

window_size : (n rem : ℕ) → n ≡ min rem 64 → (n ≡ rem) ⊎ (n ≡ 64)
window_size n rem h = ground (arith, h)

pub slice_window-IsSlice :
    (vec : Option SpecTableBuilder) (it : SpecSliceIter)
    → Builds vec
    → it.pos < length it.buf
    → length it.buf < 4294967296
    → IsSlice it.buf it.pos it.done (slice_window vec it)
unfolding slice_window
slice_window-IsSlice vec it h k small =
    let rem : ℕ = length it.buf - it.pos in
    let n : ℕ = min rem 64 in
    let chunk : Bytes = slice it.buf it.pos (it.pos + n) in
    let cl : length chunk ≡ n =
      omega (
        arith,
        length-take (it.pos + n - it.pos) (drop it.pos it.buf),
        length-drop it.pos it.buf,
      ) in
    let (lane, near, e) = spec_slice_512-lane vec chunk rem h (omega (arith, cl)) in
    let reads : Reads it.buf it.pos (length chunk) lane =
      λ p f. near p f ∙ be16_at-window it.buf it.pos n p (omega (arith, f, cl)) in
    let w : List SpecMsg × ℕ = spec_loop lane (length chunk) rem 16 0 in
    subst
      (λ (w : List SpecMsg × ℕ).
        IsSlice it.buf it.pos it.done
          (record it { batch = map (shift it.pos) w.0; pos = it.pos + w.1 }, w.1))
      (sym e)
      (record {
        same =
            spec_loop-sliced it.buf it.pos (length chunk) lane reads (omega (arith, cl, k)) small 16
              0
            ∙ ap (sliced it.buf) (omega arith);
        stream = refl;
        still = refl;
        moves =
            moved it.buf it.pos (length chunk) rem lane w reads (omega (arith, k))
              (window_size (length chunk) rem cl) (spec_loop-moves lane (length chunk) rem 15);
      })
