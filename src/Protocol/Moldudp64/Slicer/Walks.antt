-- ===== src/Protocol/Moldudp64/Slicer/Walks.antt =====
-- crates/nf-protocol/src/moldudp64.rs: the walk of a window against the walk of the whole stream.
use hft_proj.Protocol.Moldudp64.Slicer.{shift, spec_loop, SpecMsg}
use hft_proj.Prelude.{
  sym, ◌⊎◌, inl, inr, ap, ◌%◌, if-cases, ◌++◌, map, ◌-◌, ltb, ◌<◌, ◌∙◌, length, be16_at, ◌+◌, ◌≤◌,
  ◌≡◌, ℕ, zero, suc, refl, true, List, [], ◌∷◌, if◌then◌else◌, Bytes, arith,
}

-- The reference: the blocks from `pos` on, up to the end of the stream or to a block that it cuts off.
unfoldable pub blocks_from : (fuel : ℕ) (buf : Bytes) (pos : ℕ) → List SpecMsg
blocks_from zero buf pos = []
blocks_from (suc fuel) buf pos =
    let l = be16_at buf pos in
    let rest = blocks_from fuel buf (pos + 2 + l) in
    if ltb (length buf) (pos + 2)
    then []
    else if ltb (length buf) (pos + 2 + l)
    then []
    else record { off = pos + 2; len = l } ∷ rest

-- Each block takes two bytes or more.
abbrev pub sliced : (buf : Bytes) (pos : ℕ) → List SpecMsg
sliced buf pos = blocks_from (length buf) buf pos

blocks_from_enough :
    (f g : ℕ) (buf : Bytes) (pos : ℕ)
    → length buf ≤ pos + f
    → length buf ≤ pos + g
    → blocks_from f buf pos ≡ blocks_from g buf pos
unfolding blocks_from
blocks_from_enough zero zero buf pos h k = refl
blocks_from_enough zero (suc g) buf pos h k = ground arith
blocks_from_enough (suc f) zero buf pos h k = ground arith
blocks_from_enough (suc f) (suc g) buf pos h k =
    let ih = blocks_from_enough f g buf (pos + 2 + be16_at buf pos) (omega arith) (omega arith) in
    ground (arith, ih)

-- One step of the reference.
abbrev pub step_from : Bytes → ℕ → List SpecMsg
step_from buf pos =
    if ltb (length buf) (pos + 2)
    then []
    else if ltb (length buf) (pos + 2 + be16_at buf pos)
    then []
    else record { off = pos + 2; len = be16_at buf pos } ∷ sliced buf (pos + 2 + be16_at buf pos)

pub sliced-step : (buf : Bytes) (pos : ℕ) → sliced buf pos ≡ step_from buf pos
unfolding blocks_from
sliced-step buf pos =
    let e =
      blocks_from_enough (length buf) (suc (length buf)) buf pos (omega arith) (omega arith) in
    let k = blocks_from_enough (length buf) (length buf) buf (pos + 2 + be16_at buf pos) in e ∙ refl

-- A block of length `l` at `pos`, and the rest of the stream.
abbrev block_at : Bytes → (pos l : ℕ) → List SpecMsg
block_at buf pos l = record { off = pos + 2; len = l } ∷ sliced buf (pos + 2 + l)

-- The lane of a window at `base`.
abbrev pub Reads : (buf : Bytes) (base n : ℕ) → (ℕ → ℕ) → Type 0
Reads buf base n lane = (p : ℕ) → p + 2 ≤ n → lane p ≡ be16_at buf (base + p)

-- A window's descriptors, and those from where it stopped, are the stream's.
pub spec_loop-sliced :
    (buf : Bytes) (base n : ℕ) (lane : ℕ → ℕ)
    → Reads buf base n lane
    → base + n ≤ length buf
    → length buf < 4294967296
    → (room p : ℕ)
    → let w : List SpecMsg × ℕ = spec_loop lane n (length buf - base) room p in
      map (shift base) w.0 ++ sliced buf (base + w.1) ≡ sliced buf (base + p)
unfolding spec_loop
spec_loop-sliced buf base n lane reads fits small zero p = refl
spec_loop-sliced buf base n lane reads fits small (suc room) p =
    let l : ℕ = lane p in
    let rest : List SpecMsg × ℕ = spec_loop lane n (length buf - base) room (p + 2 + l) in
    let ih = spec_loop-sliced buf base n lane reads fits small room (p + 2 + l) in
    let P : List SpecMsg × ℕ → Type 0 =
      λ w. map (shift base) w.0 ++ sliced buf (base + w.1) ≡ sliced buf (base + p) in
    if-cases P (ltb n (p + 2)) (λ _. refl)
      (λ a.
        if-cases P (ltb (length buf - base) (p + 2 + l)) (λ _. refl)
          (λ b.
            let here : lane p ≡ be16_at buf (base + p) = reads p (ground (arith, a)) in
            let room' : base + p + 2 + l ≤ length buf = ground (arith, a, b, fits) in
            let off : ((p + 2) % 4294967296 + base % 4294967296) % 4294967296 ≡ base + p + 2 =
              omega (arith, room', small) in
            let tail : map (shift base) rest.0 ++ sliced buf (base + rest.1)
                ≡ sliced buf (base + p + 2 + l) =
              ih ∙ ap (sliced buf) (omega arith) in
            let end : base + p + 2 + be16_at buf (base + p) ≤ length buf =
              omega (arith, room', here) in
            let whole : step_from buf (base + p)
                ≡ block_at buf (base + p) (be16_at buf (base + p)) =
              ground (arith, end) in
            (λ i. record { off = off i; len = l } ∷ tail i)
            ∙ ap (block_at buf (base + p)) here
            ∙ sym (sliced-step buf (base + p) ∙ whole)))

-- A walk never goes back.
pub spec_loop-ge : (lane : ℕ → ℕ) (n limit room p : ℕ) → p ≤ (spec_loop lane n limit room p).1
unfolding spec_loop
spec_loop-ge lane n limit zero p = omega arith
spec_loop-ge lane n limit (suc room) p =
    ground (arith, spec_loop-ge lane n limit room (p + 2 + lane p))

-- A window that yields a descriptor moves on, and one without stands at the end of the stream's blocks.
pub spec_loop-moves :
    (lane : ℕ → ℕ) (n limit room : ℕ)
    → let w : List SpecMsg × ℕ = spec_loop lane n limit (suc room) 0 in
      (0 < length w.0 × 0 < w.1) ⊎ ((w.0 ≡ []) × (w.1 ≡ 0) × ((n < 2) ⊎ (limit < 2 + lane 0)))
unfolding spec_loop
spec_loop-moves lane n limit room =
    let w : List SpecMsg × ℕ = spec_loop lane n limit room (2 + lane 0) in
    let P : List SpecMsg × ℕ → Type 0 = λ w.
      (0 < length w.0 × 0 < w.1) ⊎ ((w.0 ≡ []) × (w.1 ≡ 0) × ((n < 2) ⊎ (limit < 2 + lane 0))) in
    if-cases P (ltb n 2) (λ a. inr (refl, refl, inl (ground (arith, a))))
      (λ a.
        if-cases P (ltb limit (2 + lane 0)) (λ b. inr (refl, refl, inr (ground (arith, b))))
          (λ b. inl (omega arith, omega (arith, spec_loop-ge lane n limit room (2 + lane 0)))))

pub spec_loop_short :
    (lane : ℕ → ℕ) (n limit room : ℕ)
    → ltb n 2 ≡ true
    → spec_loop lane n limit (suc room) 0 ≡ ([], 0)
unfolding spec_loop
spec_loop_short lane n limit room e = rw e refl

-- Where a length field or a block is cut off, the stream has no more blocks.
pub sliced_end :
    (buf : Bytes) (pos : ℕ) → length buf < pos + 2 + be16_at buf pos → sliced buf pos ≡ []
sliced_end buf pos h =
    sliced-step buf pos
    ∙ if-cases (λ (xs : List SpecMsg). xs ≡ []) (ltb (length buf) (pos + 2)) (λ a. refl)
        (λ a.
          if-cases (λ (xs : List SpecMsg). xs ≡ []) (ltb (length buf) (pos + 2 + be16_at buf pos))
            (λ b. refl) (λ b. absurd (ground (arith, b, h))))
