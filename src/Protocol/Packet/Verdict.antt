-- ===== src/Protocol/Packet/Verdict.antt =====
-- crates/nf-protocol/src/packet.rs: the verdicts of `ingest_walk` and of the two-phase
-- `validate_frame` on the same bytes.
use hft_proj.Prelude.{
  ℕ, zero, suc, ◌+◌, ◌-◌, ◌≤◌, ◌≡◌, ◌≢◌, ◌⊎◌, inl, inr, refl, sym, ap, ◌∙◌, true, List, [], ◌∷◌,
  ◌++◌, arith, length, slice, take, drop, Bytes, IsBytes, be16_at, add64, Result, ok, err, map_err,
  some, none, Bool-cases, length-take, length-drop, get_or, drop_add, get_or-drop, subst,
  length-zero, le→ltb,
}
use hft_proj.Protocol.Itch5.{ItchError, validate}
use hft_proj.Protocol.Moldudp64.{
  MessageBlock, MessageBlocks, parse, parse_header, Parsed, data_frame, Header, Next, next,
  exhausted, yielded, panicked, collect, skip_blocks, span, parse_body, parse_data, new_blocks,
}
use hft_proj.Protocol.Moldudp64.Wire.{encode_blocks}
use hft_proj.Protocol.Moldudp64.Blocks.{numbered}
use hft_proj.Protocol.Moldudp64.Frames.{parse_sound, parse_ok}
use hft_proj.Protocol.Packet.{
  PacketError, payload, Callback, walk_from, ingest_walk, visit, continue, has_block, block_end,
  validate_blocks, validate_frame,
}
use hft_proj.Protocol.Packet.Walk.{each, walk_from-encode}

Next-cases :
    (n : Next)
    → (n ≡ exhausted)
      ⊎ (n ≡ panicked)
      ⊎ (b : MessageBlock) × (it : MessageBlocks) × (n ≡ yielded b it)
Next-cases exhausted = inl refl
Next-cases panicked = inr (inl refl)
Next-cases (yielded b it) = inr (inr (b, it, refl))

-- The verdict of a list of messages: the first error of `validate`.
unfoldable pub verdict : List Bytes → Result ItchError (Unit {0})
verdict [] = ok tt
verdict (m ∷ ms) = elim (validate m) [ ok u ↦ verdict ms | err e ↦ err e ]

-- The callback that only validates.
abbrev pub check : Callback (Unit {0})
check seq msg s = (validate msg, s)

pub each-check :
    (ms : List Bytes) (seq : ℕ) → (each check seq 0 ms tt).0 ≡ map_err payload (verdict ms)
unfolding each verdict continue visit
each-check [] seq = refl
each-check (m ∷ ms) seq = ground (arith, each-check ms (add64 seq 1))

payloads-verdict :
    (fuel seq : ℕ) (it : MessageBlocks) (ms : List Bytes)
    → collect fuel it ≡ some (numbered seq ms)
    → validate_blocks fuel it ≡ some (verdict ms)
unfolding collect validate_blocks verdict numbered
payloads-verdict zero seq it ms h = cc
payloads-verdict (suc fuel) seq it [] h = ground arith
payloads-verdict (suc fuel) seq it (m ∷ ms) h = elim (Next-cases (next it)) [
  | inl e ↦ ground arith
  | inr (inl e) ↦ ground arith
  | inr (inr (b, it', e)) ↦ ground (arith, payloads-verdict fuel (add64 seq 1) it' ms)
]

parse_header_long : (buf : Bytes) (hdr : Header) → parse_header buf ≡ ok hdr → 20 ≤ length buf
unfolding parse_header
parse_header_long buf hdr h = ground arith

-- What `validate_frame` makes of a verdict on the blocks.
abbrev pub outcome : Parsed → Result PacketError (Unit {0}) → Result PacketError Parsed
outcome p (ok u) = ok p
outcome p (err e) = err e

validate_frame-data :
    (buf : Bytes) (hdr : Header) (it : MessageBlocks) (r : Result ItchError (Unit {0}))
    → parse buf ≡ ok (data_frame hdr it)
    → validate_blocks (suc it.remaining) it ≡ some r
    → validate_frame buf ≡ some (outcome (data_frame hdr it) (map_err payload r))
unfolding validate_frame
validate_frame-data buf hdr it (ok u) p v = ground arith
validate_frame-data buf hdr it (err e) p v = ground arith

-- On a data frame that `parse` accepts, the single-pass walk with the validating callback and the
-- two-phase `validate_frame` give the same verdict, with the same error, and neither panics.
pub validate_frame-eq-ingest_walk :
    (buf : Bytes) (hdr : Header) (it : MessageBlocks)
    → IsBytes buf
    → parse buf ≡ ok (data_frame hdr it)
    → validate_frame buf
      ≡ some (outcome (data_frame hdr it) (ingest_walk buf check hdr.seq hdr.count 0 tt).0)
unfolding ingest_walk
validate_frame-eq-ingest_walk buf hdr it b p =
    let (ms, cut, ph, n, fits, sp, items) = parse_sound buf hdr it b p in
    let n20 : 20 ≡ length (take 20 buf) =
      omega (arith, length-take 20 buf, parse_header_long buf hdr ph) in
    let rem : it.remaining ≡ hdr.count =
      unfold new_blocks in ap (λ (i : MessageBlocks). i.remaining) (parse_ok buf hdr it p).3 in
    let walk : (walk_from buf check 20 hdr.seq hdr.count 0 tt).0 ≡ map_err payload (verdict ms) =
      subst
        (λ (b' : Bytes).
          (walk_from b' check 20 hdr.seq hdr.count 0 tt).0 ≡ map_err payload (verdict ms))
        (sym cut)
        (subst
          (λ (k : ℕ).
            (walk_from (take 20 buf ++ encode_blocks ms) check 20 hdr.seq k 0 tt).0
            ≡ map_err payload (verdict ms))
          n
          (ap (λ (r : Result PacketError (Unit {0}) × Unit {0}). r.0)
              (walk_from-encode check ms (take 20 buf) 20 hdr.seq 0 tt fits n20)
            ∙ each-check ms hdr.seq)) in
    rw walk (
      validate_frame-data buf hdr it (verdict ms) p (
        subst (λ (k : ℕ). validate_blocks (suc k) it ≡ some (verdict ms)) (sym rem)
          (payloads-verdict (suc hdr.count) hdr.seq it ms items)))

continue_ok :
    {S : Type 0} (r : Result ItchError (Unit {0}) × S)
    (rest : S → Result PacketError (Unit {0}) × S)
    → (continue r rest).0 ≡ ok tt
    → (s : S) × ((rest s).0 ≡ ok tt)
unfolding continue
continue_ok (ok u, s) rest h = (s, h)
continue_ok (err e, s) rest h = cc

-- The test of the walk at `pos` is that of the loop of `parse` on the rest from `pos` on.
has_block-drop :
    (frame : Bytes) (pos : ℕ)
    → has_block frame pos ≡ true
    → (2 ≤ length (drop pos frame))
      × (2 + be16_at (drop pos frame) 0 ≤ length (drop pos frame))
      × (drop (2 + be16_at (drop pos frame) 0) (drop pos frame) ≡ drop (block_end frame pos) frame)
unfolding has_block block_end
has_block-drop frame pos h =
    let b0 : get_or (drop pos frame) 0 0 ≡ get_or frame pos 0 =
      get_or-drop pos frame 0 0 ∙ ap (λ (k : ℕ). get_or frame k 0) (omega arith) in
    let b1 : get_or (drop pos frame) 1 0 ≡ get_or frame (pos + 1) 0 = get_or-drop pos frame 1 0 in
    let len : length (drop pos frame) ≡ length frame - pos = length-drop pos frame in
    rw (b0, b1)
      (
        ground (arith, len),
        ground (arith, len),
        sym (drop_add frame pos (2 + be16_at frame pos))
            ∙ ap (λ (k : ℕ). drop k frame) (omega arith),
      )

module _ {S : Type 0} (frame : Bytes) (f : Callback S) where
  -- A walk that succeeds has seen well-formed blocks up to the end of the frame.
  walk_from_sound :
      (count pos seq skip : ℕ) (s : S)
      → (walk_from frame f pos seq count skip s).0 ≡ ok tt
      → skip_blocks (drop pos frame) count ≡ ok []
  unfolding walk_from skip_blocks
  walk_from_sound zero pos seq skip s h =
      ap ok (length-zero (drop pos frame) (ground (arith, length-drop pos frame)))
  walk_from_sound (suc count) pos seq skip s h = elim (Bool-cases (has_block frame pos)) [
    | inr stop ↦ cc (rw stop at h)
    | inl go ↦
        let (two, room, cut) = has_block-drop frame pos go in
        let (s', more) =
          continue_ok (visit f seq skip (slice frame (pos + 2) (block_end frame pos)) s)
            (λ s''. walk_from frame f (block_end frame pos) (add64 seq 1) count (skip - 1) s'')
            (rw go at h) in
        rw (cut, le→ltb _ _ two, le→ltb _ _ room)
          (walk_from_sound count (block_end frame pos) (add64 seq 1) (skip - 1) s' more)
  ]

parse_data-ok :
    (buf : Bytes) (hdr : Header)
    → parse_header buf ≡ ok hdr
    → span hdr ≢ none
    → skip_blocks (drop 20 buf) hdr.count ≡ ok []
    → parse buf ≡ ok (data_frame hdr (new_blocks (drop 20 buf) hdr.seq hdr.count))
unfolding parse parse_body parse_data span
parse_data-ok buf hdr ph sp sk = ground (arith, parse_header_long buf hdr ph)

-- Whatever its callback does, `ingest_walk` returns `Ok` on a data frame with a span only if `parse`
-- accepts that frame.
pub parse-ingest_walk :
    {S : Type 0} (buf : Bytes) (f : Callback S) (hdr : Header) (skip : ℕ) (s : S)
    → parse_header buf ≡ ok hdr
    → span hdr ≢ none
    → (ingest_walk buf f hdr.seq hdr.count skip s).0 ≡ ok tt
    → parse buf ≡ ok (data_frame hdr (new_blocks (drop 20 buf) hdr.seq hdr.count))
unfolding ingest_walk
parse-ingest_walk buf f hdr skip s ph sp w =
    parse_data-ok buf hdr ph sp (walk_from_sound buf f hdr.count 20 hdr.seq skip s w)
