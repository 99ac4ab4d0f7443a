-- ===== src/Protocol/Moldudp64/Slicer/Encoded.antt =====
-- crates/nf-protocol/src/moldudp64.rs: the speculative slicer against the block iterator of a frame.
use hft_proj.Protocol.Moldudp64.Slicer.Messages.{collect_slices-sliced}
use hft_proj.Protocol.Moldudp64.Frames.{parse_sound}
use hft_proj.Protocol.Packet.Walk.{regroup_block}
use hft_proj.Protocol.Moldudp64.Slicer.Items.{Builds}
use hft_proj.Protocol.Moldudp64.Slicer.Walks.{sliced-step, sliced_end, sliced}
use hft_proj.Protocol.Moldudp64.{
  parse_header, collect, data_frame, parse, MessageBlocks, Header, MessageBlock,
}
use hft_proj.Protocol.Moldudp64.Slicer.{spec_slices, collect_slices, SpecTableBuilder, SpecMsg}
use hft_proj.Protocol.Moldudp64.Wire.{Fits, encode_blocks}
use hft_proj.Protocol.Moldudp64.Blocks.{slice_block, length-block, be16_at_block, numbered}
use hft_proj.Prelude.{
  length-take, take, drop-append, length-drop, drop, ◌∙◌, ok, ltb, sym, subst, ◌<◌, length-append,
  IsBytes, add64, be16_at, ap, length, to_be16, slice, ◌++◌, map, All, Option, ◌+◌, ◌≤◌, ◌≡◌, ℕ,
  suc, refl, false, some, List, [], ◌∷◌, Bytes, arith,
}

-- The payload that a descriptor points at.
abbrev pub cut_out : Bytes → SpecMsg → Bytes
cut_out stream d = slice stream d.off (d.off + d.len)

block_found :
    (pre m tail : Bytes)
    → Fits m
    → let b : Bytes = pre ++ (to_be16 (length m) ++ (m ++ tail)) in
      sliced b (length pre)
      ≡ record { off = length pre + 2; len = length m } ∷ sliced b (length pre + 2 + length m)
block_found pre m tail h =
    let b : Bytes = pre ++ (to_be16 (length m) ++ (m ++ tail)) in
    let l : be16_at b (length pre) ≡ length m = be16_at_block pre m tail h in
    let long = length-block pre m tail in
    let short : ltb (length b) (length pre + 2) ≡ false = ground (arith, long) in
    let fits : ltb (length b) (length pre + 2 + length m) ≡ false = ground (arith, long) in
    sliced-step b (length pre) ∙ rw (l, short, fits) refl

-- The blocks behind a front are the encoded messages.
sliced-encode :
    (ms : List Bytes) (pre : Bytes)
    → All Fits ms
    → let b : Bytes = pre ++ encode_blocks ms in
      (map (cut_out b) (sliced b (length pre)) ≡ ms) × (length (sliced b (length pre)) ≡ length ms)
unfolding encode_blocks
sliced-encode [] pre h =
    let b : Bytes = pre ++ [] in
    let e : sliced b (length pre) ≡ [] =
      sliced_end b (length pre) (omega (arith, length-append pre [])) in
    (ap (map (cut_out b)) e, ap length e)
sliced-encode (m ∷ ms) pre h =
    let b : Bytes = pre ++ (to_be16 (length m) ++ (m ++ encode_blocks ms)) in
    let pre' : Bytes = pre ++ (to_be16 (length m) ++ m) in
    let ih = sliced-encode ms pre' h.1 in
    let end : length pre' ≡ length pre + 2 + length m =
      omega (arith, length-append pre (to_be16 (length m) ++ m)) in
    let e = block_found pre m (encode_blocks ms) h.0 in
    let P : Bytes → ℕ → Type 0 =
      λ b p. (map (cut_out b) (sliced b p) ≡ ms) × (length (sliced b p) ≡ length ms) in
    let later : P b (length pre + 2 + length m) = subst (P b) end (
      subst (λ (b : Bytes). P b (length pre')) (sym (regroup_block pre m (encode_blocks ms))) ih) in
    (
      ap (map (cut_out b)) e ∙ (λ i.
          slice_block pre m (encode_blocks ms) (length pre + 2 + length m) refl i ∷ later.0 i),
      ap length e ∙ ap suc later.1,
    )

payloads_of-numbered :
    (seq : ℕ) (ms : List Bytes) → map (λ (b : MessageBlock). b.payload) (numbered seq ms) ≡ ms
unfolding numbered
payloads_of-numbered seq [] = refl
payloads_of-numbered seq (m ∷ ms) = ap (λ t. m ∷ t) (payloads_of-numbered (add64 seq 1) ms)

header_read : (buf : Bytes) (hdr : Header) → parse_header buf ≡ ok hdr → 20 ≤ length buf
unfolding parse_header
header_read buf hdr h = ground (arith, h)

-- On the body of a data frame that `parse` accepts, a loop over the slicer ends and yields as many
-- descriptors as the header counts, and they point at the payloads that the block iterator of the frame
-- yields, in its order; whether the windows are read directly or with a builder's right tables. The
-- frame is of bytes, and its body is shorter than 2 ^ 32.
pub collect_slices-collect :
    (vec : Option SpecTableBuilder) (buf : Bytes) (hdr : Header) (it : MessageBlocks)
    → Builds vec
    → IsBytes buf
    → length buf < 4294967296
    → parse buf ≡ ok (data_frame hdr it)
    → (ds : List SpecMsg) × (bs : List MessageBlock) × (collect_slices vec
          (suc hdr.count)
          (spec_slices (drop 20 buf))
        ≡ some ds)
      × (collect (suc hdr.count) it ≡ some bs)
      × (length ds ≡ hdr.count)
      × (map (cut_out (drop 20 buf)) ds ≡ map (λ b. b.payload) bs)
collect_slices-collect vec buf hdr it builds bytes small e =
    let (ms, split, ph, n, fits, sp, col) = parse_sound buf hdr it bytes e in
    let body : drop 20 buf ≡ encode_blocks ms =
      ap (drop 20) split
      ∙ drop-append (take 20 buf) (encode_blocks ms) 20
          (omega (arith, length-take 20 buf, header_read buf hdr ph)) in
    let s = sliced-encode ms [] fits in
    let P : Bytes → Type 0 =
      λ (b : Bytes). (map (cut_out b) (sliced b 0) ≡ ms) × (length (sliced b 0) ≡ length ms) in
    let s' : P (drop 20 buf) = subst P (sym body) s in
    let count : length (sliced (drop 20 buf) 0) ≡ hdr.count = s'.1 ∙ n in
    let all =
      collect_slices-sliced vec (drop 20 buf) builds (omega (arith, small, length-drop 20 buf)) in
    (
      sliced (drop 20 buf) 0,
      numbered hdr.seq ms,
      subst
          (λ (k : ℕ).
            collect_slices vec (suc k) (spec_slices (drop 20 buf)) ≡ some (sliced (drop 20 buf) 0))
          count all,
      col,
      count,
      s'.0 ∙ sym (payloads_of-numbered hdr.seq ms),
    )
