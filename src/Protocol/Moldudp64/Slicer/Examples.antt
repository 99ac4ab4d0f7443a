-- ===== src/Protocol/Moldudp64/Slicer/Examples.antt =====
-- crates/nf-protocol/src/moldudp64.rs: the slicer on the body of a frame with one message.
use hft_proj.Protocol.Moldudp64.Slicer.Tallied.{spec_slice_ingest-fold_each, lens_of}
use hft_proj.Protocol.Moldudp64.Slicer.Ingest.{fold_each, spec_slice_ingest}
use hft_proj.Protocol.Moldudp64.Slicer.Encoded.{collect_slices-collect, cut_out}
use hft_proj.Protocol.Moldudp64.Slicer.Messages.{collect_slices-sliced}
use hft_proj.Protocol.Examples.{
  is_bytes_sound, one_frame_parsed, one_frame-IsBytes, one_header, one_blocks, one_frame,
}
use hft_proj.Protocol.Moldudp64.{collect, MessageBlock}
use hft_proj.Protocol.Moldudp64.Slicer.Items.{Builds}
use hft_proj.Protocol.Moldudp64.Wire.{encode_blocks, encode_header, encode_frame}
use hft_proj.Protocol.Moldudp64.Slicer.Walks.{sliced, blocks_from}
use hft_proj.Protocol.Moldudp64.Slicer.{spec_slices, SpecMsg, collect_slices, SpecTableBuilder}
use hft_proj.Prelude.{
  IsBytes, map, arith, ◌<◌, ◌+◌, drop, length, ◌*◌, suc, be16_at, List, ◌≡◌, refl, some, none, [],
  ◌∷◌,
}

-- Tables read off the window.
abbrev plain_builder : SpecTableBuilder
plain_builder = λ chunk. (λ j. be16_at chunk (2 * j), λ j. be16_at chunk (2 * j + 1))

plain_builder-Builds : Builds (some plain_builder)
plain_builder-Builds chunk j s = (λ h. refl, λ h. refl)

one_body_sliced : sliced (drop 20 one_frame) 0 ≡ record { off = 2; len = 12 } ∷ []
unfolding blocks_from encode_frame encode_header encode_blocks
one_body_sliced = refl

one_body_small : length (drop 20 one_frame) < 4294967296
unfolding encode_frame encode_header encode_blocks
one_body_small = omega arith

collect_slices-sliced_example :
    collect_slices
      (some plain_builder)
      (suc (length (sliced (drop 20 one_frame) 0)))
      (spec_slices (drop 20 one_frame))
    ≡ some (sliced (drop 20 one_frame) 0)
collect_slices-sliced_example =
    collect_slices-sliced (some plain_builder) (drop 20 one_frame) plain_builder-Builds
      one_body_small

one_frame_small : length one_frame < 4294967296
unfolding encode_frame encode_header encode_blocks
one_frame_small = omega arith

collect_slices-collect_example :
    (ds : List SpecMsg) × (bs : List MessageBlock) × (collect_slices none 2
        (spec_slices (drop 20 one_frame))
      ≡ some ds)
    × (collect 2 one_blocks ≡ some bs)
    × (length ds ≡ 1)
    × (map (cut_out (drop 20 one_frame)) ds ≡ map (λ b. b.payload) bs)
collect_slices-collect_example =
    collect_slices-collect none one_frame one_header one_blocks tt one_frame-IsBytes one_frame_small
      one_frame_parsed

one_body-IsBytes : IsBytes (drop 20 one_frame)
unfolding encode_frame encode_header encode_blocks
one_body-IsBytes = is_bytes_sound (drop 20 one_frame) refl

spec_slice_ingest-fold_each_example :
    spec_slice_ingest (drop 20 one_frame) 7
    ≡ some (
      length (lens_of (sliced (drop 20 one_frame) 0)),
      fold_each 7 (lens_of (sliced (drop 20 one_frame) 0)),
    )
spec_slice_ingest-fold_each_example =
    spec_slice_ingest-fold_each (drop 20 one_frame) 7 one_body-IsBytes (omega arith)
