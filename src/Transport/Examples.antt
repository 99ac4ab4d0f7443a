-- ===== src/Transport/Examples.antt =====
-- crates/nf-transport/src/render.rs: the index of a frame with one system event.
use hft_proj.Prelude.{◌≡◌, refl, length, some}
use hft_proj.Protocol.Examples.{one_msg, some_session, one_frame, one_msg-Fits}
use hft_proj.Arbitrator.Sequencer.Indexed.Blocks.{triples}
use hft_proj.Arbitrator.Sequencer.Indexed.Spans.{AllValid}
use hft_proj.Transport.Index.{index_frame}
use hft_proj.Transport.Index.Frames.{leading_valid, index_frame-encode_frame}

index_frame-encode_frame_example :
    (index_frame one_frame (length one_frame) 5 1
      ≡ some (record { blocks = triples 20 5 one_msg; valid = leading_valid one_msg }))
    × (leading_valid one_msg ≡ 1 → AllValid one_msg)
index_frame-encode_frame_example = index_frame-encode_frame some_session 5 one_msg refl one_msg-Fits
