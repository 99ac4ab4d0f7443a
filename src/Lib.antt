-- ===== src/Lib.antt =====
-- A model of the market-data path of HFT-Proj: the MoldUDP64 and ITCH 5.0 codecs, the frame walk that
-- joins them, the arbitrator that puts two feeds of numbered frames in sequence, and the block index
-- that the replay transport hands to it.
--
-- How the parts meet. A frame is a list of bytes. `Sequencer::ingest` decodes its header, dispatches
-- its session, and walks its blocks once with `packet::ingest_walk`, which calls a callback on each
-- block: on the contiguous path the callback validates a message and hands it to the sink, on the gap
-- path it validates it and stages it in the reorder window. When the watermark advances, the window is
-- cleared below it and drained from it. `ingest_indexed` does the same with the blocks that the
-- transport found when it rendered the frame, and may hand over a run of blocks by one span call. The
-- batched loops take the frame entries that the transport publishes: a run of steady frames goes through
-- a scan that keeps the watermark and the counters in locals and buffers the span calls, alone or in
-- groups of eight or sixteen that a kernel verifies at once, and a frame that is not steady goes through
-- `ingest_auto`.
--
-- Which file models which part (paths from the repository's root):
--   Prelude: words of 16, 32 and 64 bits as native numbers, lists, results. A release build has
--     `overflow-checks = false`, so sums of 64-bit words wrap.
--   Protocol/Moldudp64: crates/nf-protocol/src/moldudp64.rs. Wire writes frames as the grammar of
--     docs/02-moldudp64.md; Blocks and Frames are about `parse` and the iterator.
--   Protocol/Moldudp64/Slicer: `spec_slice_walk`, `spec_slice_512` and `SpecSliceIter` of moldudp64.rs.
--     Walks has the reference walk, Items and Messages compare the iterator with it, Encoded with the
--     block iterator of a frame. Ingest models `spec_slice_ingest`, Words is about its rotations, and
--     Tallied about what it returns.
--   Protocol/Itch5: crates/nf-protocol/src/itch5.rs. Table compares `validate` with the table of message
--     types of docs/03-itch5.md. Overlays models the nine overlays, of which each read tests its own
--     indices, and Accepted is about their `parse` and their reads.
--   Protocol/Packet: crates/nf-protocol/src/packet.rs. Walk and Verdict are about `ingest_walk` and
--     `validate_frame`.
--   Arbitrator/Types, Counters: crates/nf-arbitrator/src/types.rs, state.rs, counters.rs. A sink is the
--     trace of the calls made on it: a step returns its new state and its calls in order (`Log`).
--   Arbitrator/Window: window.rs. Slots, Staging, Clearing and Draining read a window as a partial map
--     from sequence numbers to messages (`held`).
--   Arbitrator/State: the fields of lib.rs's `Sequencer`, its constructors, gap.rs and session.rs.
--     Invariant, Lifecycle, Template, Boundary, Announce and Reanchor are about them.
--   Arbitrator/Sequencer: `ingest` of lib.rs. Walks, Staged, Delivery, Outcomes, Gapless, Duplicates and
--     Ended are about it.
--   Arbitrator/Sequencer/Indexed: `ingest_indexed` and `ingest_auto`. Blocks, Spans, Emission, Paths and
--     Equivalence compare them with `ingest`.
--   Arbitrator/Steady: `steady_step`, `RecEmitter` and the scan's loop of lib.rs.
--   Arbitrator/Batch: `steady_ready`, `cold_apply`, `ingest_batch`, `ingest_entries` and `replay_apply`.
--     Contract says what the transport promises of an entry. Steps, Tallies, Emitters, Runs, Scans and
--     Equivalence compare the loops with `ingest_auto` frame by frame; Range, Bounds, Indexed and Sessions
--     keep the words in range and the session template right.
--   Arbitrator/Batch/Ladder: `ladder_group_apply`, `ladder_group16_apply`, `steady_scan_ladder` and
--     `ingest_entries_ladder` of lib.rs, and `ladder8_scalar` of crates/nf-testkit/src/soa.rs. Pairs,
--     Kernel, Groups and Equivalence are about them.
--   Arbitrator/Intent: intent.rs.
--   Transport/Index: the index walk of crates/nf-transport/src/render.rs.
--   Transport/Publish: `build_frame_master` and `warm_rewrite_session` of render.rs, `master_patch_range`
--     of crates/nf-transport/src/pipeline.rs. Entries, Patches and Batches are about them.
--   Each Examples file has concrete states and frames, and the theorems at them.
--
-- Calls with spans are compared after `spread` has put, for each span, the calls for its messages. A
-- span stands for messages only if it keeps the contract of `Sink::on_span`: its first number is that
-- of its first block, and its count the number of its blocks; another span's call is kept as it is.
--
-- Conventions. Fixed arrays are functions of the index, of which only the indices in range are used.
-- Lengths and offsets (`usize`) are numbers that do not wrap. The sink's `wants_spans` is an argument.
-- The fields of `ViolationCounters` that share a name with an error constructor are renamed
-- (`truncated_frames`, `trailing`, `overruns`, `zero_length`, `overflows`).
--
-- Bounds and fuel. The loop of `drain` runs on `staged_count` rounds: each round takes one staged message
-- and the loop ends with the last. A `for` loop over the block iterator runs on one call more than the
-- blocks that remain. The loop of a batch runs on one round more than the batch has frames: each round
-- applies a frame or is the last. `refill` of the slicer runs at most two rounds, since a window yields a
-- descriptor or ends the iteration. The outer loop of `spec_slice_ingest` runs on one round more than
-- the stream has bytes. All other loops are structural. The theorems on `ingest` ask that the
-- watermark and the frame's numbers stay 8192 below the end of the 64-bit range, where no sum of them
-- wraps.
--
-- The vector kernel of the ladder is an argument, and a hypothesis says that it decides as the scalar
-- reference, as its tests check. So is the builder of the slicer's tables: it is an argument, with the
-- contract that the source documents.
--
-- Not modelled: `PackedEmitter`, which hands over raw addresses; the recovery client, which is socket
-- code; rendering, schedules, AF_XDP and the vector walks of the transport; the benchmark engine; the
-- test kit.
pub mod Prelude
pub mod Protocol
pub mod Arbitrator
pub mod Transport
