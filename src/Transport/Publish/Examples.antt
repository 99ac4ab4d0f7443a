-- ===== src/Transport/Publish/Examples.antt =====
-- crates/nf-transport/src/render.rs: pairs of frames on two feeds, their publication and their batch.
use hft_proj.Arbitrator.Batch.Ladder.Equivalence.{ingest_entries_ladder-eq-each}
use hft_proj.Arbitrator.Batch.Equivalence.{ingest_entries-eq-each}
use hft_proj.Arbitrator.Batch.Runs.{each_auto}
use hft_proj.Arbitrator.Sequencer.Indexed.Paths.{Same}
use hft_proj.Arbitrator.Examples.{new_one-HasTemplate, new_one, some_session-IsSession}
use hft_proj.Transport.Publish.Patches.{
  entries_of, stale_entries, IsBaked, master_patch_range-IsPatched,
  warm_rewrite_session-eq-build_frame_master, IsPatched,
}
use hft_proj.Arbitrator.Steady.{rec_emitter}
use hft_proj.Arbitrator.Sequencer.Indexed.Blocks.{triples}
use hft_proj.Arbitrator.Batch.{ingest_entries}
use hft_proj.Arbitrator.Batch.Ladder.{ladder8_scalar, ingest_entries_ladder}
use hft_proj.Transport.Publish.Entries.{publish_entry-IsPublished, IsPacket}
use hft_proj.Protocol.Examples.{
  event_msg, is_bytes_sound, one_msg-Fits, one_msg, one_frame, some_session,
}
use hft_proj.Arbitrator.State.{Sequencer, zero_session}
use hft_proj.Transport.Publish.Batches.{
  ingest_entries_ladder-eq-ingest, each_ingest, published, IsRendered, Rendered,
}
use hft_proj.Arbitrator.Batch.Contract.{IsBounded}
use hft_proj.Protocol.Moldudp64.Wire.{encode_blocks, encode_header, encode_frame}
use hft_proj.Transport.Publish.{
  packet, SchedKind, build_frame_master, warm_rewrite_session, publish_entry, MasterEntry,
  master_patch_range, Template, FrameMeta, Patched,
}
use hft_proj.Arbitrator.Batch.Ladder.Kernel.{IsPublished}
use hft_proj.Arbitrator.Types.{Log}
use hft_proj.Protocol.Packet.{FrameEntry}
use hft_proj.Prelude.{
  drop, ◌+◌, ◌++◌, arith, take, le64_at, length, List, Bytes, All, ◌<◌, ◌≡◌, refl, some, none, [],
  ◌∷◌, ℕ, true, false,
}

-- The session's words, and the steady bit on.
abbrev some_template : Template
some_template = record {
  lo = le64_at some_session 0;
  hi = le64_at some_session 2;
  compute_elig = true;
}

abbrev rendered : (seq feed : ℕ) → Rendered
rendered seq feed = record { session = some_session; seq = seq; ms = one_msg; feed = feed }

event_frame-IsPacket : (seq : ℕ) → seq < 100 → IsPacket some_session seq one_msg
event_frame-IsPacket seq h = record {
  session_real = some_session-IsSession;
  fits = one_msg-Fits;
  bytes = (is_bytes_sound event_msg refl, tt);
  bound = omega arith;
  nonempty = omega arith;
  few = omega arith;
}

-- Both copies of six frames.
abbrev six_pairs : List Rendered
six_pairs =
    rendered 5 0
    ∷ rendered 5 1
    ∷ rendered 6 0
    ∷ rendered 6 1
    ∷ rendered 7 0
    ∷ rendered 7 1
    ∷ rendered 8 0
    ∷ rendered 8 1
    ∷ rendered 9 0
    ∷ rendered 9 1
    ∷ rendered 10 0
    ∷ rendered 10 1
    ∷ []

six_pairs-IsRendered : All IsRendered six_pairs
six_pairs-IsRendered =
    let p5 = event_frame-IsPacket 5 (omega arith) in
    let p6 = event_frame-IsPacket 6 (omega arith) in
    let p7 = event_frame-IsPacket 7 (omega arith) in
    let p8 = event_frame-IsPacket 8 (omega arith) in
    let p9 = event_frame-IsPacket 9 (omega arith) in
    let p10 = event_frame-IsPacket 10 (omega arith) in
    (p5, (p5, (p6, (p6, (p7, (p7, (p8, (p8, (p9, (p9, (p10, (p10, tt))))))))))))

new_one-IsBounded : IsBounded new_one
new_one-IsBounded = record {
  w = omega arith;
  counters = record {
    packets_a = omega arith;
    packets_b = omega arith;
    bytes_a = omega arith;
    bytes_b = omega arith;
    dups_a = omega arith;
    dups_b = omega arith;
    dup_msgs = omega arith;
    msgs_emitted = omega arith;
  };
}

ingest_entries_ladder-eq-ingest_example :
    (es : List FrameEntry) × (r : Log Sequencer) × (published some_template six_pairs ≡ some es)
    × (ingest_entries_ladder rec_emitter [] (some ladder8_scalar) true new_one es 9 ≡ some r)
    × Same (each_ingest 9 new_one six_pairs) r
ingest_entries_ladder-eq-ingest_example =
    ingest_entries_ladder-eq-ingest (some ladder8_scalar) true some_template new_one six_pairs 9
      (λ firsts ns w. refl) six_pairs-IsRendered new_one-HasTemplate new_one-IsBounded

abbrev entry_at : (seq feed : ℕ) → FrameEntry
entry_at seq feed =
    publish_entry some_template (encode_frame some_session seq one_msg) feed seq 1
      (triples 20 seq one_msg)

publish_entry-IsPublished_example :
    IsPublished (le64_at some_session 0) (le64_at some_session 2) (entry_at 5 1)
publish_entry-IsPublished_example =
    publish_entry-IsPublished some_session 5 one_msg (event_frame-IsPacket 5 (omega arith))
      some_template 1 1

entry_at-IsPublished :
    (seq feed : ℕ)
    → seq < 100
    → IsPublished (le64_at some_session 0) (le64_at some_session 2) (entry_at seq feed)
entry_at-IsPublished seq feed h =
    publish_entry-IsPublished some_session seq one_msg (event_frame-IsPacket seq h) some_template
      feed 1

-- The first frame, its copy, and the next one.
abbrev three_entries : List FrameEntry
three_entries = entry_at 5 0 ∷ entry_at 5 1 ∷ entry_at 6 0 ∷ []

three_entries-IsPublished :
    All (IsPublished (le64_at some_session 0) (le64_at some_session 2)) three_entries
three_entries-IsPublished = (
  entry_at-IsPublished 5 0 (omega arith),
  (entry_at-IsPublished 5 1 (omega arith), (entry_at-IsPublished 6 0 (omega arith), tt)),
)

ingest_entries-eq-each_example :
    (r : Log Sequencer) × (ingest_entries true new_one three_entries 9 ≡ some r)
    × Same (each_auto true 9 new_one three_entries) r
ingest_entries-eq-each_example =
    let p = three_entries-IsPublished in
    ingest_entries-eq-each true new_one three_entries 9
      (p.0.entry, (p.1.0.entry, (p.1.1.0.entry, tt))) new_one-IsBounded

ingest_entries_ladder-eq-each_example :
    (r : Log Sequencer) × (ingest_entries_ladder rec_emitter [] none true new_one three_entries 9
      ≡ some r)
    × Same (each_auto true 9 new_one three_entries) r
ingest_entries_ladder-eq-each_example =
    ingest_entries_ladder-eq-each none (le64_at some_session 0) (le64_at some_session 2) true
      new_one three_entries 9 tt three_entries-IsPublished new_one-IsBounded

-- The slot of a blob of one frame.
abbrev one_slot : FrameMeta
one_slot = record {
  offset = 0;
  len = length one_frame;
  feed = 1;
  valid = 1;
  blk_base = 0;
  blk_count = 1;
  first_seq = 5;
}

abbrev zero_template : Template
zero_template = record { lo = 0; hi = 0; compute_elig = true }

abbrev old_frame : Bytes
old_frame = encode_frame zero_session 5 one_msg

one_slot-IsBaked : IsBaked some_template one_frame (triples 20 5 one_msg) one_slot
unfolding encode_frame encode_header encode_blocks triples
one_slot-IsBaked = record { few = omega arith; lo = refl; hi = refl }

abbrev two_baked : List (SchedKind × FrameMeta)
two_baked = (packet 5 0 1, one_slot) ∷ (packet 5 0 1, one_slot) ∷ []

warm_rewrite_session-eq-build_frame_master_example :
    warm_rewrite_session some_template
      (stale_entries zero_template old_frame one_frame (triples 20 5 one_msg) two_baked)
    ≡ entries_of
        (build_frame_master some_template (some 1) one_frame (triples 20 5 one_msg) 0 two_baked)
warm_rewrite_session-eq-build_frame_master_example =
    warm_rewrite_session-eq-build_frame_master zero_template some_template (some 1) old_frame
      one_frame (triples 20 5 one_msg) 0 two_baked (one_slot-IsBaked, (one_slot-IsBaked, tt))

-- A master of two events, the second of which keeps its session.
abbrev two_events : List MasterEntry
two_events =
    record { entry = entry_at 5 0; evt = 0; patchable = true }
    ∷ record { entry = entry_at 6 0; evt = 3; patchable = false }
    ∷ []

master_patch_range-IsPatched_example :
    let r : Patched = master_patch_range some_template 0 2 7 two_events in
    (p : Patched) × (r.master ≡ take 0 two_events ++ p.master)
    × (r.moved ≡ 0 + p.moved)
    × (r.patched ≡ p.patched)
    × IsPatched some_template 2 7 (drop 0 two_events) p
master_patch_range-IsPatched_example = master_patch_range-IsPatched some_template 0 2 7 two_events
