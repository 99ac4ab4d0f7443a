-- ===== src/Transport/Publish/Batches.antt =====
-- crates/nf-transport/src/render.rs with crates/nf-arbitrator/src/lib.rs: a batch of published frames
-- against their ingestion one by one.
use hft_proj.Protocol.Moldudp64.{header_len}
use hft_proj.Arbitrator.Sequencer.Indexed.{memo_is}
use hft_proj.Arbitrator.Sequencer.Indexed.Spans.{spread-append}
use hft_proj.Arbitrator.Batch.Bounds.{ingest-IsBounded}
use hft_proj.Arbitrator.Batch.Sessions.{ingest-HasTemplate}
use hft_proj.Arbitrator.Steady.{rec_emitter}
use hft_proj.Arbitrator.Sequencer.Indexed.Equivalence.{fields_read, ingest_auto-eq-ingest}
use hft_proj.Transport.Index.{Indexed, index_frame}
use hft_proj.Arbitrator.Sequencer.Indexed.Paths.{Same}
use hft_proj.Arbitrator.Batch.Ladder.{ingest_entries_ladder}
use hft_proj.Arbitrator.Batch.Contract.{IsBounded}
use hft_proj.Arbitrator.Sequencer.Indexed.Blocks.{length-triples, triples}
use hft_proj.Arbitrator.Sequencer.{ingest}
use hft_proj.Arbitrator.State.Template.{IsSession, HasTemplate}
use hft_proj.Arbitrator.Batch.Ladder.Kernel.{IsPublished}
use hft_proj.Transport.Index.Frames.{
  leading_valid-AllValid, index_frame-encode_frame, leading_valid,
}
use hft_proj.Arbitrator.Batch.Ladder.Equivalence.{ingest_entries_ladder-eq-each, Decides}
use hft_proj.Arbitrator.Types.{◌>>=◌, done, Log}
use hft_proj.Protocol.Packet.{FrameEntry, SoaLadder8}
use hft_proj.Transport.Publish.Entries.{encode_frame-IsBytes, publish_entry-IsPublished, IsPacket}
use hft_proj.Arbitrator.State.{Sequencer}
use hft_proj.Arbitrator.Batch.{cold_apply}
use hft_proj.Transport.Publish.{publish_entry, Template}
use hft_proj.Protocol.Moldudp64.Wire.{encode_frame}
use hft_proj.Arbitrator.Batch.Runs.{each_auto}
use hft_proj.Prelude.{
  arith, true, ◌==◌, if◌then◌else◌, ◌<◌, ltb→le, sym, ◌++◌, subst, ◌∙◌, length, map, Bool, All,
  Option, ◌≡◌, Bytes, List, ℕ, none, some, [], ◌∷◌, refl,
}

-- A data packet of a schedule, and the feed it goes out on.
pub record Rendered : Type 0 where
  pub session : Bytes
  pub seq : ℕ
  pub ms : List Bytes
  pub feed : ℕ

abbrev pub frame_of : Rendered → Bytes
frame_of r = encode_frame r.session r.seq r.ms

abbrev pub IsRendered : Rendered → Type 0
IsRendered r = IsPacket r.session r.seq r.ms

-- The entry of an indexed frame, before those of later frames.
abbrev pub add_entry :
    Template → Rendered → Option Indexed → Option (List FrameEntry) → Option (List FrameEntry)
add_entry tmpl r (some i) (some es) =
    some (publish_entry tmpl (frame_of r) r.feed r.seq i.valid i.blocks ∷ es)
add_entry tmpl r (some i) none = none
add_entry tmpl r none es = none

-- What the schedule's rendering and its publication make of the packets.
abbrev pub published : Template → List Rendered → Option (List FrameEntry)
published tmpl [] = some []
published tmpl (r ∷ rs) =
    add_entry tmpl r (index_frame (frame_of r) (length (frame_of r)) r.seq (length r.ms))
      (published tmpl rs)

-- One raw frame after the other through `ingest`.
abbrev pub each_ingest : (now : ℕ) → Sequencer → List Rendered → Log Sequencer
each_ingest now s [] = done s
each_ingest now s (r ∷ rs) = ingest s (frame_of r) r.feed now >>= (λ s'. each_ingest now s' rs)

abbrev entry_of : Template → Rendered → FrameEntry
entry_of tmpl r =
    publish_entry tmpl (frame_of r) r.feed r.seq (leading_valid r.ms) (triples 20 r.seq r.ms)

published-entries :
    (tmpl : Template) (rs : List Rendered)
    → All IsRendered rs
    → published tmpl rs ≡ some (map (entry_of tmpl) rs)
published-entries tmpl [] h = refl
published-entries tmpl (r ∷ rs) h =
    rw
      (
        (index_frame-encode_frame r.session r.seq r.ms h.0.session_real.0 h.0.fits).0,
        published-entries tmpl rs h.1,
      )
      refl

entries-IsPublished :
    (tmpl : Template) (rs : List Rendered)
    → All IsRendered rs
    → All (IsPublished tmpl.lo tmpl.hi) (map (entry_of tmpl) rs)
entries-IsPublished tmpl [] h = tt
entries-IsPublished tmpl (r ∷ rs) h = (
  publish_entry-IsPublished r.session r.seq r.ms h.0 tmpl r.feed (leading_valid r.ms),
  entries-IsPublished tmpl rs h.1,
)

memo_told :
    (n valid : ℕ)
    → 0 < n
    → memo_is (if n == 0 then none else some (record { valid_count = valid })) n ≡ true
    → valid ≡ n
memo_told n valid h e = ground (arith, e)

cold_apply-Same :
    (wants : Bool) (now : ℕ) (tmpl : Template) (s : Sequencer) (r : Rendered)
    → IsRendered r
    → HasTemplate s
    → IsBounded s
    → Same (ingest s (frame_of r) r.feed now) (cold_apply wants now s (entry_of tmpl r))
unfolding cold_apply publish_entry
cold_apply-Same wants now tmpl s r p t b =
    ingest_auto-eq-ingest wants s r.session r.seq r.ms _ r.feed now t b.w p.session_real p.fits
      p.bound (p.nonempty, p.few)
      (λ e. leading_valid-AllValid r.ms (
        memo_told (length r.ms) (leading_valid r.ms) p.nonempty (
          subst
            (λ (n : ℕ).
              memo_is (if n == 0 then none else some (record { valid_count = leading_valid r.ms }))
                (length r.ms)
              ≡ true)
            (length-triples 20 r.seq r.ms) e)))

each_auto-each_ingest :
    (wants : Bool) (now : ℕ) (tmpl : Template) (s : Sequencer) (rs : List Rendered)
    → All IsRendered rs
    → HasTemplate s
    → IsBounded s
    → Same (each_ingest now s rs) (each_auto wants now s (map (entry_of tmpl) rs))
unfolding each_auto
each_auto-each_ingest wants now tmpl s [] p t b = (refl, refl)
each_auto-each_ingest wants now tmpl s (r ∷ rs) p t b =
    let a : Log Sequencer = ingest s (frame_of r) r.feed now in
    let c : Log Sequencer = cold_apply wants now s (entry_of tmpl r) in
    let h : Same a c = cold_apply-Same wants now tmpl s r p.0 t b in
    let facts =
      fields_read r.session r.seq r.ms p.0.session_real p.0.fits p.0.bound p.0.nonempty p.0.few in
    let bytes = encode_frame-IsBytes r.session r.seq r.ms p.0.session_real.1 p.0.bytes in
    let t' : HasTemplate a.0 =
      ingest-HasTemplate s (frame_of r) r.feed now bytes
        (ltb→le (length (frame_of r)) header_len facts.0)
        (subst IsSession (sym facts.1) p.0.session_real) b t in
    let ih =
      each_auto-each_ingest wants now tmpl a.0 rs p.1 t'
        (ingest-IsBounded s (frame_of r) r.feed now bytes b) in
    let x : Log Sequencer = each_auto wants now a.0 (map (entry_of tmpl) rs) in
    subst
      (λ (z : Sequencer). Same (each_ingest now s (r ∷ rs)) (
        (each_auto wants now z (map (entry_of tmpl) rs)).0,
        c.1 ++ (each_auto wants now z (map (entry_of tmpl) rs)).1,
      ))
      h.0
      (
        ih.0,
        spread-append a.1 (each_ingest now a.0 rs).1
            ∙ (λ i. h.1 i ++ ih.1 i)
            ∙ sym (spread-append c.1 x.1),
      )

-- A batch of published frames, taken with the group fast paths, ends where `ingest` ends on the raw
-- frames one after the other, and its calls stand for the same messages and events: each span carries
-- the number of its first message and their count. The frames are well-formed data packets; the kernel, if there is one, decides as the scalar reference; the sink
-- takes the records of spans; the sequencer's compare template is right; and the watermark and the
-- counters are 64-bit words.
pub ingest_entries_ladder-eq-ingest :
    (ladder : Option SoaLadder8) (wants : Bool) (tmpl : Template) (s : Sequencer)
    (rs : List Rendered) (now : ℕ)
    → Decides ladder
    → All IsRendered rs
    → HasTemplate s
    → IsBounded s
    → (es : List FrameEntry) × (r : Log Sequencer) × (published tmpl rs ≡ some es)
      × (ingest_entries_ladder rec_emitter [] ladder wants s es now ≡ some r)
      × Same (each_ingest now s rs) r
ingest_entries_ladder-eq-ingest ladder wants tmpl s rs now d p t b =
    let es : List FrameEntry = map (entry_of tmpl) rs in
    let (r, e, same) =
      ingest_entries_ladder-eq-each ladder tmpl.lo tmpl.hi wants s es now d
        (entries-IsPublished tmpl rs p) b in
    let first = each_auto-each_ingest wants now tmpl s rs p t b in
    (es, r, published-entries tmpl rs p, e, (first.0 ∙ same.0, first.1 ∙ same.1))
