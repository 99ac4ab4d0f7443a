-- ===== src/Transport/Publish/Entries.antt =====
-- crates/nf-transport/src/render.rs: the entry that is published for a well-formed frame keeps the
-- contract of `FrameEntry`.
use hft_proj.Protocol.Moldudp64.{header_len}
use hft_proj.Arbitrator.Sequencer.Indexed.Equivalence.{fields_read}
use hft_proj.Arbitrator.Batch.Ladder.{elig_ok}
use hft_proj.Arbitrator.Sequencer.Indexed.{memo_is, start_of, first_seq_of}
use hft_proj.Protocol.Packet.{elig_feed, FrameEntry}
use hft_proj.Arbitrator.Batch.Ladder.Kernel.{IsMarked, IsPublished}
use hft_proj.Arbitrator.State.Template.{IsSession}
use hft_proj.Arbitrator.Sequencer.Indexed.Spans.{last_of_blocks, end_of}
use hft_proj.Transport.Publish.{steady_mark, pack_elig, publish_entry, Template}
use hft_proj.Arbitrator.Sequencer.Indexed.Blocks.{length-triples, triples}
use hft_proj.Protocol.Moldudp64.Wire.{
  length-encode_header, Fits, encode_header, encode_frame, encode_blocks,
}
use hft_proj.Prelude.{
  ◌==◌, if◌then◌else◌, ◌%◌, ◌-◌, sym, ◌∙◌, ◌⊎◌, ltb→le, u64, ◌++◌, ◌+◌, length-append, IsByte, ◌≡◌,
  All-append, ◌<◌, All, arith, length, List, to_be16, to_be64, IsBytes, Bytes, refl, true, false,
  inl, inr, none, some, Bool, ℕ, [], ◌∷◌,
}
use hft_proj.Arbitrator.Batch.Contract.{IsIndexed}

-- The packed byte holds the feed's two bits and the steady bit.
pack_elig-elig_ok :
    (e : FrameEntry) (feed : ℕ) (ok : Bool) → e.elig ≡ pack_elig feed ok → elig_ok e ≡ ok
unfolding pack_elig elig_ok
pack_elig-elig_ok e feed true h = ground arith
pack_elig-elig_ok e feed false h = ground arith

pack_elig-elig_feed : (feed : ℕ) (ok : Bool) → elig_feed (pack_elig feed ok) ≡ feed % 4
unfolding pack_elig elig_feed
pack_elig-elig_feed feed true = ground arith
pack_elig-elig_feed feed false = ground arith

memo_made :
    (n valid : ℕ)
    → 0 < n
    → valid ≡ n
    → memo_is (if n == 0 then none else some (record { valid_count = valid })) n ≡ true
memo_made n valid h e = ground arith

steady_mark-facts :
    (tmpl : Template) (lo hi valid n : ℕ)
    → steady_mark tmpl lo hi valid n ≡ true
    → (lo ≡ tmpl.lo) × (hi ≡ tmpl.hi) × (valid ≡ n) × (0 < n)
steady_mark-facts tmpl lo hi valid n h =
    (ground (arith, h), ground (arith, h), ground (arith, h), ground (arith, h))

mark_of :
    (lo hi feed : ℕ) (e : FrameEntry) (ok : Bool)
    → e.elig ≡ pack_elig feed ok
    → (ok ≡ true → IsMarked lo hi e)
    → (elig_ok e ≡ false) ⊎ IsMarked lo hi e
mark_of lo hi feed e true h f = inr (f refl)
mark_of lo hi feed e false h f = inl (pack_elig-elig_ok e feed false h)

-- A frame that the schedule renders: messages of one packet, numbered without wrap.
pub record IsPacket (session : Bytes) (seq : ℕ) (ms : List Bytes) : Type 0 where
  pub session_real : IsSession session
  pub fits : All Fits ms
  pub bytes : All IsBytes ms
  pub bound : seq + length ms < u64
  pub nonempty : 0 < length ms
  pub few : length ms < 65535

to_be64-IsBytes : (n : ℕ) → IsBytes (to_be64 n)
to_be64-IsBytes n = omega arith

to_be16-IsBytes : (n : ℕ) → IsBytes (to_be16 n)
to_be16-IsBytes n = omega arith

encode_blocks-IsBytes : (ms : List Bytes) → All IsBytes ms → IsBytes (encode_blocks ms)
unfolding encode_blocks
encode_blocks-IsBytes [] h = tt
encode_blocks-IsBytes (m ∷ ms) h =
    All-append IsByte (to_be16 (length m)) (m ++ encode_blocks ms) (to_be16-IsBytes (length m))
      (All-append IsByte m (encode_blocks ms) h.0 (encode_blocks-IsBytes ms h.1))

pub encode_frame-IsBytes :
    (session : Bytes) (seq : ℕ) (ms : List Bytes)
    → IsBytes session
    → All IsBytes ms
    → IsBytes (encode_frame session seq ms)
unfolding encode_frame encode_header
encode_frame-IsBytes session seq ms h k =
    All-append IsByte (session ++ (to_be64 seq ++ to_be16 (length ms))) (encode_blocks ms)
      (All-append IsByte session (to_be64 seq ++ to_be16 (length ms)) h (
        All-append IsByte (to_be64 seq) (to_be16 (length ms)) (to_be64-IsBytes seq)
          (to_be16-IsBytes (length ms))))
      (encode_blocks-IsBytes ms k)

end_of-eq-length : (ms : List Bytes) (pos : ℕ) → end_of pos ms ≡ pos + length (encode_blocks ms)
unfolding encode_blocks
end_of-eq-length [] pos = omega arith
end_of-eq-length (m ∷ ms) pos = omega (
  arith,
  end_of-eq-length ms (pos + 2 + length m),
  length-append (to_be16 (length m)) (m ++ encode_blocks ms),
  length-append m (encode_blocks ms),
)

module _ (session : Bytes) (seq : ℕ) (ms : List Bytes) (p : IsPacket session seq ms) where
  abbrev packet : Bytes
  packet = encode_frame session seq ms

  packet-length : length packet ≡ end_of 20 ms
  unfolding encode_frame
  packet-length = omega (
    arith,
    length-append (encode_header session seq (length ms)) (encode_blocks ms),
    length-encode_header session seq (length ms) p.session_real.0,
    end_of-eq-length ms 20,
  )

  first_of-triples : (ms : List Bytes) → 0 < length ms → first_seq_of (triples 20 seq ms) ≡ seq
  unfolding triples
  first_of-triples [] h = absurd (omega arith)
  first_of-triples (m ∷ ms) h = refl

  start_of-triples : (ms : List Bytes) → 0 < length ms → start_of (triples 20 seq ms) ≡ 22
  unfolding triples
  start_of-triples [] h = absurd (omega arith)
  start_of-triples (m ∷ ms) h = refl

  module _ (tmpl : Template) (feed valid : ℕ) where
    abbrev entry : FrameEntry
    entry = publish_entry tmpl packet feed seq valid (triples 20 seq ms)

    entry-IsIndexed : IsIndexed entry
    unfolding publish_entry
    entry-IsIndexed =
        let n = length-triples 20 seq ms in
        let r = fields_read session seq ms p.session_real p.fits p.bound p.nonempty p.few in
        let long = ltb→le (length packet) header_len r.0 in
        record {
          lo = refl;
          hi = refl;
          first = first_of-triples ms p.nonempty;
          last =
              last_of_blocks ms 20 seq p.nonempty p.bound
              ∙ (λ i. (seq + (sym n i - 1), sym packet-length i));
          start = start_of-triples ms p.nonempty;
          count = r.3 ∙ sym n;
          nonempty = omega (arith, n, p.nonempty);
          few = omega (arith, n, p.few);
          long = long;
          bound = omega (arith, n, p.bound);
        }

    marked : (elig_ok entry ≡ false) ⊎ IsMarked tmpl.lo tmpl.hi entry
    unfolding publish_entry
    marked = mark_of tmpl.lo tmpl.hi feed entry _ refl (λ h.
        let r = steady_mark-facts tmpl _ _ valid (length (triples 20 seq ms)) h in
        record {
          sess_lo = r.0;
          sess_hi = r.1;
          memo = memo_made (length (triples 20 seq ms)) valid r.3 r.2;
          nonempty = r.3;
        })

    -- The entry published for a packet carries its fields, its feed, and the steady bit only if it has
    -- the template's session and a memo for all its blocks.
    pub publish_entry-IsPublished : IsPublished tmpl.lo tmpl.hi entry
    publish_entry-IsPublished = record {
      entry = (
        unfold publish_entry in encode_frame-IsBytes session seq ms p.session_real.1 p.bytes,
        inr entry-IsIndexed,
      );
      mark = marked;
      feed = unfold publish_entry in pack_elig-elig_feed feed _;
    }
