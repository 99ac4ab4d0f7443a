-- ===== src/Arbitrator/Sequencer/Indexed/Spans.antt =====
-- crates/nf-arbitrator/src/lib.rs and types.rs: a span call of the sink, against the message calls that
-- it stands for.
use hft_proj.Prelude.{
  ◌&&◌, ◌==◌, Bool, if◌then◌else◌, ℕ, zero, suc, ◌+◌, ◌-◌, ◌<◌, ◌≤◌, ◌≡◌, refl, sym, ap, ap₂, ◌∙◌,
  List, [], ◌∷◌, ◌++◌, arith, length, All, slice, drop, Bytes, add64, u64, ok, append_assoc,
  slice-slice,
}
use hft_proj.Protocol.Itch5.{validate}
use hft_proj.Protocol.Packet.{Triple}
use hft_proj.Arbitrator.Types.{
  LiveFeedProof, Call, on_msg, on_event, on_span, on_span_batch, SpanRec,
}
use hft_proj.Arbitrator.Sequencer.Indexed.{first_seq_of, start_of, last_of}
use hft_proj.Arbitrator.Sequencer.Indexed.Blocks.{triples, Stands}

-- The messages of a span, cut from its body as the sink's contract says.
unfoldable pub cut_span : LiveFeedProof → (body : Bytes) (base : ℕ) → List Triple → List Call
cut_span proof body base [] = []
cut_span proof body base ((seq, start, end) ∷ rest) =
    on_msg proof seq (slice body (start - base) (end - base)) ∷ cut_span proof body base rest

-- The sink's contract on a record: its first number is that of its first block, and it counts its blocks.
abbrev pub is_headed : SpanRec → Bool
is_headed r = first_seq_of r.blocks == r.first_seq && length r.blocks == r.count

-- The message calls of a record that keeps the contract; the calls `kept` for one that does not.
abbrev pub span_calls : (kept : List Call) → LiveFeedProof → SpanRec → List Call
span_calls kept proof r =
    if is_headed r then cut_span proof r.body (start_of r.blocks) r.blocks else kept

-- The spans of a batch, one after the other, as the sink's default implementation replays them.
unfoldable pub cut_spans : LiveFeedProof → List SpanRec → List Call
unfolding cut_span
cut_spans proof [] = []
cut_spans proof (r ∷ rs) =
    span_calls (on_span_batch proof (r ∷ []) ∷ []) proof r ++ cut_spans proof rs

-- A trace with each span call spread into the message calls that it stands for. A record that breaks
-- the sink's contract stands for no messages: its call is kept.
unfoldable pub spread : List Call → List Call
spread [] = []
spread (on_msg proof seq msg ∷ cs) = on_msg proof seq msg ∷ spread cs
spread (on_event e ∷ cs) = on_event e ∷ spread cs
spread (on_span proof r ∷ cs) = span_calls (on_span proof r ∷ []) proof r ++ spread cs
spread (on_span_batch proof rs ∷ cs) = cut_spans proof rs ++ spread cs

-- Message calls for messages numbered from `seq` on.
unfoldable pub hand_over : LiveFeedProof → (seq : ℕ) → List Bytes → List Call
hand_over proof seq [] = []
hand_over proof seq (m ∷ ms) = on_msg proof seq m ∷ hand_over proof (add64 seq 1) ms

abbrev pub AllValid : List Bytes → Type 0
AllValid = All (λ m. validate m ≡ ok tt)

-- Where the blocks end.
abbrev pub end_of : ℕ → List Bytes → ℕ
end_of pos [] = pos
end_of pos (m ∷ ms) = end_of (pos + 2 + length m) ms

pub end_of-ge : (ms : List Bytes) (pos : ℕ) → pos ≤ end_of pos ms
end_of-ge [] pos = omega arith
end_of-ge (m ∷ ms) pos = omega (arith, end_of-ge ms (pos + 2 + length m))

pub spread-append : (xs ys : List Call) → spread (xs ++ ys) ≡ spread xs ++ spread ys
unfolding spread
spread-append [] ys = refl
spread-append (on_msg proof seq msg ∷ xs) ys =
    ap (λ t. on_msg proof seq msg ∷ t) (spread-append xs ys)
spread-append (on_event e ∷ xs) ys = ap (λ t. on_event e ∷ t) (spread-append xs ys)
spread-append (on_span proof r ∷ xs) ys =
    let c : List Call = span_calls (on_span proof r ∷ []) proof r in
    ap (λ t. c ++ t) (spread-append xs ys) ∙ sym (append_assoc c (spread xs) (spread ys))
spread-append (on_span_batch proof rs ∷ xs) ys =
    let c : List Call = cut_spans proof rs in
    ap (λ t. c ++ t) (spread-append xs ys) ∙ sym (append_assoc c (spread xs) (spread ys))

-- The blocks of a span give back the messages that stand in the frame.
pub cut_span-triples :
    (proof : LiveFeedProof) (frame : Bytes) (lo hi : ℕ) (ms : List Bytes) (pos seq : ℕ)
    → Stands frame pos ms
    → lo ≤ pos + 2
    → end_of pos ms ≤ hi
    → cut_span proof (slice frame lo hi) lo (triples pos seq ms) ≡ hand_over proof seq ms
unfolding cut_span triples hand_over
cut_span-triples proof frame lo hi [] pos seq h l e = refl
cut_span-triples proof frame lo hi (m ∷ ms) pos seq h l e =
    ap₂ ◌∷◌
      (ap (on_msg proof seq) (
        slice-slice frame lo hi (pos + 2) (pos + 2 + length m) l (omega arith)
          (omega (arith, end_of-ge ms (pos + 2 + length m)))
        ∙ h.0))
      (cut_span-triples proof frame lo hi ms (pos + 2 + length m) (add64 seq 1) h.1 (omega arith) e)

-- The triples past a prefix are the triples of the messages past it.
pub record Past (frame : Bytes) (pos seq skip : ℕ) (ms : List Bytes) : Type 0 where
  pub from : ℕ
  pub rest : drop skip (triples pos seq ms) ≡ triples from (seq + skip) (drop skip ms)
  pub stands : Stands frame from (drop skip ms)
  pub same_end : end_of from (drop skip ms) ≡ end_of pos ms

pub past :
    (frame : Bytes) (ms : List Bytes) (pos seq skip : ℕ)
    → Stands frame pos ms
    → seq + length ms < u64
    → skip ≤ length ms
    → Past frame pos seq skip ms
unfolding triples
past frame ms pos seq zero h b l =
    let e : seq + zero ≡ seq = omega arith in
    record { from = pos; rest = rw e; stands = h; same_end = refl }
past frame [] pos seq (suc skip) h b l = absurd (omega arith)
past frame (m ∷ ms) pos seq (suc skip) h b l =
    let e : add64 seq 1 ≡ seq + 1 = omega arith in
    let e' : seq + suc skip ≡ seq + 1 + skip = omega arith in
    let p = past frame ms (pos + 2 + length m) (seq + 1) skip h.1 (omega arith) (omega arith) in
    record {
      from = p.from;
      rest =
          ap (λ (k : ℕ). drop skip (triples (pos + 2 + length m) k ms)) e
          ∙ p.rest
          ∙ ap (λ (k : ℕ). triples p.from k (drop skip ms)) (sym e');
      stands = p.stands;
      same_end = p.same_end;
    }

pub last_of-triples :
    (m : Bytes) (ms : List Bytes) (pos seq : ℕ)
    → seq + length ms < u64
    → last_of (triples pos seq (m ∷ ms)) ≡ (seq + length ms, end_of pos (m ∷ ms))
unfolding triples
last_of-triples m [] pos seq b = let e : seq + 0 ≡ seq = omega arith in rw e
last_of-triples m (m' ∷ ms) pos seq b =
    let e : add64 seq 1 ≡ seq + 1 = omega arith in
    let e' : seq + suc (length ms) ≡ seq + 1 + length ms = omega arith in
    let ih = last_of-triples m' ms (pos + 2 + length m) (seq + 1) (omega arith) in
    ap (λ (k : ℕ). last_of (triples (pos + 2 + length m) k (m' ∷ ms))) e
    ∙ ih
    ∙ ap (λ (k : ℕ). (k, end_of pos (m ∷ m' ∷ ms))) (sym e')

pub last_of_blocks :
    (ms : List Bytes) (pos seq : ℕ)
    → 0 < length ms
    → seq + length ms < u64
    → last_of (triples pos seq ms) ≡ (seq + (length ms - 1), end_of pos ms)
last_of_blocks [] pos seq h b = absurd (omega arith)
last_of_blocks (m ∷ ms) pos seq h b =
    let e : suc (length ms) - 1 ≡ length ms = omega arith in
    rw e (last_of-triples m ms pos seq (omega arith))

-- Message calls stand for themselves.
pub spread-hand_over :
    (proof : LiveFeedProof) (ms : List Bytes) (seq : ℕ)
    → spread (hand_over proof seq ms) ≡ hand_over proof seq ms
unfolding spread hand_over
spread-hand_over proof [] seq = refl
spread-hand_over proof (m ∷ ms) seq =
    ap (λ t. on_msg proof seq m ∷ t) (spread-hand_over proof ms (add64 seq 1))
