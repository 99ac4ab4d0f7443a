-- ===== src/Arbitrator/Sequencer/Indexed/Emission.antt =====
-- crates/nf-arbitrator/src/lib.rs: the contiguous path's hand-over in `ingest_indexed`, with or without
-- a validation memo, against the walk of `ingest`.
use hft_proj.Prelude.{
  ◌%◌, ℕ, zero, suc, ◌+◌, ◌-◌, ◌<◌, ◌≡◌, inl, inr, refl, sym, ap, ◌∙◌, Bool, true, false, ◌&&◌,
  List, [], ◌∷◌, ◌++◌, arith, length, slice, drop, Bytes, ltb, add64, u64, Result, ok, map_err,
  append_assoc, append-nil, Bool-cases, if-cases, subst, length-drop, All-drop,
}
use hft_proj.Protocol.Itch5.{ItchError}
use hft_proj.Protocol.Packet.{PacketError, payload, Triple}
use hft_proj.Protocol.Packet.Walk.{each}
use hft_proj.Arbitrator.Types.{LiveFeedProof, on_msg}
use hft_proj.Arbitrator.Sequencer.{Emitted, emit_valid}
use hft_proj.Arbitrator.Sequencer.Indexed.{
  first_seq_of, emit_blocks, validate_unless, emit_indexed, emit_span, last_of, start_of,
}
use hft_proj.Arbitrator.Sequencer.Indexed.Blocks.{
  triples, length-triples, wrap, Stands, emit_blocks-eq-each, emit_blocks_cons,
}
use hft_proj.Arbitrator.Sequencer.Indexed.Spans.{
  is_headed, spread, hand_over, AllValid, cut_span-triples, Past, past, last_of_blocks,
  spread-hand_over, cut_span, end_of,
}

-- Valid messages are all handed over, whether they are validated again or not.
emit_blocks-AllValid :
    (ms : List Bytes) (frame : Bytes) (v : Bool) (proof : LiveFeedProof) (pos seq : ℕ) (e : Emitted)
    → Stands frame pos ms
    → AllValid ms
    → e.0 + length ms < u64
    → emit_blocks frame v proof (triples pos seq ms) e
      ≡ (ok tt, (e.0 + length ms, e.1 ++ hand_over proof seq ms))
unfolding triples hand_over
emit_blocks-AllValid [] frame v proof pos seq e h a b =
    let z : e.0 + 0 ≡ e.0 = omega arith in unfold emit_blocks in rw (z, append-nil) refl
emit_blocks-AllValid (m ∷ ms) frame v proof pos seq e h a b =
    let n : add64 e.0 1 ≡ e.0 + 1 = omega arith in
    let n' : e.0 + 1 + length ms ≡ e.0 + suc (length ms) = omega arith in
    emit_blocks_cons frame v proof seq (pos + 2) (pos + 2 + length m)
      (triples (pos + 2 + length m) (add64 seq 1) ms) e
    ∙ rw (h.0, accepted v)
        (emit_blocks-AllValid ms frame v proof (pos + 2 + length m) (add64 seq 1) _ h.1 a.1
            (omega arith)
          ∙ rw
              (n, n', append_assoc e.1 (on_msg proof seq m ∷ []) (hand_over proof (add64 seq 1) ms))
              refl)
  where
    accepted : (v : Bool) → validate_unless v m ≡ ok tt
    accepted true = refl
    accepted false = a.0

-- A walk's outcome and an indexed hand-over's: the same result, the same number of messages, and
-- calls that stand for the same messages.
abbrev pub Agrees :
    Result PacketError (Unit {0}) × Emitted → Result ItchError (Unit {0}) × Emitted → Type 0
Agrees out x = (out.0 ≡ map_err payload x.0) × (out.1.0 ≡ x.1.0) × (spread out.1.1 ≡ spread x.1.1)

wrap-Agrees :
    {out : Result PacketError (Unit {0}) × Emitted} (x : Result ItchError (Unit {0}) × Emitted)
    → out ≡ wrap x
    → Agrees out x
wrap-Agrees x e = (ap (λ o. o.0) e, ap (λ o. o.1.0) e, ap (λ o. spread o.1.1) e)

drop-triples_cons :
    (n : ℕ) (ms : List Bytes)
    → n < length ms
    → (m : Bytes) × ((rest : List Bytes) × (drop n ms ≡ m ∷ rest))
drop-triples_cons n [] h = absurd (omega arith)
drop-triples_cons zero (m ∷ ms) h = (m, (ms, refl))
drop-triples_cons (suc n) (m ∷ ms) h = drop-triples_cons n ms (omega arith)

module _ (frame : Bytes) (proof : LiveFeedProof) (ms : List Bytes) (pos seq skip : ℕ)
    (stands : Stands frame pos ms) (bound : seq + length ms < u64) (some_left : skip < length ms)
    (few : length ms < 65535) where
  abbrev blocks : List Triple
  blocks = triples pos seq ms

  abbrev out : Result PacketError (Unit {0}) × Emitted
  out = each (emit_valid proof) seq skip ms (0, [])

  abbrev p : Past frame pos seq skip ms
  p = past frame ms pos seq skip stands bound (omega arith)

  -- Valid messages past the prefix are handed over by a loop of either kind.
  valid_blocks :
      (v : Bool)
      → AllValid ms
      → emit_blocks frame v proof (drop skip blocks) (0, [])
        ≡ (ok tt, (length ms - skip, hand_over proof (seq + skip) (drop skip ms)))
  valid_blocks v a =
      let l : length (drop skip ms) ≡ length ms - skip = length-drop skip ms in
      let z : 0 + (length ms - skip) ≡ length ms - skip = omega arith in
      ap (λ ts. emit_blocks frame v proof ts (0, [])) p.rest
      ∙ emit_blocks-AllValid (drop skip ms) frame v proof p.from (seq + skip) (0, []) p.stands
          (All-drop _ skip ms a) (omega (arith, l))
      ∙ rw (l, z) refl

  -- Its record counts them, and gives the number of the first.
  headed :
      is_headed (record {
        first_seq = add64 seq skip;
        count = (length ms - skip) % 65536;
        body = slice frame (start_of (drop skip blocks)) (last_of blocks).1;
        blocks = drop skip blocks;
      })
      ≡ true
  unfolding triples
  headed =
      let (m, (rest, e)) = drop-triples_cons skip ms some_left in
      let d : drop skip blocks ≡ triples p.from (seq + skip) (m ∷ rest) =
        p.rest ∙ ap (triples p.from (seq + skip)) e in
      let first : first_seq_of (drop skip blocks) ≡ seq + skip = ap first_seq_of d in
      let n : length (drop skip blocks) ≡ length ms - skip =
        omega (arith, length-drop skip blocks, length-triples pos seq ms) in
      ground (arith, first, n, few, bound, some_left)

  -- One span call stands for the messages past the prefix.
  span_call :
      spread (emit_span frame proof seq (length ms) skip blocks).1
      ≡ hand_over proof (seq + skip) (drop skip ms)
  unfolding spread triples
  span_call =
      let (m, (rest, e)) = drop-triples_cons skip ms some_left in
      let last : last_of blocks ≡ (seq + (length ms - 1), end_of pos ms) =
        last_of_blocks ms pos seq (omega arith) bound in
      let end : end_of p.from (m ∷ rest) ≡ (last_of blocks).1 =
        ap (end_of p.from) (sym e) ∙ p.same_end ∙ sym (ap (λ (x : ℕ × ℕ). x.1) last) in
      simp headed (
        subst
          (λ (d : List Triple).
            cut_span proof (slice frame (start_of d) (last_of blocks).1) (start_of d) d ++ []
            ≡ hand_over proof (seq + skip) (drop skip ms))
          (sym (p.rest ∙ ap (triples p.from (seq + skip)) e))
          (append-nil (
              cut_span proof (slice frame (p.from + 2) (last_of blocks).1) (p.from + 2)
                (triples p.from (seq + skip) (m ∷ rest)))
            ∙ cut_span-triples proof frame (p.from + 2) (last_of blocks).1 (m ∷ rest) p.from
                (seq + skip) (subst (Stands frame p.from) e p.stands) (omega arith)
                (omega (arith, end))
            ∙ ap (hand_over proof (seq + skip)) (sym e)))

  pub emit_indexed-Agrees :
      (wants v : Bool)
      → (v ≡ true → AllValid ms)
      → Agrees out (emit_indexed frame wants v proof seq skip blocks)
  unfolding emit_indexed
  emit_indexed-Agrees wants v valid =
      let walk : out ≡ wrap (emit_blocks frame false proof (drop skip blocks) (0, [])) =
        emit_blocks-eq-each proof ms frame pos seq skip (0, []) stands in
      rw (length-triples pos seq ms) (
        if-cases (Agrees out) (v && (wants && ltb skip (length ms)))
          (λ c.
            let e = walk ∙ ap wrap (valid_blocks false (valid (ground (arith, c)))) in
            (
              ap (λ o. o.0) e,
              ap (λ o. o.1.0) e,
              ap (λ o. spread o.1.1) e
                  ∙ spread-hand_over proof (drop skip ms) (seq + skip)
                  ∙ sym span_call,
            ))
          (λ c. elim (Bool-cases v) [
            | inl t ↦
                wrap-Agrees _
                  (walk ∙ ap wrap (valid_blocks false (valid t) ∙ sym (valid_blocks v (valid t))))
            | inr f ↦ simp f (wrap-Agrees _ walk)
          ]))
