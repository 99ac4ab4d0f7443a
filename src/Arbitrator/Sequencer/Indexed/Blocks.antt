-- ===== src/Arbitrator/Sequencer/Indexed/Blocks.antt =====
-- crates/nf-arbitrator/src/lib.rs: the loops over the triples of a well-formed frame, against the walk
-- over its bytes.
use hft_proj.Prelude.{
  ℕ, zero, suc, ◌+◌, ◌-◌, ◌≡◌, refl, sym, ap, ◌∙◌, Bool, false, List, [], ◌∷◌, ◌++◌, arith, length,
  slice, drop, Bytes, to_be16, add64, Result, ok, err, map_err, length-append, append_assoc, subst,
}
use hft_proj.Protocol.Itch5.{ItchError, validate}
use hft_proj.Protocol.Moldudp64.Wire.{encode_blocks}
use hft_proj.Protocol.Moldudp64.Blocks.{slice_block}
use hft_proj.Protocol.Packet.{PacketError, payload, Callback, visit, continue, Triple}
use hft_proj.Protocol.Packet.Walk.{each, regroup_block}
use hft_proj.Arbitrator.Types.{LiveFeedProof}
use hft_proj.Arbitrator.Sequencer.{Emitted, emit_valid}
use hft_proj.Arbitrator.Sequencer.Walks.{emit_then, continue-emit_valid}
use hft_proj.Arbitrator.Sequencer.Indexed.{emit_blocks, validate_unless}

-- The triples of messages that stand back to back from `pos` on, numbered from `seq` on.
unfoldable pub triples : (pos seq : ℕ) → List Bytes → List Triple
triples pos seq [] = []
triples pos seq (m ∷ ms) =
    (seq, pos + 2, pos + 2 + length m) ∷ triples (pos + 2 + length m) (add64 seq 1) ms

pub length-triples : (pos seq : ℕ) (ms : List Bytes) → length (triples pos seq ms) ≡ length ms
unfolding triples
length-triples pos seq [] = refl
length-triples pos seq (m ∷ ms) = ap suc (length-triples (pos + 2 + length m) (add64 seq 1) ms)

-- The walk's error is the loop's, as a payload error.
abbrev pub wrap : {S : Type 0} → Result ItchError (Unit {0}) × S → Result PacketError (Unit {0}) × S
wrap p = (map_err payload p.0, p.1)

-- The messages stand in the frame, each behind its two length bytes, from `pos` on.
abbrev pub Stands : Bytes → ℕ → List Bytes → Type 0
Stands frame pos [] = Unit
Stands frame pos (m ∷ ms) =
    (slice frame (pos + 2) (pos + 2 + length m) ≡ m) × Stands frame (pos + 2 + length m) ms

pub encode_blocks-Stands :
    (ms : List Bytes) (pre junk : Bytes) (pos : ℕ)
    → pos ≡ length pre
    → Stands (pre ++ (encode_blocks ms ++ junk)) pos ms
unfolding encode_blocks
encode_blocks-Stands [] pre junk pos h = tt
encode_blocks-Stands (m ∷ ms) pre junk pos h =
    let front : Bytes = pre ++ (to_be16 (length m) ++ m) in
    let tail : Bytes = encode_blocks ms ++ junk in
    let len : length pre + 2 + length m ≡ length front =
      omega (arith, length-append pre (to_be16 (length m) ++ m)) in
    let whole : pre ++ (encode_blocks (m ∷ ms) ++ junk)
        ≡ pre ++ (to_be16 (length m) ++ (m ++ tail)) =
      ap (λ (t : Bytes). pre ++ (to_be16 (length m) ++ t))
        (append_assoc m (encode_blocks ms) junk) in
    rw h (
      subst (λ (fr : Bytes). slice fr (length pre + 2) (length pre + 2 + length m) ≡ m) (sym whole)
          (slice_block pre m tail (length pre + 2 + length m) refl),
      subst (λ (fr : Bytes). Stands fr (length pre + 2 + length m) ms)
          (sym (whole ∙ regroup_block pre m tail))
          (encode_blocks-Stands ms front junk (length pre + 2 + length m) len),
    )

each-skip :
    {S : Type 0} (f : Callback S) (seq k : ℕ) (m : Bytes) (ms : List Bytes) (s : S)
    → each f seq (suc k) (m ∷ ms) s ≡ each f (add64 seq 1) k ms s
unfolding each visit continue
each-skip f seq k m ms s = let e : suc k - 1 ≡ k = omega arith in rw e (ground arith)

each-visit :
    {S : Type 0} (f : Callback S) (seq : ℕ) (m : Bytes) (ms : List Bytes) (s : S)
    → each f seq 0 (m ∷ ms) s ≡ continue (f seq m s) (λ s'. each f (add64 seq 1) 0 ms s')
unfolding each visit
each-visit f seq m ms s = refl

pub emit_blocks_cons :
    (frame : Bytes) (v : Bool) (proof : LiveFeedProof) (seq a b : ℕ) (ts : List Triple)
    (e : Emitted)
    → emit_blocks frame v proof ((seq, a, b) ∷ ts) e
      ≡ emit_then proof seq
          (slice frame a b)
          e
          (validate_unless v (slice frame a b))
          (λ x. (err x, e))
          (emit_blocks frame v proof ts)
unfolding emit_blocks
emit_blocks_cons frame v proof seq a b ts (n, calls) = ground arith

emit_then-wrap :
    (proof : LiveFeedProof) (seq : ℕ) (m : Bytes) (e : Emitted) (r : Result ItchError (Unit {0}))
    (f : Emitted → Result PacketError (Unit {0}) × Emitted)
    (g : Emitted → Result ItchError (Unit {0}) × Emitted)
    → ((e' : Emitted) → f e' ≡ wrap (g e'))
    → emit_then proof seq m e r (λ x. (err (payload x), e)) f
      ≡ wrap (emit_then proof seq m e r (λ x. (err x, e)) g)
emit_then-wrap proof seq m e (ok u) f g h = h _
emit_then-wrap proof seq m e (err x) f g h = refl

-- The loop over the triples past the first `skip` is the walk that skips as many messages.
pub emit_blocks-eq-each :
    (proof : LiveFeedProof) (ms : List Bytes) (frame : Bytes) (pos seq skip : ℕ) (e : Emitted)
    → Stands frame pos ms
    → each (emit_valid proof) seq skip ms e
      ≡ wrap (emit_blocks frame false proof (drop skip (triples pos seq ms)) e)
unfolding triples
emit_blocks-eq-each proof [] frame pos seq zero e h = unfold each emit_blocks in refl
emit_blocks-eq-each proof [] frame pos seq (suc skip) e h = unfold each emit_blocks in refl
emit_blocks-eq-each proof (m ∷ ms) frame pos seq (suc k) e h =
    each-skip (emit_valid proof) seq k m ms e
    ∙ emit_blocks-eq-each proof ms frame (pos + 2 + length m) (add64 seq 1) k e h.1
emit_blocks-eq-each proof (m ∷ ms) frame pos seq zero e h =
    let ts : List Triple = triples (pos + 2 + length m) (add64 seq 1) ms in
    each-visit (emit_valid proof) seq m ms e
    ∙ continue-emit_valid proof seq m e (λ s'. each (emit_valid proof) (add64 seq 1) 0 ms s')
    ∙ emit_then-wrap proof seq m e (validate m) _ (emit_blocks frame false proof ts)
        (λ e'. emit_blocks-eq-each proof ms frame (pos + 2 + length m) (add64 seq 1) zero e' h.1)
    ∙ ap wrap (rw (emit_blocks_cons frame false proof seq (pos + 2) (pos + 2 + length m) ts e, h.0))
