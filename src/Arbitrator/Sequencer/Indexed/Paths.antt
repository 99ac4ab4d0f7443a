-- ===== src/Arbitrator/Sequencer/Indexed/Paths.antt =====
-- crates/nf-arbitrator/src/lib.rs: the paths of `ingest_indexed` on a well-formed frame, against those
-- of `ingest`.
use hft_proj.Prelude.{
  ℕ, ◌+◌, ◌-◌, ◌<◌, ◌≤◌, ◌≡◌, inl, inr, refl, sym, ap, ◌∙◌, Bool, true, List, [], ◌∷◌, ◌++◌, arith,
  length, All, slice, Bytes, ltb, leb, add64, sub64, u64, Result, ok, err, append-nil, Option,
  Bool-cases, subst, min,
}
use hft_proj.Protocol.Itch5.{ItchError, validate}
use hft_proj.Protocol.Packet.{PacketError, Triple, FrameMemo, visit, continue}
use hft_proj.Protocol.Packet.Walk.{each, ingest_walk-each}
use hft_proj.Protocol.Moldudp64.Wire.{
  encode_blocks, encode_header, encode_frame, Fits, length-encode_header,
}
use hft_proj.Arbitrator.Types.{LiveFeedProof, Call, Log, ◌>>=◌, done, state_eq, init, contig}
use hft_proj.Arbitrator.State.{Sequencer, gap_evidence}
use hft_proj.Arbitrator.Sequencer.{
  emit_valid, stage_valid, stage_or_drop, finish_contig, apply_contig, apply_gap, max_clamp,
  advance, retire_pending, ingest_data,
}
use hft_proj.Arbitrator.Sequencer.Indexed.{
  stage_blocks, memo_is, last_of, first_seq_of, apply_contig_indexed, apply_gap_indexed,
  ingest_data_indexed,
}
use hft_proj.Arbitrator.Sequencer.Indexed.Blocks.{
  triples, length-triples, wrap, Stands, encode_blocks-Stands,
}
use hft_proj.Arbitrator.Sequencer.Indexed.Spans.{spread, spread-append, AllValid, last_of_blocks}
use hft_proj.Arbitrator.Sequencer.Indexed.Emission.{emit_indexed-Agrees}
use hft_proj.Arbitrator.Sequencer.Staged.{stage_valid_ok, stage_valid_err}

-- The same state, and calls that stand for the same messages and events.
abbrev pub Same : Log Sequencer → Log Sequencer → Type 0
Same m m' = (m.0 ≡ m'.0) × (spread m.1 ≡ spread m'.1)

abbrev staged :
    Bytes → (clamp : ℕ) → List Triple → Sequencer → Result PacketError (Unit {0}) × Sequencer
staged frame clamp ts s = wrap (stage_blocks frame clamp ts s)

module _ (frame : Bytes) (clamp seq a b : ℕ) (ts : List Triple) (s : Sequencer) where
  stage_blocks_ok :
      (u : Unit {0})
      → validate (slice frame a b) ≡ ok u
      → stage_blocks frame clamp ((seq, a, b) ∷ ts) s
        ≡ stage_blocks frame clamp ts (stage_or_drop clamp seq (slice frame a b) s)
  unfolding stage_blocks
  stage_blocks_ok u h = rw (h, stage_blocks)

  stage_blocks_err :
      (x : ItchError)
      → validate (slice frame a b) ≡ err x
      → stage_blocks frame clamp ((seq, a, b) ∷ ts) s ≡ (err x, s)
  unfolding stage_blocks
  stage_blocks_err x h = rw (h, stage_blocks)

-- The gap path's loop over the triples is the walk.
stage_blocks-eq-each :
    (ms : List Bytes) (frame : Bytes) (clamp pos seq : ℕ) (s : Sequencer)
    → Stands frame pos ms
    → each (stage_valid clamp) seq 0 ms s ≡ staged frame clamp (triples pos seq ms) s
unfolding triples each continue visit
stage_blocks-eq-each [] frame clamp pos seq s h = unfold stage_blocks in refl
stage_blocks-eq-each (m ∷ ms) frame clamp pos seq s h =
    step (validate m) refl
      (λ s'. stage_blocks-eq-each ms frame clamp (pos + 2 + length m) (add64 seq 1) s' h.1)
  where
    ts : List Triple
    ts = triples (pos + 2 + length m) (add64 seq 1) ms

    step :
        (r : Result ItchError (Unit {0}))
        → validate m ≡ r
        → ((s' : Sequencer)
            → each (stage_valid clamp) (add64 seq 1) 0 ms s' ≡ staged frame clamp ts s')
        → continue
            (stage_valid clamp seq m s)
            (λ s'. each (stage_valid clamp) (add64 seq 1) (0 - 1) ms s')
          ≡ staged frame clamp ((seq, pos + 2, pos + 2 + length m) ∷ ts) s
    step (ok u) e k =
        let z : 0 - 1 ≡ 0 = omega arith in
        rw
          (
            stage_valid_ok clamp seq m s u e,
            z,
            stage_blocks_ok frame clamp seq _ _ ts s u (ap validate h.0 ∙ e),
            h.0,
          )
          (k (stage_or_drop clamp seq m s))
    step (err x) e k =
        rw
          (
            stage_valid_err clamp seq m s x e,
            stage_blocks_err frame clamp seq _ _ ts s x (ap validate h.0 ∙ e),
          )
          refl

finish_contig-Same :
    (last now_ns : ℕ) (r : Result PacketError (Unit {0})) (calls calls' : List Call) (s : Sequencer)
    → spread calls ≡ spread calls'
    → Same (finish_contig last now_ns r calls s) (finish_contig last now_ns r calls' s)
unfolding finish_contig
finish_contig-Same last now_ns (err e) calls calls' s h = (refl, h)
finish_contig-Same last now_ns (ok u) calls calls' s h =
    let rest : List Call = (advance last now_ns s >>= (λ s3. done (retire_pending s3))).1 in
    (
      refl,
      spread-append calls rest
          ∙ ap (λ (t : List Call). t ++ spread rest) h
          ∙ sym (spread-append calls' rest),
    )

module _ (session : Bytes) (seq : ℕ) (ms : List Bytes) (ten : length session ≡ 10)
    (fits : All Fits ms) (bound : seq + length ms < u64) (pos : 0 < length ms) where
  abbrev frame : Bytes
  frame = encode_frame session seq ms

  abbrev blocks : List Triple
  blocks = triples 20 seq ms

  stands : Stands frame 20 ms
  unfolding encode_frame
  stands =
      subst (λ (b : Bytes). Stands (encode_header session seq (length ms) ++ b) 20 ms)
        (append-nil (encode_blocks ms))
        (encode_blocks-Stands ms (encode_header session seq (length ms)) [] 20
          (sym (length-encode_header session seq (length ms) ten)))

  apply_gap-Same :
      (now_ns : ℕ) (s : Sequencer)
      → apply_gap frame seq (seq + (length ms - 1)) (length ms) now_ns s
        ≡ apply_gap_indexed frame seq (seq + (length ms - 1)) now_ns blocks s
  unfolding apply_gap apply_gap_indexed
  apply_gap-Same now_ns s =
      let s1 : Sequencer = (gap_evidence s seq).0 in
      rw
        (ingest_walk-each (stage_valid (max_clamp s1)) session seq 0 ms s1 ten fits
          ∙ stage_blocks-eq-each ms frame (max_clamp s1) 20 seq s1 stands)
        refl

  module _ (few : length ms < 65535) (wants : Bool) (memo : Option FrameMemo)
      (valid : memo_is memo (length ms) ≡ true → AllValid ms) where
    apply_contig-Same :
        (last now_ns : ℕ) (s : Sequencer)
        → seq ≤ s.w
        → s.w < seq + length ms
        → Same
            (apply_contig frame seq last (length ms) now_ns s)
            (apply_contig_indexed frame wants memo seq last now_ns blocks s)
    unfolding apply_contig apply_contig_indexed
    apply_contig-Same last now_ns s lo hi =
        let skip : min (sub64 s.w seq) (length ms) ≡ s.w - seq = omega arith in
        let proof : LiveFeedProof = record { gen = s.gen } in
        let walk =
          ingest_walk-each (emit_valid proof) session seq (s.w - seq) ms (0, []) ten fits in
        let (r, n, c) =
          emit_indexed-Agrees frame proof ms 20 seq (s.w - seq) stands bound (omega arith) few wants
            (memo_is memo (length ms)) valid in
        rw (length-triples 20 seq ms, skip, walk, r, n)
          (finish_contig-Same last now_ns _ (each (emit_valid proof) seq (s.w - seq) ms (0, [])).1.1
            _ _ c)

    pub ingest_data-Same :
        (feed now_ns : ℕ) (s : Sequencer)
        → s.w < u64
        → Same
            (ingest_data frame feed now_ns seq (seq + (length ms - 1)) (length ms) s)
            (ingest_data_indexed frame feed now_ns (length ms) wants memo blocks s)
    unfolding ingest_data ingest_data_indexed triples
    ingest_data-Same feed now_ns s room =
        let last : ℕ = seq + (length ms - 1) in
        let l : (last_of blocks).0 ≡ last =
          ap (λ (x : ℕ × ℕ). x.0) (last_of_blocks ms 20 seq pos bound) in
        rw (l, first_seq_of_blocks ms pos)
          (elim (Bool-cases (state_eq s.state init)) [
            | inl a ↦ simp a (
                apply_contig-Same last now_ns
                  (record s { w = seq; progress_vt = now_ns; state = contig }) (omega arith)
                  (omega arith))
            | inr a ↦ simp a (elim (Bool-cases (ltb last s.w)) [
              | inl b ↦ simp b (refl, refl)
              | inr b ↦ simp b (elim (Bool-cases (leb seq s.w)) [
                | inl c ↦ simp c (apply_contig-Same last now_ns s (ground arith) (ground arith))
                | inr c ↦
                    simp c
                      (let e = apply_gap-Same now_ns s in (ap (λ m. m.0) e, ap (λ m. spread m.1) e))
              ])
            ])
          ])
      where
        first_seq_of_blocks :
            (ms : List Bytes) → 0 < length ms → first_seq_of (triples 20 seq ms) ≡ seq
        first_seq_of_blocks [] h = absurd (omega arith)
        first_seq_of_blocks (m ∷ ms) h = refl
