-- ===== src/Arbitrator/Sequencer/Walks.antt =====
-- crates/nf-arbitrator/src/lib.rs: the walks of `ingest` over a frame's blocks.
use hft_proj.Prelude.{
  ℕ, zero, suc, ◌+◌, ◌-◌, ◌<◌, ◌≤◌, ◌≡◌, refl, sym, ◌∙◌, some, List, [], ◌∷◌, ◌++◌, ltb, Bytes,
  add64, u64, arith, if-cases, slice, Result, ok, err, append-nil, append_assoc,
}
use hft_proj.Protocol.Itch5.{ItchError, validate}
use hft_proj.Protocol.Packet.{
  PacketError, payload, visit, continue, has_block, block_end, walk_from, ingest_walk,
}
use hft_proj.Arbitrator.Types.{LiveFeedProof, Call, on_msg}
use hft_proj.Arbitrator.State.Invariant.{expect}
use hft_proj.Arbitrator.Sequencer.{Emitted, emit_valid}

-- What both loops do with one message.
abbrev pub emit_then :
    {R : Type 0}
    → LiveFeedProof
    → (seq : ℕ) → Bytes
    → Emitted
    → Result ItchError (Unit {0})
    → (ItchError → R)
    → (Emitted → R)
    → R
emit_then proof seq m e (err x) bad good = bad x
emit_then proof seq m e (ok u) bad good = good (add64 e.0 1, e.1 ++ (on_msg proof seq m ∷ []))

pub continue-emit_valid :
    (proof : LiveFeedProof) (seq : ℕ) (m : Bytes) (e : Emitted)
    (rest : Emitted → Result PacketError (Unit {0}) × Emitted)
    → continue (emit_valid proof seq m e) rest
      ≡ emit_then proof seq m e (validate m) (λ x. (err (payload x), e)) rest
unfolding continue emit_valid
continue-emit_valid proof seq m (n, calls) rest = ground arith

-- What a walk hands over, where `a` is the next number that it does not skip and `last` is past all:
-- the numbers from `a` on, all of them if the walk succeeds.
pub record Emits (a last : ℕ) (e : Emitted) (out : Result PacketError (Unit {0}) × Emitted)
    : Type 0 where
  pub fresh : List Call
  pub upto : ℕ
  pub calls : out.1.1 ≡ e.1 ++ fresh
  pub runs : expect a fresh ≡ some upto
  pub low : a ≤ upto
  pub high : upto ≤ last
  pub whole : out.0 ≡ ok tt → upto ≡ last

Emits-nothing :
    (a last : ℕ) (e : Emitted) (r : Result PacketError (Unit {0}))
    → a ≤ last
    → (r ≡ ok tt → a ≡ last)
    → Emits a last e (r, e)
Emits-nothing a last e r h w = record {
  fresh = [];
  upto = a;
  calls = sym (append-nil e.1);
  runs = unfold expect in refl;
  low = omega arith;
  high = h;
  whole = w;
}

Emits-first :
    {a last : ℕ} (proof : LiveFeedProof) (m : Bytes) (e : Emitted)
    {out : Result PacketError (Unit {0}) × Emitted}
    → Emits (a + 1) last (add64 e.0 1, e.1 ++ (on_msg proof a m ∷ [])) out
    → Emits a last e out
unfolding expect
Emits-first {a} proof m e w = record {
  fresh = on_msg proof a m ∷ w.fresh;
  upto = w.upto;
  calls = w.calls ∙ append_assoc e.1 (on_msg proof a m ∷ []) w.fresh;
  runs = ground (arith, w.runs);
  low = omega (arith, w.low);
  high = w.high;
  whole = w.whole;
}

-- One block, in front of a walk over the later ones.
module _ (count : ℕ) (frame : Bytes) (proof : LiveFeedProof) (pos seq : ℕ) (e : Emitted)
    (bound : seq + suc count < u64) (rest : ℕ → Emitted → Result PacketError (Unit {0}) × Emitted)
    (later : (k a : ℕ) (e' : Emitted)
      → k ≤ count
      → a ≡ seq + 1 + k
      → Emits a (seq + suc count) e' (rest k e')) where
  one_block :
      (msg : Bytes) (r : Result ItchError (Unit {0}))
      → Emits seq
          (seq + suc count)
          e
          (emit_then proof seq msg e r (λ x. (err (payload x), e)) (rest 0))
  one_block msg (ok u) = Emits-first proof msg e (
      later 0 (seq + 1) (add64 e.0 1, e.1 ++ (on_msg proof seq msg ∷ [])) (omega arith)
        (omega arith))
  one_block msg (err x) =
      Emits-nothing seq (seq + suc count) e (err (payload x)) (omega arith) (λ p. cc)

  visit-Emits :
      (msg : Bytes) (skip : ℕ)
      → skip ≤ suc count
      → Emits
          (seq + skip)
          (seq + suc count)
          e
          (continue (visit (emit_valid proof) seq skip msg e) (rest (skip - 1)))
  unfolding continue visit
  visit-Emits msg skip h =
      if-cases (λ v. Emits (seq + skip) (seq + suc count) e (continue v (rest (skip - 1))))
        (ltb 0 skip) (λ b. later (skip - 1) (seq + skip) e (ground arith) (ground arith))
        (λ b.
          let z : skip ≡ 0 = ground arith in
          let z' : seq + 0 ≡ seq = omega arith in
          let z'' : 0 - 1 ≡ 0 = omega arith in
          rw (z, z', z'', continue-emit_valid proof seq msg e (rest 0))
            (one_block msg (validate msg)))

-- The walk over any frame.
walk_from-Emits :
    (count skip : ℕ) (frame : Bytes) (proof : LiveFeedProof) (pos seq : ℕ) (e : Emitted)
    → skip ≤ count
    → seq + count < u64
    → Emits (seq + skip) (seq + count) e (walk_from frame (emit_valid proof) pos seq count skip e)
unfolding walk_from
walk_from-Emits zero skip frame proof pos seq e h b =
    Emits-nothing (seq + skip) (seq + 0) e _ (omega arith) (λ _. omega arith)
walk_from-Emits (suc count) skip frame proof pos seq e h b =
    let next : ℕ = block_end frame pos in
    let n : add64 seq 1 ≡ seq + 1 = omega arith in
    let l : seq + suc count ≡ seq + 1 + count = omega arith in
    if-cases (Emits (seq + skip) (seq + suc count) e) (has_block frame pos)
      (λ present.
        visit-Emits count frame proof pos seq e b
          (λ k e'. walk_from frame (emit_valid proof) next (add64 seq 1) count k e')
          (λ k a e' h eq.
            rw (eq, n, l) (walk_from-Emits count k frame proof next (seq + 1) e' h (omega arith)))
          (slice frame (pos + 2) next) skip h)
      (λ absent. Emits-nothing _ _ e _ (omega arith) (λ x. cc))

pub ingest_walk-Emits :
    (frame : Bytes) (proof : LiveFeedProof) (seq count skip : ℕ)
    → skip ≤ count
    → seq + count < u64
    → Emits
        (seq + skip)
        (seq + count)
        (0, [])
        (ingest_walk frame (emit_valid proof) seq count skip (0, []))
unfolding ingest_walk
ingest_walk-Emits frame proof seq count skip h b =
    walk_from-Emits count skip frame proof 20 seq (0, []) h b
