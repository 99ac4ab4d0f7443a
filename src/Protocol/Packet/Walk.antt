-- ===== src/Protocol/Packet/Walk.antt =====
-- crates/nf-protocol/src/packet.rs: the single-pass walk, against a loop over the messages of a
-- well-formed frame and against the two-phase `validate_frame`.
use hft_proj.Protocol.Itch5.{ItchError}
use hft_proj.Prelude.{
  ltb, zero, drop, u64, ◌<◌, err, ℕ, suc, ◌+◌, ◌-◌, ◌≡◌, refl, sym, ap, ◌∙◌, true, List, [], ◌∷◌,
  ◌++◌, arith, length, All, Bytes, to_be16, add64, Result, ok, length-append, append_assoc,
  append-nil, fun_ext, ==_refl,
}
use hft_proj.Protocol.Moldudp64.Wire.{
  encode_blocks, encode_header, encode_frame, Fits, length-encode_header,
}
use hft_proj.Protocol.Moldudp64.Blocks.{be16_at_block, slice_block, length-block}
use hft_proj.Protocol.Packet.{
  payload, PacketError, Callback, walk_from, ingest_walk, visit, continue, has_block, block_end,
}

module _ {S : Type 0} (f : Callback S) where
  -- The callback on each message past the first `skip`, until one fails.
  unfoldable pub each : (seq skip : ℕ) → List Bytes → S → Result PacketError (Unit {0}) × S
  each seq skip [] s = (ok tt, s)
  each seq skip (m ∷ ms) s =
      continue (visit f seq skip m s) (λ s'. each (add64 seq 1) (skip - 1) ms s')

block_end-encode :
    (pre m tail : Bytes)
    → Fits m
    → block_end (pre ++ (to_be16 (length m) ++ (m ++ tail))) (length pre)
      ≡ length pre + 2 + length m
unfolding block_end
block_end-encode pre m tail h = rw (be16_at_block pre m tail h)

has_block-encode :
    (pre m tail : Bytes)
    → Fits m
    → has_block (pre ++ (to_be16 (length m) ++ (m ++ tail))) (length pre) ≡ true
unfolding has_block
has_block-encode pre m tail h =
    ground (arith, block_end-encode pre m tail h, length-block pre m tail)

pub regroup_block :
    (pre m tail : Bytes)
    → pre ++ (to_be16 (length m) ++ (m ++ tail)) ≡ (pre ++ (to_be16 (length m) ++ m)) ++ tail
regroup_block pre m tail = sym (append_assoc pre (to_be16 (length m) ++ m) tail)

module _ {S : Type 0} (f : Callback S) where
  walk_step :
      (pre m tail : Bytes) (seq count skip : ℕ) (s : S)
      → Fits m
      → walk_from (pre ++ (to_be16 (length m) ++ (m ++ tail))) f (length pre) seq (suc count) skip s
        ≡ continue (visit f seq skip m s) (λ s'.
          walk_from
            ((pre ++ (to_be16 (length m) ++ m)) ++ tail)
            f
            (length pre + 2 + length m)
            (add64 seq 1)
            count
            (skip - 1)
            s')
  unfolding walk_from
  walk_step pre m tail seq count skip s h = rw (
    ← regroup_block pre m tail,
    has_block-encode pre m tail h,
    block_end-encode pre m tail h,
    slice_block pre m tail (length pre + 2 + length m) refl,
  )

  -- Behind any front, the walk over well-formed blocks is the loop over their messages.
  pub walk_from-encode :
      (ms : List Bytes) (pre : Bytes) (pos seq skip : ℕ) (s : S)
      → All Fits ms
      → pos ≡ length pre
      → walk_from (pre ++ encode_blocks ms) f pos seq (length ms) skip s ≡ each f seq skip ms s
  unfolding encode_blocks each
  walk_from-encode [] pre pos seq skip s h e =
      unfold walk_from in rw (append-nil, e, ==_refl (length pre))
  walk_from-encode (m ∷ ms) pre pos seq skip s h e = rw e (
      walk_step pre m (encode_blocks ms) seq (length ms) skip s h.0
      ∙ ap (continue (visit f seq skip m s)) (
          fun_ext (λ s'.
            walk_from-encode ms (pre ++ (to_be16 (length m) ++ m)) (length pre + 2 + length m)
              (add64 seq 1) (skip - 1) s' h.1
              (omega (arith, length-append pre (to_be16 (length m) ++ m))))))

  pub ingest_walk-each :
      (session : Bytes) (seq skip : ℕ) (ms : List Bytes) (s : S)
      → length session ≡ 10
      → All Fits ms
      → ingest_walk (encode_frame session seq ms) f seq (length ms) skip s ≡ each f seq skip ms s
  unfolding ingest_walk encode_frame
  ingest_walk-each session seq skip ms s h fits =
      walk_from-encode ms (encode_header session seq (length ms)) 20 seq skip s fits
        (sym (length-encode_header session seq (length ms) h))

module _ {S : Type 0} (f : Callback S) where
  -- The callback on all messages of a list, until it fails on one.
  unfoldable pub run_all : (seq : ℕ) → List Bytes → S → Result PacketError (Unit {0}) × S
  run_all seq [] s = (ok tt, s)
  run_all seq (m ∷ ms) s =
      let (r, s') = f seq m s in
      elim r [ ok u ↦ run_all (add64 seq 1) ms s' | err e ↦ (err (payload e), s') ]

  each-run_all : (ms : List Bytes) (seq : ℕ) (s : S) → each f seq 0 ms s ≡ run_all seq ms s
  unfolding each run_all visit continue
  each-run_all [] seq s = refl
  each-run_all (m ∷ ms) seq s = called (λ s'. each-run_all ms (add64 seq 1) s') (f seq m s)
    where
      called :
          ((s' : S) → each f (add64 seq 1) 0 ms s' ≡ run_all (add64 seq 1) ms s')
          → (r : Result ItchError (Unit {0}) × S)
          → continue r (λ s'. each f (add64 seq 1) 0 ms s')
            ≡ elim r.0 [ ok u ↦ run_all (add64 seq 1) ms r.1 | err e ↦ (err (payload e), r.1) ]
      called ih (ok u, s') = ih s'
      called ih (err e, s') = refl

  each-drop :
      (ms : List Bytes) (seq skip : ℕ) (s : S)
      → seq < u64
      → each f seq skip ms s ≡ run_all (add64 seq skip) (drop skip ms) s
  unfolding each visit continue
  each-drop ms seq zero s h =
      let e : seq ≡ add64 seq zero = omega arith in
      each-run_all ms seq s ∙ ap (λ (k : ℕ). run_all k ms s) e
  each-drop [] seq (suc skip) s h = unfold run_all in refl
  each-drop (m ∷ ms) seq (suc skip) s h =
      let e : add64 (add64 seq 1) skip ≡ add64 seq (suc skip) = omega arith in
      let a : ltb 0 (suc skip) ≡ true = ground arith in
      let b : suc skip - 1 ≡ skip = omega arith in
      rw (a, b)
        (each-drop ms (add64 seq 1) skip s (omega arith)
          ∙ ap (λ (k : ℕ). run_all k (drop skip ms) s) e)

  -- On a well-formed frame, numbered from a 64-bit `seq`, `ingest_walk` runs its callback on the messages
  -- past the first `skip`, in order and numbered from `seq + skip`, and stops at the first on which it
  -- fails, with that error.
  pub ingest_walk-encode_frame :
      (session : Bytes) (seq skip : ℕ) (ms : List Bytes) (s : S)
      → length session ≡ 10
      → All Fits ms
      → seq < u64
      → ingest_walk (encode_frame session seq ms) f seq (length ms) skip s
        ≡ run_all (add64 seq skip) (drop skip ms) s
  ingest_walk-encode_frame session seq skip ms s h fits room =
      ingest_walk-each f session seq skip ms s h fits ∙ each-drop ms seq skip s room
