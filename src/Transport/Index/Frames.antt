-- ===== src/Transport/Index/Frames.antt =====
-- crates/nf-transport/src/render.rs: the index of a well-formed frame.
use hft_proj.Prelude.{
  ℕ, suc, ◌+◌, ◌≤◌, ◌≡◌, refl, sym, ap, ◌∙◌, false, ◌&&◌, some, List, [], ◌∷◌, ◌++◌, if◌then◌else◌,
  ltb, ◌==◌, length, All, Bytes, add64, to_be16, arith, length-append, append-nil, ==_refl,
}
use hft_proj.Protocol.Moldudp64.Wire.{
  encode_blocks, encode_header, encode_frame, Fits, length-encode_header,
}
use hft_proj.Protocol.Moldudp64.Blocks.{be16_at_block, slice_block, length-block}
use hft_proj.Protocol.Itch5.{validate}
use hft_proj.Protocol.Packet.Walk.{regroup_block}
use hft_proj.Arbitrator.Sequencer.Indexed.Blocks.{triples}
use hft_proj.Arbitrator.Sequencer.Indexed.Spans.{AllValid}
use hft_proj.Transport.Index.{is_ok, with_triple, index_from, index_frame}

-- How many leading messages `validate` accepts.
unfoldable pub leading_valid : List Bytes → ℕ
leading_valid [] = 0
leading_valid (m ∷ ms) = if is_ok (validate m) then suc (leading_valid ms) else 0

pub leading_valid-le : (ms : List Bytes) → leading_valid ms ≤ length ms
unfolding leading_valid
leading_valid-le [] = omega arith
leading_valid-le (m ∷ ms) = ground (arith, leading_valid-le ms)

-- Where the count is that of all messages, all are valid.
pub leading_valid-AllValid : (ms : List Bytes) → leading_valid ms ≡ length ms → AllValid ms
unfolding leading_valid
leading_valid-AllValid [] h = tt
leading_valid-AllValid (m ∷ ms) h =
    (ground arith, leading_valid-AllValid ms (ground (arith, leading_valid-le ms)))

-- The valid count after a walk: the walk's prefix was valid up to `valid` of `n`.
abbrev counted : (n valid : ℕ) → List Bytes → ℕ
counted n valid ms = if valid == n then valid + leading_valid ms else valid

step_count :
    (n valid : ℕ) (m : Bytes) (ms : List Bytes)
    → valid ≤ n
    → counted (n + 1) (if valid == n && is_ok (validate m) then valid + 1 else valid) ms
      ≡ counted n valid (m ∷ ms)
unfolding leading_valid
step_count n valid m ms h = ground arith

index_step :
    (pre m tail : Bytes) (seq count n valid : ℕ)
    → Fits m
    → let b : Bytes = pre ++ (to_be16 (length m) ++ (m ++ tail)) in
      let end : ℕ = length pre + 2 + length m in
      index_from b (length b) (length pre) seq (suc count) n valid
      ≡ with_triple
          (seq, length pre + 2, end)
          (index_from b
            (length b)
            end
            (add64 seq 1)
            count
            (n + 1)
            (if valid == n && is_ok (validate m) then valid + 1 else valid))
unfolding index_from
index_step pre m tail seq count n valid h =
    let b : Bytes = pre ++ (to_be16 (length m) ++ (m ++ tail)) in
    let short : ltb (length b) (length pre + 2) ≡ false = ground (arith, length-block pre m tail) in
    let long : ltb (length b) (length pre + 2 + length m) ≡ false =
      ground (arith, length-block pre m tail) in
    rw
      (
        be16_at_block pre m tail h,
        slice_block pre m tail (length pre + 2 + length m) refl,
        short,
        long,
      )
      refl

index_from-encode :
    (ms : List Bytes) (pre : Bytes) (pos seq n valid : ℕ)
    → All Fits ms
    → pos ≡ length pre
    → valid ≤ n
    → let b : Bytes = pre ++ encode_blocks ms in
      index_from b (length b) pos seq (length ms) n valid
      ≡ some (record { blocks = triples pos seq ms; valid = counted n valid ms })
unfolding encode_blocks triples
index_from-encode [] pre pos seq n valid f e h =
    let z : valid + leading_valid [] ≡ valid = unfold leading_valid in omega arith in
    unfold index_from in rw (append-nil, e, ==_refl (length pre), z) (ground arith)
index_from-encode (m ∷ ms) pre pos seq n valid f e h =
    let pre' : Bytes = pre ++ (to_be16 (length m) ++ m) in
    let end : ℕ = length pre + 2 + length m in
    let v : ℕ = if valid == n && is_ok (validate m) then valid + 1 else valid in
    rw e (
      index_step pre m (encode_blocks ms) seq (length ms) n valid f.0
      ∙ ap (with_triple (seq, length pre + 2, end)) (
          ap (λ (b : Bytes). index_from b (length b) end (add64 seq 1) (length ms) (n + 1) v)
            (regroup_block pre m (encode_blocks ms))
          ∙ index_from-encode ms pre' end (add64 seq 1) (n + 1) v f.1
              (omega (arith, length-append pre (to_be16 (length m) ++ m))) (ground arith)
          ∙ ap (λ (k : ℕ). some (record { blocks = triples end (add64 seq 1) ms; valid = k }))
              (step_count n valid m ms h)))

-- The index of a well-formed frame is the list of its blocks, numbered from the frame's first, and its
-- memo counts the leading messages that `validate` accepts: if it counts them all, all are valid.
pub index_frame-encode_frame :
    (session : Bytes) (seq : ℕ) (ms : List Bytes)
    → length session ≡ 10
    → All Fits ms
    → let frame : Bytes = encode_frame session seq ms in
      (index_frame frame (length frame) seq (length ms)
        ≡ some (record { blocks = triples 20 seq ms; valid = leading_valid ms }))
      × (leading_valid ms ≡ length ms → AllValid ms)
unfolding index_frame encode_frame
index_frame-encode_frame session seq ms ten fits = (
  index_from-encode ms (encode_header session seq (length ms)) 20 seq 0 0 fits
        (sym (length-encode_header session seq (length ms) ten)) (omega arith)
      ∙ ap (λ (k : ℕ). some (record { blocks = triples 20 seq ms; valid = k })) (omega arith),
  leading_valid-AllValid ms,
)
