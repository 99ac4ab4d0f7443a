-- ===== src/Protocol/Moldudp64/Slicer/Ingest.antt =====
-- crates/nf-protocol/src/moldudp64.rs: `spec_slice_ingest`, which counts the blocks of a stream in
-- batches of sixteen and folds their lengths.

use hft_proj.Protocol.Moldudp64.Slicer.Words.{
  rotate_left_xor, turn_next, turns, bit_xor_bound, rotate_left,
}
use hft_proj.Prelude.{
  All, ◌++◌, sym, ◌∙◌, ap, ◌+◌, ◌%◌, ◌*◌, ◌^◌, ◌≤◌, ◌<◌, ◌≡◌, ℕ, zero, suc, Bool, true, false,
  Option, none, some, List, [], ◌∷◌, if◌then◌else◌, ltb, length, Bytes, be16_at, arith, refl,
}
use Prim.Native.Nat.{bit_xor}

-- The lengths of a batch, where it stopped, and whether at a block that is cut off.
pub record LenBatch : Type 0 where
  pub lens : List ℕ
  pub p : ℕ
  pub truncated : Bool

abbrev pub stop_at : (p : ℕ) (truncated : Bool) → LenBatch
stop_at p truncated = record { lens = []; p = p; truncated = truncated }

abbrev pub with_len : ℕ → LenBatch → LenBatch
with_len l b = record b { lens = l ∷ b.lens }

-- The inner loop, with room for `room` more lengths.
unfoldable pub len_batch : Bytes → (room p : ℕ) → LenBatch
len_batch payload zero p =
    if ltb (length payload) (p + 2)
    then stop_at p false
    else stop_at p (ltb (length payload) (p + 2 + be16_at payload p))
len_batch payload (suc room) p =
    let l = be16_at payload p in
    let rest = len_batch payload room (p + 2 + l) in
    if ltb (length payload) (p + 2)
    then stop_at p false
    else if ltb (length payload) (p + 2 + l)
    then stop_at p true
    else with_len l rest

-- `acc ^= rotl(lens[i], 7 * (k - 1 - i))`, for each length of the batch.
unfoldable pub fold_lens : (acc : ℕ) → List ℕ → ℕ
fold_lens acc [] = acc
fold_lens acc (l ∷ ls) = fold_lens (bit_xor acc (rotate_left l (7 * length ls % 64))) ls

abbrev pub fold_batch : (acc : ℕ) → List ℕ → ℕ
fold_batch acc lens = fold_lens (rotate_left acc (7 * length lens % 64)) lens

-- The outer loop; `none` where the fuel runs out.
unfoldable pub ingest_batches : (fuel : ℕ) → Bytes → (pos count acc : ℕ) → Option (ℕ × ℕ)
unfolding len_batch fold_lens
ingest_batches zero payload pos count acc = none
ingest_batches (suc fuel) payload pos count acc =
    let b = len_batch payload 16 pos in
    let count' = count + length b.lens in
    let acc' = fold_batch acc b.lens in
    let rest = ingest_batches fuel payload b.p count' acc' in
    if ltb (length payload) (pos + 2)
    then some (count, acc)
    else if b.truncated
    then some (count', acc')
    else rest

-- The count and the sink. A round that is not the last takes two bytes or more.
unfoldable pub spec_slice_ingest : Bytes → (sink : ℕ) → Option (ℕ × ℕ)
unfolding ingest_batches
spec_slice_ingest payload sink =
    if ltb (length payload) 2
    then some (0, sink)
    else ingest_batches (suc (length payload)) payload 0 0 sink

-- The fold of one length after the other, by which the source defines the sink.
unfoldable pub fold_each : (acc : ℕ) → List ℕ → ℕ
fold_each acc [] = acc
fold_each acc (l ∷ ls) = fold_each (bit_xor (rotate_left acc 7) l) ls

pub fold_each-append :
    (acc : ℕ) (xs ys : List ℕ) → fold_each acc (xs ++ ys) ≡ fold_each (fold_each acc xs) ys
unfolding fold_each
fold_each-append acc [] ys = refl
fold_each-append acc (x ∷ xs) ys = fold_each-append (bit_xor (rotate_left acc 7) x) xs ys

abbrev pub AreWords : List ℕ → Type 0
AreWords = All (λ l. l < 65536)

rotated_bound : (x : ℕ) → x < 2 ^ 64 → rotate_left x 7 < 2 ^ 64
rotated_bound x h = omega arith

folded_bound : (acc l : ℕ) → acc < 2 ^ 64 → l < 65536 → bit_xor (rotate_left acc 7) l < 2 ^ 64
folded_bound acc l h k = bit_xor_bound 64 (rotate_left acc 7) l (rotated_bound acc h) (omega arith)

pub fold_each_bound :
    (acc : ℕ) (ls : List ℕ) → acc < 2 ^ 64 → AreWords ls → fold_each acc ls < 2 ^ 64
unfolding fold_each
fold_each_bound acc [] h k = h
fold_each_bound acc (l ∷ ls) h k =
    fold_each_bound (bit_xor (rotate_left acc 7) l) ls (folded_bound acc l h k.0) k.1

-- A batch folded at once is folded one after the other.
pub fold_batch-fold_each :
    (ls : List ℕ) (acc : ℕ)
    → acc < 2 ^ 64
    → AreWords ls
    → length ls ≤ 16
    → fold_batch acc ls ≡ fold_each acc ls
unfolding fold_lens fold_each
fold_batch-fold_each [] acc h k s = omega arith
fold_batch-fold_each (l ∷ ls) acc h k s =
    let n : ℕ = length ls in
    let t = turns n (omega arith) in
    let next = turn_next n acc (omega arith) h in
    let swap = rotate_left_xor (rotate_left acc 7) l t (rotated_bound acc h) (omega (arith, k.0)) in
    ap (λ (z : ℕ). fold_lens (bit_xor z (rotate_left l (7 * n % 64))) ls) (sym next)
    ∙ ap (λ (z : ℕ). fold_lens z ls) (sym swap)
    ∙ fold_batch-fold_each ls (bit_xor (rotate_left acc 7) l) (folded_bound acc l h k.0) k.1
        (omega arith)
