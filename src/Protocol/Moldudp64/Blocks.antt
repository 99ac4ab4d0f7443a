-- ===== src/Protocol/Moldudp64/Blocks.antt =====
-- crates/nf-protocol/src/moldudp64.rs: the block walk of `parse` and the block iterator, against the
-- grammar of length-prefixed messages.
use hft_proj.Prelude.{
  ℕ, zero, suc, ◌+◌, ◌-◌, ◌≤◌, ◌≡◌, refl, sym, ap, ap₂, ◌∙◌, List, [], ◌∷◌, ◌++◌, arith, length,
  All, slice, take, Bytes, IsByte, IsBytes, to_be16, be16_at, get_or-append, take-append,
  drop-append, length-append, append_assoc, drop, from_be16, add64, some, ok, All-drop,
  take-append-drop, length-take, drop_add,
}
use hft_proj.Protocol.Moldudp64.{skip_blocks, next, yielded, collect, MessageBlock, MessageBlocks}
use hft_proj.Protocol.Moldudp64.Wire.{encode_blocks, Fits, be16-to_be16}

pub drop_two : (a b n : ℕ) (xs : Bytes) → drop (2 + n) (a ∷ b ∷ xs) ≡ drop n xs
drop_two a b n xs = drop_add (a ∷ b ∷ xs) 2 n

pub length-encode_cons :
    (m rest : Bytes) → length (to_be16 (length m) ++ (m ++ rest)) ≡ 2 + length m + length rest
length-encode_cons m rest = omega (arith, length-append m rest)

-- The walk over well-formed blocks takes them all and leaves what follows.
pub skip_blocks-encode :
    (ms : List Bytes) (rest : Bytes)
    → All Fits ms
    → skip_blocks (encode_blocks ms ++ rest) (length ms) ≡ ok rest
unfolding skip_blocks encode_blocks
skip_blocks-encode [] rest h = refl
skip_blocks-encode (m ∷ ms) rest h =
    rw
      (
        be16-to_be16 (length m) h.0,
        append_assoc m (encode_blocks ms) rest,
        drop_two,
        drop-append m (encode_blocks ms ++ rest) (length m) refl,
      )
      (ground (arith, skip_blocks-encode ms rest h.1, length-append m (encode_blocks ms ++ rest)))

-- What one block of a body is.
record IsBlock (rest : Bytes) (m tail : Bytes) : Type 0 where
  whole : rest ≡ to_be16 (length m) ++ (m ++ tail)
  fits : Fits m

split-IsBlock :
    (rest : Bytes)
    → IsBytes rest
    → 2 + be16_at rest 0 ≤ length rest
    → 2 ≤ length rest
    → let len = be16_at rest 0 in IsBlock rest (take len (drop 2 rest)) (drop (2 + len) rest)
split-IsBlock [] h k t = absurd (omega arith)
split-IsBlock (a ∷ []) h k t = absurd (omega arith)
split-IsBlock (a ∷ b ∷ xs) h k t =
    let n : ℕ = from_be16 a b in
    let len : length (take n xs) ≡ n = omega (arith, length-take n xs) in
    record {
      whole =
          rw (len, drop_two a b n xs, take-append-drop n xs)
            (ap₂ (λ (u v : ℕ). u ∷ v ∷ xs) (omega arith) (omega arith));
      fits = omega (arith, len);
    }

-- A walk that succeeds has seen well-formed blocks, as many as it was asked for.
pub skip_blocks_sound :
    (count : ℕ) (rest left : Bytes)
    → IsBytes rest
    → skip_blocks rest count ≡ ok left
    → (ms : List Bytes) × (rest ≡ encode_blocks ms ++ left) × (length ms ≡ count) × All Fits ms
unfolding skip_blocks encode_blocks
skip_blocks_sound zero rest left h e = ([], cc, refl, tt)
skip_blocks_sound (suc count) rest left h e =
    let len : ℕ = be16_at rest 0 in
    let two : 2 ≤ length rest = ground arith in
    let room : 2 + len ≤ length rest = ground arith in
    let more : skip_blocks (drop (2 + len) rest) count ≡ ok left = ground arith in
    let (ms, eq, n, f) =
      skip_blocks_sound count (drop (2 + len) rest) left (All-drop IsByte (2 + len) rest h) more in
    let b = split-IsBlock rest h room two in
    let m : Bytes = take len (drop 2 rest) in
    (
      m ∷ ms,
      b.whole
          ∙ ap (λ t. to_be16 (length m) ++ (m ++ t)) eq
          ∙ ap (λ t. to_be16 (length m) ++ t) (sym (append_assoc m (encode_blocks ms) left)),
      omega arith,
      (b.fits, f),
    )

-- The items of a list of messages, numbered from `seq` on.
unfoldable pub numbered : ℕ → List Bytes → List MessageBlock
numbered seq [] = []
numbered seq (m ∷ ms) = record { seq = seq; payload = m } ∷ numbered (add64 seq 1) ms

abbrev at_block : Bytes → Bytes → ℕ → ℕ → MessageBlocks
at_block pre body seq n = record {
  buf = pre ++ body;
  pos = length pre;
  next_seq = seq;
  remaining = n;
}

-- The two length bytes of a block behind `pre`, and its payload.
pub be16_at_block :
    (pre m tail : Bytes)
    → Fits m
    → be16_at (pre ++ (to_be16 (length m) ++ (m ++ tail))) (length pre) ≡ length m
be16_at_block pre m tail h =
    let xs : Bytes = to_be16 (length m) ++ (m ++ tail) in
    rw
      (
        get_or-append pre xs (length pre) 0 0 (omega arith),
        get_or-append pre xs (length pre + 1) 1 0 refl,
      )
      (be16-to_be16 (length m) h)

pub slice_block :
    (pre m tail : Bytes) (end : ℕ)
    → end ≡ length pre + 2 + length m
    → slice (pre ++ (to_be16 (length m) ++ (m ++ tail))) (length pre + 2) end ≡ m
slice_block pre m tail end h =
    let xs : Bytes = to_be16 (length m) ++ (m ++ tail) in
    let n : end - (length pre + 2) ≡ length m = omega arith in
    rw (n, drop_add (pre ++ xs) (length pre) 2, drop-append pre xs (length pre) refl)
      (take-append m tail (length m) refl)

pub length-block :
    (pre m tail : Bytes)
    → length (pre ++ (to_be16 (length m) ++ (m ++ tail))) ≡ length pre + 2 + length m + length tail
length-block pre m tail =
    omega (arith, length-append pre (to_be16 (length m) ++ (m ++ tail)), length-append m tail)

next-encode :
    (pre m tail : Bytes) (seq n : ℕ)
    → Fits m
    → next (at_block pre (to_be16 (length m) ++ (m ++ tail)) seq (suc n))
      ≡ yielded
          (record { seq = seq; payload = m })
          (record {
            buf = pre ++ (to_be16 (length m) ++ (m ++ tail));
            pos = length pre + 2 + length m;
            next_seq = add64 seq 1;
            remaining = n;
          })
unfolding next
next-encode pre m tail seq n h = ground (
  arith,
  be16_at_block pre m tail h,
  slice_block pre m tail (length pre + 2 + length m) refl,
  length-block pre m tail,
)

collect_step :
    (n : ℕ) (it : MessageBlocks) {it' : MessageBlocks} {b : MessageBlock} {bs : List MessageBlock}
    → next it ≡ yielded b it'
    → collect n it' ≡ some bs
    → collect (suc n) it ≡ some (b ∷ bs)
unfolding collect
collect_step n it p q = ground arith

-- The iterator after a block stands behind a longer front.
past_block :
    (pre m tail : Bytes) (seq n : ℕ)
    → at_block (pre ++ (to_be16 (length m) ++ m)) tail seq n ≡ record {
      buf = pre ++ (to_be16 (length m) ++ (m ++ tail));
      pos = length pre + 2 + length m;
      next_seq = seq;
      remaining = n;
    }
past_block pre m tail seq n = ground (
  arith,
  append_assoc pre (to_be16 (length m) ++ m) tail,
  length-append pre (to_be16 (length m) ++ m),
)

-- The iterator over well-formed blocks yields each message once, in order and numbered, ends after
-- the last, and never indexes out of bounds.
pub collect-encode :
    (ms : List Bytes) (pre rest : Bytes) (seq : ℕ)
    → All Fits ms
    → collect (suc (length ms)) (at_block pre (encode_blocks ms ++ rest) seq (length ms))
      ≡ some (numbered seq ms)
unfolding encode_blocks numbered
collect-encode [] pre rest seq h = unfold next collect in refl
collect-encode (m ∷ ms) pre rest seq h = rw (append_assoc m (encode_blocks ms) rest) (
    collect_step (suc (length ms)) _
      (next-encode pre m (encode_blocks ms ++ rest) seq (length ms) h.0)
      (rw (← past_block pre m (encode_blocks ms ++ rest) (add64 seq 1) (length ms))
        (collect-encode ms (pre ++ (to_be16 (length m) ++ m)) rest (add64 seq 1) h.1)))
