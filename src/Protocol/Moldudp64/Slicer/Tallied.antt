-- ===== src/Protocol/Moldudp64/Slicer/Tallied.antt =====
-- crates/nf-protocol/src/moldudp64.rs: `spec_slice_ingest` against the blocks of its stream.
use hft_proj.Protocol.Moldudp64.Slicer.Walks.{sliced-step, sliced_end, sliced}
use hft_proj.Protocol.Moldudp64.Slicer.{SpecMsg}
use hft_proj.Protocol.Moldudp64.Slicer.Ingest.{
  fold_each-append, fold_each_bound, fold_batch-fold_each, fold_batch, AreWords, LenBatch,
  len_batch, fold_each, spec_slice_ingest, ingest_batches,
}
use hft_proj.Prelude.{
  subst, IsByte, length-append, sym, All-get_or, ◌∙◌, ◌^◌, byte_at, if-cases, be16_at, ◌++◌, ◌<◌,
  ap, length, ◌≤◌, IsBytes, map, ◌≡◌, ltb, Option, Bytes, ◌+◌, ℕ, zero, suc, refl, true, false,
  some, List, [], ◌∷◌, arith,
}

abbrev pub lens_of : List SpecMsg → List ℕ
lens_of = map (λ m. m.len)

be16_at_bound : (b : Bytes) (i : ℕ) → IsBytes b → be16_at b i < 65536
be16_at_bound b i h =
    let at : (k : ℕ) → byte_at b k < 256 = λ k. All-get_or IsByte b k 0 (omega arith) h in
    omega (arith, at i, at (i + 1))

-- What a batch takes of the stream.
record IsBatch (payload : Bytes) (room p : ℕ) (b : LenBatch) : Type 0 where
  pub same : b.lens ++ lens_of (sliced payload b.p) ≡ lens_of (sliced payload p)
  pub over : b.truncated ≡ true → sliced payload b.p ≡ []
  pub within : p ≤ length payload → b.p ≤ length payload
  pub short : length b.lens ≤ room
  pub words : AreWords b.lens

taken :
    (payload : Bytes) (p : ℕ)
    → ltb (length payload) (p + 2) ≡ false
    → ltb (length payload) (p + 2 + be16_at payload p) ≡ false
    → lens_of (sliced payload p)
      ≡ be16_at payload p ∷ lens_of (sliced payload (p + 2 + be16_at payload p))
taken payload p a b = ap lens_of (sliced-step payload p) ∙ rw (a, b) refl

len_batch-IsBatch :
    (payload : Bytes)
    → IsBytes payload
    → (room p : ℕ) → IsBatch payload room p (len_batch payload room p)
unfolding len_batch
len_batch-IsBatch payload h zero p =
    if-cases (IsBatch payload 0 p) (ltb (length payload) (p + 2))
      (λ a. record {
        same = refl;
        over = λ e. cc;
        within = λ h. h;
        short = omega arith;
        words = tt;
      })
      (λ a. record {
        same = refl;
        over = λ e. sliced_end payload p (ground (arith, e));
        within = λ h. h;
        short = omega arith;
        words = tt;
      })
len_batch-IsBatch payload h (suc room) p =
    let l : ℕ = be16_at payload p in
    let ih = len_batch-IsBatch payload h room (p + 2 + l) in
    if-cases (IsBatch payload (suc room) p) (ltb (length payload) (p + 2))
      (λ a. record {
        same = refl;
        over = λ e. cc;
        within = λ h. h;
        short = omega arith;
        words = tt;
      })
      (λ a.
        if-cases (IsBatch payload (suc room) p) (ltb (length payload) (p + 2 + l))
          (λ b. record {
            same = refl;
            over = λ e. sliced_end payload p (ground (arith, b));
            within = λ h. h;
            short = omega arith;
            words = tt;
          })
          (λ b. record {
            same = ap (λ (t : List ℕ). l ∷ t) ih.same ∙ sym (taken payload p a b);
            over = ih.over;
            within = λ h. ih.within (ground (arith, b));
            short = omega (arith, ih.short);
            words = (be16_at_bound payload p h, ih.words);
          }))

-- A batch never goes back.
len_batch-ge : (payload : Bytes) (room p : ℕ) → p ≤ (len_batch payload room p).p
unfolding len_batch
len_batch-ge payload zero p = ground arith
len_batch-ge payload (suc room) p =
    ground (arith, len_batch-ge payload room (p + 2 + be16_at payload p))

-- A batch that is not cut off moves on.
len_batch-moves :
    (payload : Bytes) (room p : ℕ)
    → ltb (length payload) (p + 2) ≡ false
    → let b : LenBatch = len_batch payload (suc room) p in b.truncated ≡ false → p + 2 ≤ b.p
unfolding len_batch
len_batch-moves payload room p h =
    if-cases (λ (b : LenBatch). b.truncated ≡ false → p + 2 ≤ b.p) (ltb (length payload) (p + 2))
      (λ a. cc (a, h))
      (λ a.
        if-cases (λ (b : LenBatch). b.truncated ≡ false → p + 2 ≤ b.p)
          (ltb (length payload) (p + 2 + be16_at payload p)) (λ b e. cc e)
          (λ b e. omega (arith, len_batch-ge payload room (p + 2 + be16_at payload p))))

-- The outcome of the loop: the number of the blocks that remain, and the fold of their lengths.
abbrev tallied : (count acc : ℕ) → List ℕ → Option (ℕ × ℕ)
tallied count acc ls = some (count + length ls, fold_each acc ls)

nothing_left : (count acc : ℕ) (ls : List ℕ) → ls ≡ [] → tallied count acc ls ≡ some (count, acc)
unfolding fold_each
nothing_left count acc ls e = ap (tallied count acc) e ∙ ap (λ (n : ℕ). some (n, acc)) (omega arith)

ingest_batches-tallied :
    (payload : Bytes)
    → IsBytes payload
    → (fuel pos count acc : ℕ) → pos ≤ length payload
    → length payload < pos + fuel
    → acc < 2 ^ 64
    → ingest_batches fuel payload pos count acc ≡ tallied count acc (lens_of (sliced payload pos))
unfolding ingest_batches
ingest_batches-tallied payload bytes zero pos count acc h k s = absurd (omega arith)
ingest_batches-tallied payload bytes (suc fuel) pos count acc h k s =
    let b : LenBatch = len_batch payload 16 pos in
    let i : IsBatch payload 16 pos b = len_batch-IsBatch payload bytes 16 pos in
    let all : List ℕ = lens_of (sliced payload pos) in
    let later : List ℕ = lens_of (sliced payload b.p) in
    let acc' : ℕ = fold_batch acc b.lens in
    let fold : acc' ≡ fold_each acc b.lens = fold_batch-fold_each b.lens acc s i.words i.short in
    let room : acc' < 2 ^ 64 =
      subst (λ (z : ℕ). z < 2 ^ 64) (sym fold) (fold_each_bound acc b.lens s i.words) in
    let joined : tallied (count + length b.lens) acc' later ≡ tallied count acc all =
      (λ j. some (count + length b.lens + length later, fold_each (fold j) later))
      ∙ (λ j. some (sum_up j, sym (fold_each-append acc b.lens later) j))
      ∙ ap (tallied count acc) i.same in
    let P : Option (ℕ × ℕ) → Type 0 = λ o. o ≡ tallied count acc all in
    if-cases P (ltb (length payload) (pos + 2))
      (λ a.
        sym (nothing_left count acc all (ap lens_of (sliced_end payload pos (ground (arith, a))))))
      (λ a.
        if-cases P b.truncated
          (λ t.
            sym (nothing_left (count + length b.lens) acc' later (ap lens_of (i.over t))) ∙ joined)
          (λ t.
            ingest_batches-tallied payload bytes fuel b.p (count + length b.lens) acc' (i.within h)
              (omega (arith, len_batch-moves payload 15 pos a t, k)) room
            ∙ joined))
  where
    sum_up :
        count
          + length (len_batch payload 16 pos).lens
          + length (lens_of (sliced payload (len_batch payload 16 pos).p))
        ≡ count
          + length (
              (len_batch payload 16 pos).lens
              ++ lens_of (sliced payload (len_batch payload 16 pos).p))
    sum_up = omega (
      arith,
      length-append (len_batch payload 16 pos).lens
          (lens_of (sliced payload (len_batch payload 16 pos).p)),
    )

-- `spec_slice_ingest` returns: the number of the stream's blocks, up to the first that is cut off, and
-- the fold of their lengths into the sink, one after the other, by a rotation of seven places and an
-- exclusive or. The stream is of bytes and the sink a 64-bit word.
pub spec_slice_ingest-fold_each :
    (payload : Bytes) (sink : ℕ)
    → IsBytes payload
    → sink < 2 ^ 64
    → let ls : List ℕ = lens_of (sliced payload 0) in
      spec_slice_ingest payload sink ≡ some (length ls, fold_each sink ls)
unfolding spec_slice_ingest
spec_slice_ingest-fold_each payload sink bytes s =
    let ls : List ℕ = lens_of (sliced payload 0) in
    let none_before : tallied 0 sink ls ≡ some (length ls, fold_each sink ls) =
      ap (λ (n : ℕ). some (n, fold_each sink ls)) (omega arith) in
    if-cases (λ (o : Option (ℕ × ℕ)). o ≡ some (length ls, fold_each sink ls))
      (ltb (length payload) 2)
      (λ a.
        sym (nothing_left 0 sink ls (ap lens_of (sliced_end payload 0 (ground (arith, a)))))
        ∙ none_before)
      (λ a.
        ingest_batches-tallied payload bytes (suc (length payload)) 0 0 sink (omega arith)
          (omega arith) s
        ∙ none_before)
