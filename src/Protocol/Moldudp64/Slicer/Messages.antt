-- ===== src/Protocol/Moldudp64/Slicer/Messages.antt =====
-- crates/nf-protocol/src/moldudp64.rs: what a loop over the speculative slicer's iterator yields.
use hft_proj.Protocol.Moldudp64.Slicer.Walks.{sliced_end, sliced}
use hft_proj.Protocol.Moldudp64.Slicer.Items.{slice_window-IsSlice, IsSlice, Builds}
use hft_proj.Protocol.Moldudp64.Slicer.{
  onto, slice_window, after_refill, yield_to, SpecSliceIter, refill_window, spec_next,
  collect_slices, refill_loop, SpecMsg, SpecTableBuilder, spec_slices,
}
use hft_proj.Prelude.{
  subst, ◌∙◌, ◌⊎◌, sym, leb, ◌||◌, if-cases, ap, ◌==◌, ◌++◌, Bool, ◌<◌, length, Option, inl, inr,
  ◌≤◌, ◌≡◌, ℕ, zero, suc, refl, true, false, some, List, [], ◌∷◌, Bytes, arith,
}

module _ (vec : Option SpecTableBuilder) (builds : Builds vec) where
  -- What the loop yields from an iterator with these fields on.
  abbrev Yields : (fuel : ℕ) (buf : Bytes) (pos : ℕ) (batch : List SpecMsg) (done : Bool) → Type 0
  Yields fuel buf pos batch done =
      (done ≡ true → length buf ≤ pos)
      → length (batch ++ sliced buf pos) < fuel
      → collect_slices vec fuel (record { buf = buf; pos = pos; batch = batch; done = done })
        ≡ some (batch ++ sliced buf pos)

  after_window :
      (fuel : ℕ) (buf : Bytes) (pos : ℕ) (batch : List SpecMsg) (done : Bool) (xs : List SpecMsg)
      → ((ms : List SpecMsg) → Yields fuel buf pos ms done)
      → done ≡ false
      → 0 < length batch
      → batch ++ sliced buf pos ≡ xs
      → length xs < suc fuel
      → yield_to vec
          (after_refill vec
            (refill_loop vec 1 (record { buf = buf; pos = pos; batch = batch; done = done })))
          (collect_slices vec fuel)
        ≡ some xs
  unfolding refill_loop
  after_window fuel buf pos [] done xs ih f h e l = absurd (omega arith)
  after_window fuel buf pos (m ∷ ms) done xs ih f h e l =
      ap (onto vec m) (ih ms (λ d. cc) (omega (arith, ap length e, l))) ∙ ap some e

  collect_from :
      (buf : Bytes)
      → length buf < 4294967296
      → (fuel pos : ℕ) (batch : List SpecMsg) (done : Bool) → Yields fuel buf pos batch done
  unfolding collect_slices spec_next refill_loop refill_window
  collect_from buf small zero pos batch done d l = absurd (omega arith)
  collect_from buf small (suc fuel) pos (m ∷ ms) done d l =
      ap (onto vec m) (collect_from buf small fuel pos ms done d (omega arith))
  collect_from buf small (suc fuel) pos [] done d l =
      let it : SpecSliceIter = record { buf = buf; pos = pos; batch = []; done = done } in
      let P : Option (Bool × SpecSliceIter) → Type 0 =
        λ o. yield_to vec (after_refill vec o) (collect_slices vec fuel) ≡ some (sliced buf pos) in
      let w : SpecSliceIter × ℕ = slice_window vec it in
      if-cases P (done || leb (length buf) pos)
        (λ a. ap some (sym (sliced_end buf pos (omega (arith, at_end done a d)))))
        (λ a.
          let s : IsSlice buf pos done w =
            slice_window-IsSlice vec it builds (ground (arith, a)) small in
          let live : done ≡ false = ground (arith, a) in
          let again : (ms : List SpecMsg) → Yields fuel w.0.buf w.0.pos ms w.0.done = λ ms.
            subst (λ (b : Bytes). Yields fuel b w.0.pos ms w.0.done) (sym s.stream)
              (collect_from buf small fuel w.0.pos ms w.0.done) in
          if-cases P (w.1 == 0) (λ z. ap some (sym (stopped s.moves (ground (arith, z)))))
            (λ z.
              after_window fuel w.0.buf w.0.pos w.0.batch w.0.done (sliced buf pos) again
                (s.still ∙ live) (going s.moves (ground (arith, z)))
                (ap (λ (b : Bytes). w.0.batch ++ sliced b w.0.pos) s.stream ∙ s.same) l))
    where
      at_end :
          (done : Bool)
          → (done || leb (length buf) pos) ≡ true
          → (done ≡ true → length buf ≤ pos)
          → length buf ≤ pos
      at_end true a d = d refl
      at_end false a d = ground (arith, a)

      stopped : {X Y : Type 0} {k : ℕ} → (X × (0 < k)) ⊎ ((k ≡ 0) × Y) → k ≡ 0 → Y
      stopped (inl (x, h)) z = absurd (omega (arith, h, z))
      stopped (inr (e, y)) z = y

      going : {X Y : Type 0} {k : ℕ} → (X × (0 < k)) ⊎ ((k ≡ 0) × Y) → (k == 0) ≡ false → X
      going (inl (x, h)) z = x
      going (inr (e, y)) z = absurd (ground (arith, e, z))

-- A loop over the iterator ends, within one round more than there are blocks, and yields the blocks of
-- the stream in order, up to its end or to the first that is cut off, whether the windows are read
-- directly or with a builder's tables that hold the words at the even and the odd offsets. The stream is
-- shorter than 2 ^ 32.
pub collect_slices-sliced :
    (vec : Option SpecTableBuilder) (payload : Bytes)
    → Builds vec
    → length payload < 4294967296
    → collect_slices vec (suc (length (sliced payload 0))) (spec_slices payload)
      ≡ some (sliced payload 0)
unfolding spec_slices
collect_slices-sliced vec payload builds small =
    collect_from vec builds payload small (suc (length (sliced payload 0))) 0 []
      (length payload == 0) (λ e. ground (arith, e)) (omega arith)
