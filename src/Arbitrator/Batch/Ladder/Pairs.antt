-- ===== src/Arbitrator/Batch/Ladder/Pairs.antt =====
-- crates/nf-arbitrator/src/lib.rs: pairs of a frame and its duplicate, applied one frame after the
-- other and as a group.
use hft_proj.Arbitrator.Steady.{
  SpanEmit, ScanEnv, tally_dups, apply_steady, Tally, tally_arrivals, Scan, tally_emitted,
  skip_steady, progress, emit_entry,
}
use hft_proj.Arbitrator.Sequencer.Indexed.{memo_is}
use hft_proj.Arbitrator.Types.{◌>>=◌, done, Log}
use hft_proj.Protocol.Packet.{FrameEntry}
use hft_proj.Prelude.{
  append_assoc, sym, append-nil, ap, ◌∙◌, ◌++◌, map, arith, inr, inl, ◌==◌, ◌-◌, ◌+◌, Bool-cases,
  suc, ◌≤◌, ◌%◌, add64, List, ◌≡◌, [], ◌∷◌, true, ℕ,
}
use hft_proj.Arbitrator.Batch.Contract.{IsIndexed}
use hft_proj.Arbitrator.Batch.Ladder.{emit_evens, sum64, bytes_of, count_of, group_tally, evens}

-- A frame that is next and its pure duplicate, both of the live session.
pub record IsPair (env : ScanEnv) (f0 f1 w : ℕ) (a b : FrameEntry) : Type 0 where
  pub indexed_a : IsIndexed a
  pub indexed_b : IsIndexed b
  pub first_a : a.first_seq ≡ w
  pub first_b : b.first_seq ≡ w
  pub shorter : count_of b ≤ count_of a
  pub lo_a : a.sess_lo ≡ env.sess_lo
  pub hi_a : a.sess_hi ≡ env.sess_hi
  pub lo_b : b.sess_lo ≡ env.sess_lo
  pub hi_b : b.sess_hi ≡ env.sess_hi
  pub memo_a : memo_is a.memo (count_of a) ≡ true
  pub feed_a : a.feed % 2 ≡ f0 % 2
  pub feed_b : b.feed % 2 ≡ f1 % 2

-- Pairs that follow one another from `w` on.
abbrev pub Pairs : ScanEnv → (f0 f1 w : ℕ) → List FrameEntry → Type 0
Pairs env f0 f1 w [] = Unit
Pairs env f0 f1 w (a ∷ []) = ⊥
Pairs env f0 f1 w (a ∷ b ∷ es) = IsPair env f0 f1 w a b × Pairs env f0 f1 (add64 w (count_of a)) es

module _ {E : Type 0} (emit : SpanEmit E) (env : ScanEnv) where
  -- What the scalar ladder does to pairs.
  unfoldable pub pair_steps : List FrameEntry → Scan E → Log (Scan E)
  unfolding apply_steady
  pair_steps [] x = done x
  pair_steps (a ∷ []) x = done x
  pair_steps (a ∷ b ∷ es) x =
      apply_steady emit env (count_of a) (a.first_seq + (count_of a - 1)) a x
      >>= (λ x1. pair_steps es (skip_steady (count_of b) b (progress x1)))

-- A group's counters take its pairs one by one.
pair_tally : FrameEntry → FrameEntry → Tally → Tally
pair_tally a b t = tally_dups b.feed 1 (count_of b) (
    tally_arrivals b.feed 1 (bytes_of b)
      (tally_emitted (count_of a) (tally_arrivals a.feed 1 (bytes_of a) t)))

group_tally-pair :
    (k f0 f1 : ℕ) (a b : FrameEntry) (es : List FrameEntry) (t : Tally)
    → a.feed % 2 ≡ f0 % 2
    → b.feed % 2 ≡ f1 % 2
    → group_tally k f0 f1 es (pair_tally a b t) ≡ group_tally (suc k) f0 f1 (a ∷ b ∷ es) t
unfolding group_tally pair_tally tally_dups tally_arrivals
group_tally-pair k f0 f1 a b es t h0 h1 =
    rw (h0, h1)
      (elim (Bool-cases (f0 % 2 == 0)) [
        | inl e0 ↦ elim (Bool-cases (f1 % 2 == 0)) [
          | inl e1 ↦ simp (e0, e1) (ground arith)
          | inr e1 ↦ simp (e0, e1) (ground arith)
        ]
        | inr e0 ↦ elim (Bool-cases (f1 % 2 == 0)) [
          | inl e1 ↦ simp (e0, e1) (ground arith)
          | inr e1 ↦ simp (e0, e1) (ground arith)
        ]
      ])

-- Half the length of a list of pairs.
abbrev pub half_of : List FrameEntry → ℕ
half_of [] = 0
half_of (a ∷ []) = 0
half_of (a ∷ b ∷ es) = suc (half_of es)

module _ {E : Type 0} (emit : SpanEmit E) (env : ScanEnv) where
  -- A group's result, its feeds given.
  abbrev pub group_result : (k f0 f1 : ℕ) → List FrameEntry → Scan E → Log (Scan E)
  group_result k f0 f1 g x =
      let (em', calls) = emit_evens emit env (evens g) x.em in
      (
        record x {
          w = add64 x.w (sum64 (map count_of (evens g)));
          tally = group_tally k f0 f1 g x.tally;
          em = em';
        },
        calls ++ [],
      )

  group_tally-one :
      (f0 f1 : ℕ) (a b : FrameEntry) (t : Tally)
      → a.feed % 2 ≡ f0 % 2
      → b.feed % 2 ≡ f1 % 2
      → pair_tally a b t ≡ group_tally 1 f0 f1 (a ∷ b ∷ []) t
  unfolding group_tally pair_tally tally_dups tally_arrivals
  group_tally-one f0 f1 a b t h0 h1 =
      rw (h0, h1)
        (elim (Bool-cases (f0 % 2 == 0)) [
          | inl e0 ↦ elim (Bool-cases (f1 % 2 == 0)) [
            | inl e1 ↦ simp (e0, e1) (ground arith)
            | inr e1 ↦ simp (e0, e1) (ground arith)
          ]
          | inr e0 ↦ elim (Bool-cases (f1 % 2 == 0)) [
            | inl e1 ↦ simp (e0, e1) (ground arith)
            | inr e1 ↦ simp (e0, e1) (ground arith)
          ]
        ])

  -- The scan after a pair.
  abbrev paired : FrameEntry → FrameEntry → E → (w : ℕ) → Scan E → Scan E
  paired a b em' w x = record x {
    w = w;
    tally = pair_tally a b x.tally;
    em = em';
    progressed = true;
  }

  pub pair_watermark :
      (f0 f1 : ℕ) (a b : FrameEntry) (w : ℕ)
      → IsPair env f0 f1 w a b
      → add64 (a.first_seq + (count_of a - 1)) 1 ≡ add64 w (count_of a)
  pair_watermark f0 f1 a b w p = omega (arith, p.first_a, p.indexed_a.nonempty)

  -- Pairs one frame after the other, or as a group.
  pub pair_steps-eq-group :
      (f0 f1 : ℕ) (a b : FrameEntry) (es : List FrameEntry) (x : Scan E)
      → Pairs env f0 f1 x.w (a ∷ b ∷ es)
      → pair_steps emit env (a ∷ b ∷ es) x
        ≡ group_result (suc (half_of es)) f0 f1 (a ∷ b ∷ es) (progress x)
  unfolding pair_steps emit_evens apply_steady pair_tally
  pair_steps-eq-group f0 f1 a b [] x p =
      let (em', calls) = emit_entry emit env a.first_seq (count_of a) a x.em in
      let pw : add64 (a.first_seq + (count_of a - 1)) 1 ≡ add64 x.w (add64 (count_of a) 0) =
        pair_watermark f0 f1 a b x.w p.0 ∙ omega arith in
      let pt = group_tally-one f0 f1 a b x.tally p.0.feed_a p.0.feed_b in
      λ i. (record (progress x) { w = pw i; tally = pt i; em = em' }, (calls ++ []) ++ [])
  pair_steps-eq-group f0 f1 a b (c ∷ []) x p = absurd p.1
  pair_steps-eq-group f0 f1 a b (c ∷ d ∷ es) x p =
      let (em', calls) = emit_entry emit env a.first_seq (count_of a) a x.em in
      let g : List FrameEntry = c ∷ d ∷ es in
      let x' : Scan E = paired a b em' (add64 x.w (count_of a)) x in
      let ih = pair_steps-eq-group f0 f1 c d es x' p.1 in
      let (em2, later) = emit_evens emit env (evens g) em' in
      let sum : ℕ = sum64 (map count_of (evens g)) in
      let pw : add64 (add64 x.w (count_of a)) sum ≡ add64 x.w (add64 (count_of a) sum) =
        omega arith in
      let pt = group_tally-pair (suc (half_of es)) f0 f1 a b g x.tally p.0.feed_a p.0.feed_b in
      let pc : (calls ++ []) ++ (later ++ []) ≡ (calls ++ later) ++ [] =
        ap (λ t. t ++ (later ++ [])) (append-nil calls) ∙ sym (append_assoc calls later []) in
      ap
        (λ (w : ℕ).
          let r = pair_steps emit env g (paired a b em' w x) in (r.0, (calls ++ []) ++ r.1))
        (pair_watermark f0 f1 a b x.w p.0)
      ∙ ap (λ (r : Log (Scan E)). (r.0, (calls ++ []) ++ r.1)) ih
      ∙ (λ i. (record (progress x) { w = pw i; tally = pt i; em = em2 }, pc i))
