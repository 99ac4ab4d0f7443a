-- ===== src/Arbitrator/Batch/Ladder/Kernel.antt =====
-- crates/nf-testkit/src/soa.rs and crates/nf-arbitrator/src/lib.rs: what a verified group is.
use hft_proj.Arbitrator.Steady.{ScanEnv}
use hft_proj.Arbitrator.Sequencer.Indexed.{memo_is}
use hft_proj.Arbitrator.Batch.Ladder.Pairs.{Pairs}
use hft_proj.Protocol.Packet.{elig_feed, FrameEntry}
use hft_proj.Prelude.{
  length, ◌∙◌, sym, subst, ◌++◌, arith, ◌<◌, ◌≤◌, inr, add64, inl, ◌⊎◌, map, All, ◌%◌, ◌≡◌, List,
  [], ◌∷◌, true, false, ℕ,
}
use hft_proj.Arbitrator.Batch.Contract.{IsIndexed, IsEntry}
use hft_proj.Arbitrator.Batch.Ladder.{
  even_sum, feeds_of, sum64, group_elig, ladder_pair, count_of, ladder_pairs, elig_ok, all_elig,
  ladder8_scalar, evens,
}

-- The steady bit of an entry as its publisher sets it: the baked session, a memo for all blocks, and
-- at least one block.
pub record IsMarked (lo hi : ℕ) (e : FrameEntry) : Type 0 where
  pub sess_lo : e.sess_lo ≡ lo
  pub sess_hi : e.sess_hi ≡ hi
  pub memo : memo_is e.memo (count_of e) ≡ true
  pub nonempty : 0 < count_of e

pub record IsPublished (lo hi : ℕ) (e : FrameEntry) : Type 0 where
  pub entry : IsEntry e
  pub mark : (elig_ok e ≡ false) ⊎ IsMarked lo hi e
  pub feed : elig_feed e.elig ≡ e.feed % 4

-- The sequence numbers of a group are those of pairs.
abbrev Chain : ℕ → List FrameEntry → Type 0
Chain w [] = Unit
Chain w (a ∷ []) = ⊥
Chain w (a ∷ b ∷ es) =
    (a.first_seq ≡ w)
    × (b.first_seq ≡ w)
    × (count_of b ≤ count_of a)
    × Chain (add64 w (count_of a)) es

abbrev Elig : (lo hi f0 f1 : ℕ) → List FrameEntry → Type 0
Elig lo hi f0 f1 [] = Unit
Elig lo hi f0 f1 (e ∷ es) =
    IsIndexed e × IsMarked lo hi e × (e.feed % 2 ≡ f0 % 2) × Elig lo hi f1 f0 es

all_elig-Elig :
    (lo hi f0 f1 : ℕ) (es : List FrameEntry)
    → All (IsPublished lo hi) es
    → all_elig f0 f1 es ≡ true
    → Elig lo hi f0 f1 es
unfolding all_elig
all_elig-Elig lo hi f0 f1 [] p h = tt
all_elig-Elig lo hi f0 f1 (e ∷ es) p h =
    let ok : elig_ok e ≡ true = ground (arith, h) in
    let fd : elig_feed e.elig ≡ f0 = ground (arith, h) in
    let rest : all_elig f1 f0 es ≡ true = ground (arith, h) in
    let m : IsMarked lo hi e = marked e p.0 ok in
    (indexed e p.0 m, m, omega (arith, p.0.feed, fd), all_elig-Elig lo hi f1 f0 es p.1 rest)
  where
    marked : (e : FrameEntry) → IsPublished lo hi e → elig_ok e ≡ true → IsMarked lo hi e
    marked e p ok = elim p.mark [ inl no_ ↦ cc (no_, ok) | inr m ↦ m ]

    indexed : (e : FrameEntry) → IsPublished lo hi e → IsMarked lo hi e → IsIndexed e
    indexed e p m = elim p.entry.1 [ inl z ↦ absurd (omega (arith, z, m.nonempty)) | inr i ↦ i ]

Chain-Pairs :
    (env : ScanEnv) (f0 f1 w : ℕ) (g : List FrameEntry)
    → Chain w g
    → Elig env.sess_lo env.sess_hi f0 f1 g
    → Pairs env f0 f1 w g
Chain-Pairs env f0 f1 w [] c m = tt
Chain-Pairs env f0 f1 w (a ∷ []) c m = c
Chain-Pairs env f0 f1 w (a ∷ b ∷ es) c m = (
  record {
    indexed_a = m.0;
    indexed_b = m.3.0;
    first_a = c.0;
    first_b = c.1;
    shorter = c.2;
    lo_a = m.1.sess_lo;
    hi_a = m.1.sess_hi;
    lo_b = m.3.1.sess_lo;
    hi_b = m.3.1.sess_hi;
    memo_a = m.1.memo;
    feed_a = m.2;
    feed_b = m.3.2;
  },
  Chain-Pairs env f0 f1 (add64 w (count_of a)) es c.3 m.3.3,
)

abbrev pub firsts_of : List FrameEntry → List ℕ
firsts_of = map (λ e. e.first_seq)

abbrev pub counts_of : List FrameEntry → List ℕ
counts_of = map count_of

-- The kernel's relations on eight entries, of which more may follow.
ladder8-Chain :
    (e0 e1 e2 e3 e4 e5 e6 e7 : FrameEntry) (es : List FrameEntry) (w : ℕ)
    → let g : List FrameEntry = e0 ∷ e1 ∷ e2 ∷ e3 ∷ e4 ∷ e5 ∷ e6 ∷ e7 ∷ es in
      ladder8_scalar (firsts_of g) (counts_of g) w ≡ true
      → Chain w (e0 ∷ e1 ∷ e2 ∷ e3 ∷ e4 ∷ e5 ∷ e6 ∷ e7 ∷ [])
unfolding ladder8_scalar ladder_pairs ladder_pair
ladder8-Chain e0 e1 e2 e3 e4 e5 e6 e7 es w h = ground arith

Elig-head :
    (lo hi f0 f1 : ℕ) (e : FrameEntry) (es : List FrameEntry)
    → Elig lo hi f0 f1 (e ∷ es)
    → (e.sess_lo ≡ lo) × (e.sess_hi ≡ hi)
Elig-head lo hi f0 f1 e es m = (m.1.sess_lo, m.1.sess_hi)

-- Where the first entry has the live session, and all have the publisher's, all have the live one.
group_elig-Elig :
    (env : ScanEnv) (lo hi : ℕ) (a b : FrameEntry) (es : List FrameEntry)
    → All (IsPublished lo hi) (a ∷ b ∷ es)
    → group_elig env (a ∷ b ∷ es) ≡ true
    → Elig env.sess_lo env.sess_hi (elig_feed a.elig) (elig_feed b.elig) (a ∷ b ∷ es)
unfolding group_elig
group_elig-Elig env lo hi a b es p h =
    let f0 = elig_feed a.elig in
    let f1 = elig_feed b.elig in
    let live_lo : a.sess_lo ≡ env.sess_lo = ground (arith, h) in
    let live_hi : a.sess_hi ≡ env.sess_hi = ground (arith, h) in
    let marks : all_elig f0 f1 (a ∷ b ∷ es) ≡ true = ground (arith, h) in
    let m : Elig lo hi f0 f1 (a ∷ b ∷ es) = all_elig-Elig lo hi f0 f1 (a ∷ b ∷ es) p marks in
    subst (λ (x : ℕ). Elig x env.sess_hi f0 f1 (a ∷ b ∷ es)) (sym m.1.sess_lo ∙ live_lo)
      (subst (λ (x : ℕ). Elig lo x f0 f1 (a ∷ b ∷ es)) (sym m.1.sess_hi ∙ live_hi) m)

-- Eight entries that the kernel and the steady bits let through are pairs.
pub group8-Pairs :
    (env : ScanEnv) (lo hi w : ℕ) (e0 e1 e2 e3 e4 e5 e6 e7 : FrameEntry)
    → let g : List FrameEntry = e0 ∷ e1 ∷ e2 ∷ e3 ∷ e4 ∷ e5 ∷ e6 ∷ e7 ∷ [] in
      All (IsPublished lo hi) g
      → ladder8_scalar (firsts_of g) (counts_of g) w ≡ true
      → group_elig env g ≡ true
      → Pairs env (feeds_of g).0 (feeds_of g).1 w g
group8-Pairs env lo hi w e0 e1 e2 e3 e4 e5 e6 e7 p k h =
    Chain-Pairs env (elig_feed e0.elig) (elig_feed e1.elig) w
      (e0 ∷ e1 ∷ e2 ∷ e3 ∷ e4 ∷ e5 ∷ e6 ∷ e7 ∷ []) (ladder8-Chain e0 e1 e2 e3 e4 e5 e6 e7 [] w k)
      (group_elig-Elig env lo hi e0 e1 (e2 ∷ e3 ∷ e4 ∷ e5 ∷ e6 ∷ e7 ∷ []) p h)

-- A chain behind a chain.
Chain-append :
    (w : ℕ) (xs ys : List FrameEntry)
    → 0 < length xs
    → Chain w xs
    → Chain (add64 w (sum64 (map count_of (evens xs)))) ys
    → Chain w (xs ++ ys)
Chain-append w [] ys h c d = absurd (omega arith)
Chain-append w (a ∷ []) ys h c d = absurd c
Chain-append w (a ∷ b ∷ []) ys h c d =
    let e : add64 w (add64 (count_of a) 0) ≡ add64 w (count_of a) = omega arith in
    (c.0, c.1, c.2, subst (λ (v : ℕ). Chain v ys) e d)
Chain-append w (a ∷ b ∷ x ∷ es) ys h c d =
    let s : ℕ = sum64 (map count_of (evens (x ∷ es))) in
    let e : add64 w (add64 (count_of a) s) ≡ add64 (add64 w (count_of a)) s = omega arith in
    (
      c.0,
      c.1,
      c.2,
      Chain-append (add64 w (count_of a)) (x ∷ es) ys (omega arith) c.3
          (subst (λ (v : ℕ). Chain v ys) e d),
    )

-- So are sixteen, the second eight anchored behind the first.
pub group16-Pairs :
    (env : ScanEnv) (lo hi w : ℕ) (e0 e1 e2 e3 e4 e5 e6 e7 d0 d1 d2 d3 d4 d5 d6 d7 : FrameEntry)
    → let a : List FrameEntry = e0 ∷ e1 ∷ e2 ∷ e3 ∷ e4 ∷ e5 ∷ e6 ∷ e7 ∷ [] in
      let b : List FrameEntry = d0 ∷ d1 ∷ d2 ∷ d3 ∷ d4 ∷ d5 ∷ d6 ∷ d7 ∷ [] in
      All (IsPublished lo hi) (a ++ b)
      → ladder8_scalar (firsts_of (a ++ b)) (counts_of (a ++ b)) w ≡ true
      → ladder8_scalar (firsts_of b) (counts_of b) (add64 w (even_sum (counts_of (a ++ b)))) ≡ true
      → group_elig env (a ++ b) ≡ true
      → Pairs env (feeds_of (a ++ b)).0 (feeds_of (a ++ b)).1 w (a ++ b)
group16-Pairs env lo hi w e0 e1 e2 e3 e4 e5 e6 e7 d0 d1 d2 d3 d4 d5 d6 d7 p k l h =
    let a : List FrameEntry = e0 ∷ e1 ∷ e2 ∷ e3 ∷ e4 ∷ e5 ∷ e6 ∷ e7 ∷ [] in
    let b : List FrameEntry = d0 ∷ d1 ∷ d2 ∷ d3 ∷ d4 ∷ d5 ∷ d6 ∷ d7 ∷ [] in
    let s : add64 w (even_sum (counts_of (a ++ b))) ≡ add64 w (sum64 (map count_of (evens a))) =
      omega arith in
    let second : Chain (add64 w (even_sum (counts_of (a ++ b)))) b =
      ladder8-Chain d0 d1 d2 d3 d4 d5 d6 d7 [] _ l in
    Chain-Pairs env (elig_feed e0.elig) (elig_feed e1.elig) w (a ++ b)
      (Chain-append w a b (omega arith) (ladder8-Chain e0 e1 e2 e3 e4 e5 e6 e7 b w k)
        (subst (λ (v : ℕ). Chain v b) s second))
      (group_elig-Elig env lo hi e0 e1 (e2 ∷ e3 ∷ e4 ∷ e5 ∷ e6 ∷ e7 ∷ b) p h)
