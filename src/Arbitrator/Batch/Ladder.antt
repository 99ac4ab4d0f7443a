-- ===== src/Arbitrator/Batch/Ladder.antt =====
-- crates/nf-arbitrator/src/lib.rs: the slice scan with the 8-entry and 16-entry group fast paths, and
-- crates/nf-testkit/src/soa.rs: the scalar reference of the kernel that decides a group.
use hft_proj.Arbitrator.Steady.{
  SpanEmit, ScanEnv, Scan, Tally, tally_emitted, Stop, after_step, emit_entry, steady_step,
  progress, tally_dups, tally_arrivals,
}
use hft_proj.Arbitrator.State.{Sequencer}
use hft_proj.Arbitrator.Types.{◌>>=◌, done, Log}
use hft_proj.Protocol.Packet.{SoaLadder8, FrameEntry, elig_feed}
pub mod Pairs
pub mod Kernel
pub mod Groups
pub mod Equivalence
use hft_proj.Prelude.{
  u64, drop, if◌then◌else◌, ◌||◌, ltb, leb, ◌%◌, map, ◌-◌, ◌*◌, ◌+◌, ◌/◌, ◌&&◌, take, not, ◌==◌,
  get_or, Bool, add64, length, Option, List, none, some, [], ◌∷◌, true, false, ℕ, zero, suc,
}
use hft_proj.Arbitrator.Batch.{start_scan, end_scan, drive, env_of}

-- One pair of the ladder: the duplicate is the same packet and no longer, and the next pair goes on
-- where this one ends.
unfoldable pub ladder_pair : (firsts ns : List ℕ) (i : ℕ) → Bool
ladder_pair firsts ns i =
    let f = λ (k : ℕ). get_or firsts k 0 in
    let n = λ (k : ℕ). get_or ns k 0 in
    f (2 * i + 1) == f (2 * i)
    && (leb (n (2 * i + 1)) (n (2 * i))
        && (not (ltb i 3) || f (2 * i + 2) == add64 (f (2 * i)) (n (2 * i))))

-- The loop from pair `i` on, with `rounds` pairs left.
unfoldable pub ladder_pairs : (rounds i : ℕ) (firsts ns : List ℕ) → Bool
unfolding ladder_pair
ladder_pairs zero i firsts ns = true
ladder_pairs (suc rounds) i firsts ns =
    ladder_pair firsts ns i && ladder_pairs rounds (i + 1) firsts ns

-- The sum of the four even counts, wrapping.
abbrev pub even_sum : List ℕ → ℕ
even_sum ns = add64 (add64 (add64 (get_or ns 0 0) (get_or ns 2 0)) (get_or ns 4 0)) (get_or ns 6 0)

unfoldable pub ladder8_scalar : SoaLadder8
unfolding ladder_pairs
ladder8_scalar firsts ns w =
    if not (get_or firsts 0 0 == w)
    then false
    else if ltb (u64 - 1 - even_sum ns) (get_or firsts 0 0)
    then false
    else ladder_pairs 4 0 firsts ns

abbrev pub evens : List FrameEntry → List FrameEntry
evens [] = []
evens (a ∷ []) = a ∷ []
evens (a ∷ b ∷ es) = a ∷ evens es

abbrev pub odds : List FrameEntry → List FrameEntry
odds [] = []
odds (a ∷ []) = []
odds (a ∷ b ∷ es) = b ∷ odds es

-- `a + b + …` on 64-bit words
abbrev pub sum64 : List ℕ → ℕ
sum64 [] = 0
sum64 (n ∷ ns) = add64 n (sum64 ns)

abbrev pub count_of : FrameEntry → ℕ
count_of e = length e.blocks

abbrev pub bytes_of : FrameEntry → ℕ
bytes_of e = length e.bytes

-- `elig & FRAME_ELIG_OK != 0`
unfoldable pub elig_ok : FrameEntry → Bool
elig_ok e = not (e.elig / 128 % 2 == 0)

-- The steady bits, and the feeds in turn.
unfoldable pub all_elig : (feed other : ℕ) → List FrameEntry → Bool
unfolding elig_ok elig_feed
all_elig feed other [] = true
all_elig feed other (e ∷ es) = elig_ok e && (elig_feed e.elig == feed && all_elig other feed es)

-- The session and the steady bits of a group.
unfoldable pub group_elig : ScanEnv → List FrameEntry → Bool
unfolding all_elig elig_ok elig_feed
group_elig env [] = false
group_elig env (e0 ∷ []) = false
group_elig env (e0 ∷ e1 ∷ es) =
    (e0.sess_lo == env.sess_lo && (e0.sess_hi == env.sess_hi && elig_ok e0))
    && all_elig (elig_feed e0.elig) (elig_feed e1.elig) (e0 ∷ e1 ∷ es)

-- The feed of the first and of the second entry.
abbrev pub feeds_of : List FrameEntry → ℕ × ℕ
feeds_of (e0 ∷ e1 ∷ es) = (elig_feed e0.elig, elig_feed e1.elig)
feeds_of _ = (0, 0)

-- The counters of a verified group of `2 * half` entries.
unfoldable pub group_tally : (half f0 f1 : ℕ) → List FrameEntry → Tally → Tally
group_tally half f0 f1 g t = tally_emitted (sum64 (map count_of (evens g))) (
    tally_dups f1 half (sum64 (map count_of (odds g))) (
      tally_arrivals f1 half (sum64 (map bytes_of (odds g)))
        (tally_arrivals f0 half (sum64 (map bytes_of (evens g))) t)))

-- The first of two attempts that succeeds.
abbrev pub or_else : {A : Type 0} → Option A → Option A → Option A
or_else none o = o
or_else (some a) o = some a

abbrev pub taking : {A : Type 0} → (n : ℕ) → Option A → Option (ℕ × A)
taking n none = none
taking n (some a) = some (n, a)

-- A group moves the position past its entries; else one entry is stepped.
abbrev pub after_groups :
    {E : Type 0}
    → Option (ℕ × Log (Scan E))
    → ((skip : ℕ) → Scan E → Log (Scan E × Stop))
    → Log (Scan E × Stop)
    → Log (Scan E × Stop)
after_groups none rest step = step
after_groups (some (n, m)) rest step = m >>= (λ x'. rest (n - 1) (progress x'))

module _ {E : Type 0} (emit : SpanEmit E) (env : ScanEnv) where
  -- The emissions of the even entries, in turn.
  unfoldable pub emit_evens : List FrameEntry → E → Log E
  emit_evens [] em = done em
  emit_evens (e ∷ es) em =
      emit_entry emit env e.first_seq (length e.blocks) e em >>= (λ em'. emit_evens es em')

  -- A verified group, applied.
  unfoldable pub apply_group : (half : ℕ) → List FrameEntry → Scan E → Log (Scan E)
  unfolding group_tally emit_evens
  apply_group half g x = emit_evens (evens g) x.em >>= (λ em'. done (record x {
    w = add64 x.w (sum64 (map count_of (evens g)));
    tally = group_tally half (feeds_of g).0 (feeds_of g).1 g x.tally;
    em = em';
  }))

  -- Eight entries at once, if the kernel and the steady bits allow it.
  unfoldable pub ladder_group_apply : SoaLadder8 → List FrameEntry → Scan E → Option (Log (Scan E))
  unfolding apply_group
  ladder_group_apply ladder8 es x =
      let g = take 8 es in
      if not (ladder8 (map (λ e. e.first_seq) g) (map count_of g) x.w)
      then none
      else if not (group_elig env g)
      then none
      else some (apply_group 4 g x)

  -- Sixteen, the second half anchored where the first one ends.
  unfoldable pub ladder_group16_apply :
      SoaLadder8 → List FrameEntry → Scan E → Option (Log (Scan E))
  unfolding apply_group
  ladder_group16_apply ladder8 es x =
      let g = take 16 es in
      let firsts = map (λ (e : FrameEntry). e.first_seq) g in
      let ns = map count_of g in
      if not (ladder8 firsts ns x.w)
      then none
      else if not (ladder8 (drop 8 firsts) (drop 8 ns) (add64 x.w (even_sum ns)))
      then none
      else if not (group_elig env g)
      then none
      else some (apply_group 8 g x)

  -- The vector fast paths at a position: how many entries were taken, and what was done.
  unfoldable pub try_groups :
      Option SoaLadder8 → List FrameEntry → Scan E → Option (ℕ × Log (Scan E))
  unfolding ladder_group_apply ladder_group16_apply
  try_groups none es x = none
  try_groups (some ladder8) es x =
      or_else (taking 16 (if leb 16 (length es) then ladder_group16_apply ladder8 es x else none))
        (taking 8 (if leb 8 (length es) then ladder_group_apply ladder8 es x else none))

  -- The loop of `steady_scan_ladder`: `skip` entries of the list are below the position.
  unfoldable pub ladder_loop :
      Option SoaLadder8 → List FrameEntry → (skip : ℕ) → Scan E → Log (Scan E × Stop)
  ladder_loop ladder [] skip x = done (x, none)
  ladder_loop ladder (e ∷ es) (suc skip) x = ladder_loop ladder es skip x
  ladder_loop ladder (e ∷ es) zero x =
      after_groups (try_groups ladder (e ∷ es) x) (ladder_loop ladder es)
        (after_step e es (ladder_loop ladder es 0) (steady_step emit env e x) x)

-- `steady_scan_ladder` with its caller's stores, for a fresh buffer of either kind.
unfoldable pub steady_scan_ladder :
    {E : Type 0}
    → SpanEmit E
    → E
    → Option SoaLadder8
    → (wants_spans : Bool) (now_ns : ℕ) → Sequencer
    → List FrameEntry
    → Log (Sequencer × Stop)
steady_scan_ladder emit new ladder wants_spans now_ns s es =
    let env = env_of wants_spans s in
    end_scan emit env.proof now_ns s (ladder_loop emit env ladder es 0 (start_scan new s.w))

unfoldable pub ingest_entries_ladder :
    {E : Type 0}
    → SpanEmit E
    → E
    → Option SoaLadder8
    → (wants_spans : Bool) → Sequencer
    → List FrameEntry
    → (now_ns : ℕ) → Option (Log Sequencer)
unfolding steady_scan_ladder
ingest_entries_ladder emit new ladder wants_spans s es now_ns =
    drive wants_spans now_ns (steady_scan_ladder emit new ladder wants_spans now_ns)
      (suc (length es)) s es
