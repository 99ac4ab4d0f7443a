-- ===== src/Transport/Publish/Patches.antt =====
-- crates/nf-transport/src/render.rs and pipeline.rs: what the patches at a session boundary make of
-- published entries.
use hft_proj.Transport.Publish.{
  SchedKind, master_entry, build_frame_master, FrameMeta, warm_rewrite_session, steady_mark,
  memo_full, patched_first, master_patch_range, patch_one, publish_entry, Patched, pack_elig,
  rewrite_entry, Template, patch_range, MasterEntry,
}
use hft_proj.Protocol.Packet.{FrameMemo, Triple, FrameEntry}
use hft_proj.Prelude.{
  ◌≢◌, Bool-cases, ◌%◌, ◌↔◌, Option, slice, not, ◌∙◌, subst, sym, ◌&&◌, ◌==◌, ap, ◌+◌,
  if◌then◌else◌, drop, ◌++◌, inr, leb, le64_at, take, length, if-cases, inl, ◌≤◌, map, ◌<◌, ◌⊎◌,
  Bool, All, arith, ◌≡◌, Bytes, List, ℕ, none, some, [], ◌∷◌, refl, zero, suc, true, false, inl,
  inr,
}

-- The blob's bytes of an entry, as a later pass has baked them.
abbrev pub rebaked : Bytes → FrameEntry → FrameEntry
rebaked bytes e = record e { bytes = bytes }

pack_elig-pack_elig : (feed : ℕ) (a b : Bool) → pack_elig (pack_elig feed a) b ≡ pack_elig feed b
unfolding pack_elig
pack_elig-pack_elig feed true b = ground arith
pack_elig-pack_elig feed false b = ground arith

-- The steady bit of the rewrite is that of the publication.
rewritten_mark :
    (new : Template) (e : FrameEntry) (valid sess_lo sess_hi : ℕ)
    → length e.blocks < 65536
    → e.memo ≡ (if length e.blocks == 0 then none else some (record { valid_count = valid }))
    → sess_lo ≡ new.lo
    → sess_hi ≡ new.hi
    → (new.compute_elig && (not (length e.blocks == 0) && memo_full e))
      ≡ steady_mark new sess_lo sess_hi valid (length e.blocks)
rewritten_mark new e valid sess_lo sess_hi few memo lo hi = rw (memo, lo, hi) (ground arith)

-- The rewrite at a boundary is the publication of the frame under the new template, if the blob
-- carries the new session by then. The block count is of 16 bits.
pub rewrite_entry-eq-publish_entry :
    (old new : Template) (bytes bytes' : Bytes) (feed seq valid : ℕ) (blocks : List Triple)
    → length blocks < 65536
    → le64_at bytes' 0 ≡ new.lo
    → le64_at bytes' 2 ≡ new.hi
    → rewrite_entry new (rebaked bytes' (publish_entry old bytes feed seq valid blocks))
      ≡ publish_entry new bytes' feed seq valid blocks
unfolding rewrite_entry publish_entry
rewrite_entry-eq-publish_entry old new bytes bytes' feed seq valid blocks few lo hi =
    let e : FrameEntry = rebaked bytes' (publish_entry old bytes feed seq valid blocks) in
    let mark = rewritten_mark new e valid (le64_at bytes' 0) (le64_at bytes' 2) few refl lo hi in
    λ i. record {
      bytes = bytes';
      feed = feed;
      blocks = blocks;
      memo = if length blocks == 0 then none else some (record { valid_count = valid });
      first_seq = seq;
      sess_lo = sym lo i;
      sess_hi = sym hi i;
      elig =
          (pack_elig-pack_elig feed
                (steady_mark old (le64_at bytes 0) (le64_at bytes 2) valid (length blocks)) _
              ∙ ap (pack_elig feed) mark)
            i;
    }

-- A slot that a later pass baked: the blob has the new session at its frame.
pub record IsBaked (new : Template) (frames : Bytes) (triples : List Triple) (m : FrameMeta)
    : Type 0 where
  pub few : length (slice triples m.blk_base (m.blk_base + m.blk_count)) < 65536
  pub lo : le64_at (slice frames m.offset (m.offset + m.len)) 0 ≡ new.lo
  pub hi : le64_at (slice frames m.offset (m.offset + m.len)) 2 ≡ new.hi

abbrev pub entries_of : List MasterEntry → List FrameEntry
entries_of = map (λ m. m.entry)

-- The entries of the master after a later pass has baked the blob anew: they show the new bytes, with
-- the words of the old session.
abbrev pub stale_entries :
    Template
    → (frames frames' : Bytes) → List Triple
    → List (SchedKind × FrameMeta)
    → List FrameEntry
stale_entries old frames frames' triples [] = []
stale_entries old frames frames' triples ((kind, m) ∷ ms) =
    let rest = stale_entries old frames frames' triples ms in
    if m.len == 0
    then rest
    else rebaked (slice frames' m.offset (m.offset + m.len)) (master_entry old frames triples m)
      ∷ rest

-- The rewrite of the entries at a session boundary makes the entries that a build of the master under
-- the new template would make, if the blob carries the new session at each frame and block counts are
-- of 16 bits.
pub warm_rewrite_session-eq-build_frame_master :
    (old new : Template) (split : Option ℕ) (frames frames' : Bytes) (triples : List Triple)
    (evt : ℕ) (ms : List (SchedKind × FrameMeta))
    → All (λ (m : SchedKind × FrameMeta). IsBaked new frames' triples m.1) ms
    → warm_rewrite_session new (stale_entries old frames frames' triples ms)
      ≡ entries_of (build_frame_master new split frames' triples evt ms)
unfolding warm_rewrite_session build_frame_master master_entry
warm_rewrite_session-eq-build_frame_master old new split frames frames' triples evt [] h = refl
warm_rewrite_session-eq-build_frame_master old new split frames frames' triples evt ((kind, m) ∷ ms)
      h =
    let ih =
      warm_rewrite_session-eq-build_frame_master old new split frames frames' triples (evt + 1) ms
        h.1 in
    let one =
      rewrite_entry-eq-publish_entry old new (slice frames m.offset (m.offset + m.len))
        (slice frames' m.offset (m.offset + m.len)) m.feed m.first_seq m.valid
        (slice triples m.blk_base (m.blk_base + m.blk_count)) h.0.few h.0.lo h.0.hi in
    ground (arith, ih, one)

-- Why a patch walk stops: its budget, the end, or the frontier.
abbrev pub Halted : (upto budget moved : ℕ) → List MasterEntry → Type 0
Halted upto budget moved [] = Unit
Halted upto budget moved (m ∷ ms) = (moved ≡ budget) ⊎ (upto ≤ m.evt)

abbrev pub patchables : List MasterEntry → ℕ
patchables [] = 0
patchables (m ∷ ms) = if m.patchable then patchables ms + 1 else patchables ms

-- An entry moved to the session of a template: its words are the template's, its packed byte keeps the
-- feed, and has the steady bit if the template computes it and the memo claims all of the blocks;
-- the rest of the entry is as it was.
abbrev pub IsMoved : Template → (old new : FrameEntry) → Type 0
IsMoved tmpl old new =
    (new.sess_lo ≡ tmpl.lo)
    × (new.sess_hi ≡ tmpl.hi)
    × (new.elig % 4 ≡ old.elig % 4)
    × ((leb 128 new.elig ≡ true) ↔ (
        (tmpl.compute_elig ≡ true)
        × (length old.blocks ≢ 0)
        × (old.memo ≡ some (record { valid_count = length old.blocks % 65536 }))))
    × (record new { sess_lo = old.sess_lo; sess_hi = old.sess_hi; elig = old.elig } ≡ old)

-- Entry by entry: an entry that is not patchable stays, a patchable one is moved, at the same event.
abbrev pub Moved : Template → (old new : List MasterEntry) → Type 0
Moved tmpl [] [] = Unit
Moved tmpl [] (n ∷ ns) = ⊥
Moved tmpl (m ∷ ms) [] = ⊥
Moved tmpl (m ∷ ms) (n ∷ ns) =
    (if m.patchable
      then (n.evt ≡ m.evt) × (n.patchable ≡ true) × IsMoved tmpl m.entry n.entry
      else n ≡ m)
    × Moved tmpl ms ns

-- A walk that ends in `p` moves the patchable ones of the entries that it passed, and no other.
pub record IsPatched (tmpl : Template) (upto budget : ℕ) (ms : List MasterEntry) (p : Patched)
    : Type 0 where
  pub moves : Moved tmpl (take p.moved ms) (take p.moved p.master)
  pub rest : drop p.moved p.master ≡ drop p.moved ms
  pub patched : p.patched ≡ patchables (take p.moved ms)
  pub passed : All (λ m. m.evt < upto) (take p.moved ms)
  pub within : p.moved ≤ budget
  pub halted : Halted upto budget p.moved (drop p.moved ms)

memo_full_iff :
    (e : FrameEntry)
    → (memo_full e ≡ true) ↔ (e.memo ≡ some (record { valid_count = length e.blocks % 65536 }))
memo_full_iff e = by_memo e.memo (length e.blocks % 65536)
  where
    by_memo :
        (o : Option FrameMemo) (n : ℕ)
        → (elim o [ none ↦ false | some m ↦ m.valid_count == n ] ≡ true)
          ↔ (o ≡ some (record { valid_count = n }))
    by_memo none n = (λ h. cc, λ h. cc)
    by_memo (some m) n = (
      λ h.
          let same : m.valid_count ≡ n = ground (arith, h) in
          ap (λ (k : ℕ). some (record { valid_count = k })) same,
      λ h.
          let same : m.valid_count ≡ n =
            ap (λ (o : Option FrameMemo). elim o [ none ↦ 0 | some x ↦ x.valid_count ]) h in
          ground (arith, same),
    )

steady_bit : (elig : ℕ) (ok : Bool) → (leb 128 (pack_elig elig ok) ≡ true) ↔ (ok ≡ true)
unfolding pack_elig
steady_bit elig true = (λ h. refl, λ h. ground arith)
steady_bit elig false = (λ h. ground arith, λ h. cc)

feed_bits : (elig : ℕ) (ok : Bool) → pack_elig elig ok % 4 ≡ elig % 4
unfolding pack_elig
feed_bits elig true = omega arith
feed_bits elig false = omega arith

rewrite_entry-IsMoved : (tmpl : Template) (e : FrameEntry) → IsMoved tmpl e (rewrite_entry tmpl e)
unfolding rewrite_entry
rewrite_entry-IsMoved tmpl e =
    let ok : Bool = tmpl.compute_elig && (not (length e.blocks == 0) && memo_full e) in
    let bit = steady_bit e.elig ok in
    let memo = memo_full_iff e in
    (
      refl,
      refl,
      feed_bits e.elig ok,
      (
        λ h.
            let k : ok ≡ true = bit.0 h in
            (ground (arith, k), ground (arith, k), memo.0 (ground (arith, k))),
        λ h.
            let (c, n, m) = h in
            let f : memo_full e ≡ true = memo.1 m in bit.1 (ground (arith, c, n, f)),
      ),
      refl,
    )

patch_one-Moved :
    (tmpl : Template) (m : MasterEntry) (ms ns : List MasterEntry)
    → Moved tmpl ms ns
    → Moved tmpl (m ∷ ms) (patch_one tmpl m ∷ ns)
patch_one-Moved tmpl m ms ns h = elim (Bool-cases m.patchable) [
  | inl p ↦ simp p ((refl, refl, rewrite_entry-IsMoved tmpl m.entry), h)
  | inr p ↦ simp p (refl, h)
]

patched_first-IsPatched :
    (tmpl : Template) (upto budget : ℕ) (m : MasterEntry) (ms : List MasterEntry) (p : Patched)
    → m.evt < upto
    → IsPatched tmpl upto budget ms p
    → IsPatched tmpl upto (suc budget) (m ∷ ms) (patched_first tmpl m p)
patched_first-IsPatched tmpl upto budget m ms p h i =
    let one : suc p.moved ≡ p.moved + 1 = omega arith in
    let r : IsPatched tmpl upto (suc budget) (m ∷ ms)
        (record (patched_first tmpl m p) { moved = suc p.moved }) =
      record {
        moves = patch_one-Moved tmpl m (take p.moved ms) (take p.moved p.master) i.moves;
        rest = i.rest;
        patched = ap (λ (k : ℕ). if m.patchable then k + 1 else k) i.patched;
        passed = (h, i.passed);
        within = omega (arith, i.within);
        halted = halted_later (drop p.moved ms) i.halted;
      } in
    subst
      (λ (k : ℕ).
        IsPatched tmpl upto (suc budget) (m ∷ ms) (record (patched_first tmpl m p) { moved = k }))
      one r
  where
    halted_later :
        (xs : List MasterEntry)
        → Halted upto budget p.moved xs
        → Halted upto (suc budget) (suc p.moved) xs
    halted_later [] h = tt
    halted_later (x ∷ xs) (inl e) = inl (ap suc e)
    halted_later (x ∷ xs) (inr e) = inr e

patch_range-IsPatched :
    (tmpl : Template) (upto budget : ℕ) (ms : List MasterEntry)
    → IsPatched tmpl upto budget ms (patch_range tmpl upto budget ms)
unfolding patch_range
patch_range-IsPatched tmpl upto zero [] = record {
  moves = tt;
  rest = refl;
  patched = refl;
  passed = tt;
  within = omega arith;
  halted = tt;
}
patch_range-IsPatched tmpl upto zero (m ∷ ms) = record {
  moves = tt;
  rest = refl;
  patched = refl;
  passed = tt;
  within = omega arith;
  halted = inl refl;
}
patch_range-IsPatched tmpl upto (suc budget) [] = record {
  moves = tt;
  rest = refl;
  patched = refl;
  passed = tt;
  within = omega arith;
  halted = tt;
}
patch_range-IsPatched tmpl upto (suc budget) (m ∷ ms) =
    let ih = patch_range-IsPatched tmpl upto budget ms in
    if-cases (IsPatched tmpl upto (suc budget) (m ∷ ms)) (leb upto m.evt)
      (λ e. record {
        moves = tt;
        rest = refl;
        patched = refl;
        passed = tt;
        within = omega arith;
        halted = inr (ground (arith, e));
      })
      (λ e.
        patched_first-IsPatched tmpl upto budget m ms (patch_range tmpl upto budget ms)
          (ground (arith, e)) ih)

-- `master_patch_range` leaves the entries before its cursor alone, moves the patchable ones of those it
-- passes to the template's session, field by field, and counts them, and keeps all others; it passes only entries of events before the frontier, at most its
-- budget of them, and it stops before the end only at the frontier or with its budget spent.
pub master_patch_range-IsPatched :
    (tmpl : Template) (from upto budget : ℕ) (ms : List MasterEntry)
    → let r : Patched = master_patch_range tmpl from upto budget ms in
      (p : Patched) × (r.master ≡ take from ms ++ p.master)
      × (r.moved ≡ from + p.moved)
      × (r.patched ≡ p.patched)
      × IsPatched tmpl upto budget (drop from ms) p
unfolding master_patch_range
master_patch_range-IsPatched tmpl from upto budget ms = (
  patch_range tmpl upto budget (drop from ms),
  refl,
  refl,
  refl,
  patch_range-IsPatched tmpl upto budget (drop from ms),
)
