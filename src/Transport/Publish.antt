-- ===== src/Transport/Publish.antt =====
-- crates/nf-transport/src/render.rs and pipeline.rs: the frame entries that the replay transport
-- publishes, the master's build and the patches at a session boundary.
pub mod Entries
mod Examples
pub mod Patches
pub mod Batches
use hft_proj.Prelude.{
  ltb, Option, ◌++◌, take, slice, le64_at, leb, map, drop, not, length, ◌%◌, List, Bytes, ◌&&◌, ◌+◌,
  ◌==◌, if◌then◌else◌, true, false, none, some, [], ◌∷◌, ℕ, Bool, zero, suc,
}
use hft_proj.Protocol.Packet.{Triple, FrameEntry}

-- `(feed & 3) | (ok << 7)`
unfoldable pub pack_elig : (feed : ℕ) (ok : Bool) → ℕ
pack_elig feed ok = feed % 4 + (if ok then 128 else 0)

-- The rendered slot of one event: where its bytes and its triples stand; `len` 0 is a tombstone.
pub record FrameMeta : Type 0 where
  pub offset : ℕ
  pub len : ℕ
  pub feed : ℕ
  pub valid : ℕ
  pub blk_base : ℕ
  pub blk_count : ℕ
  pub first_seq : ℕ

-- The template of the session that the blob carries, and whether the steady bit is computed.
pub record Template : Type 0 where
  pub lo : ℕ
  pub hi : ℕ
  pub compute_elig : Bool

-- `elig_ok`: the template's session, and a memo that claims every block.
abbrev pub steady_mark : Template → (sess_lo sess_hi valid blk_count : ℕ) → Bool
steady_mark tmpl sess_lo sess_hi valid blk_count =
    tmpl.compute_elig
    && (not (blk_count == 0) && (valid == blk_count && (sess_lo == tmpl.lo && sess_hi == tmpl.hi)))

-- The entry of a frame's bytes, its blocks and the count of its leading valid blocks.
unfoldable pub publish_entry :
    Template → Bytes → (feed first_seq valid : ℕ) → List Triple → FrameEntry
unfolding pack_elig
publish_entry tmpl bytes feed first_seq valid blocks =
    let sess_lo = le64_at bytes 0 in
    let sess_hi = le64_at bytes 2 in
    let n = length blocks in
    record {
      bytes = bytes;
      feed = feed;
      blocks = blocks;
      memo = if n == 0 then none else some (record { valid_count = valid });
      first_seq = first_seq;
      sess_lo = sess_lo;
      sess_hi = sess_hi;
      elig = pack_elig feed (steady_mark tmpl sess_lo sess_hi valid n);
    }

-- The entry of a slot, from the blob and the triple store.
unfoldable pub master_entry : Template → Bytes → List Triple → FrameMeta → FrameEntry
unfolding publish_entry
master_entry tmpl frames triples m =
    publish_entry tmpl (slice frames m.offset (m.offset + m.len)) m.feed m.first_seq m.valid
      (slice triples m.blk_base (m.blk_base + m.blk_count))

-- The events of a schedule.
pub data SchedKind : Type 0 where
  packet : (first_seq first_msg count : ℕ) → SchedKind
  heartbeat : (next_seq : ℕ) → SchedKind
  end_of_session : (next_seq : ℕ) → SchedKind

-- A master entry with the index of its event, and whether its session may change.
pub record MasterEntry : Type 0 where
  pub entry : FrameEntry
  pub evt : ℕ
  pub patchable : Bool

-- With a session split, only the packets of messages before it change their session.
abbrev pub is_patchable : (session_split : Option ℕ) → SchedKind → Bool
is_patchable none kind = true
is_patchable (some split_m) (packet first_seq first_msg count) = ltb first_msg split_m
is_patchable (some split_m) (heartbeat next_seq) = false
is_patchable (some split_m) (end_of_session next_seq) = false

-- The master: the entries in the order of their events, numbered from `evt` on, without the tombstones.
unfoldable pub build_frame_master :
    Template
    → (session_split : Option ℕ) → Bytes
    → List Triple
    → (evt : ℕ) → List (SchedKind × FrameMeta)
    → List MasterEntry
unfolding master_entry
build_frame_master tmpl split frames triples evt [] = []
build_frame_master tmpl split frames triples evt ((kind, m) ∷ ms) =
    let rest = build_frame_master tmpl split frames triples (evt + 1) ms in
    if m.len == 0
    then rest
    else record {
      entry = master_entry tmpl frames triples m;
      evt = evt;
      patchable = is_patchable split kind;
    }
      ∷ rest

-- A memo that claims all the blocks, as a 16-bit count.
abbrev pub memo_full : FrameEntry → Bool
memo_full e = elim e.memo [ none ↦ false | some m ↦ m.valid_count == length e.blocks % 65536 ]

-- An entry moved to the session of the template.
unfoldable pub rewrite_entry : Template → FrameEntry → FrameEntry
unfolding pack_elig
rewrite_entry tmpl e =
    let ok = tmpl.compute_elig && (not (length e.blocks == 0) && memo_full e) in
    record e { sess_lo = tmpl.lo; sess_hi = tmpl.hi; elig = pack_elig e.elig ok }

unfoldable pub warm_rewrite_session : Template → List FrameEntry → List FrameEntry
unfolding rewrite_entry
warm_rewrite_session tmpl es = map (rewrite_entry tmpl) es

abbrev pub patch_one : Template → MasterEntry → MasterEntry
patch_one tmpl m = if m.patchable then record m { entry = rewrite_entry tmpl m.entry } else m

pub record Patched : Type 0 where
  pub master : List MasterEntry
  pub moved : ℕ
  pub patched : ℕ

abbrev pub patched_first : Template → MasterEntry → Patched → Patched
patched_first tmpl m p = record {
  master = patch_one tmpl m ∷ p.master;
  moved = p.moved + 1;
  patched = if m.patchable then p.patched + 1 else p.patched;
}

-- The walk of `master_patch_range` from its cursor on, with `budget` entries left: how far the cursor
-- moved, and how many entries were patched.
unfoldable pub patch_range : Template → (upto_evt budget : ℕ) → List MasterEntry → Patched
patch_range tmpl upto zero ms = record { master = ms; moved = 0; patched = 0 }
patch_range tmpl upto (suc budget) [] = record { master = []; moved = 0; patched = 0 }
patch_range tmpl upto (suc budget) (m ∷ ms) =
    let rest = patch_range tmpl upto budget ms in
    if leb upto m.evt
    then record { master = m ∷ ms; moved = 0; patched = 0 }
    else patched_first tmpl m rest

-- `master_patch_range`: the entries before the cursor stay.
unfoldable pub master_patch_range :
    Template → (from upto_evt budget : ℕ) → List MasterEntry → Patched
unfolding patch_range
master_patch_range tmpl from upto budget master =
    let p = patch_range tmpl upto budget (drop from master) in
    record { master = take from master ++ p.master; moved = from + p.moved; patched = p.patched }
