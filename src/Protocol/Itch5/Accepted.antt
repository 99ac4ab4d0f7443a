-- ===== src/Protocol/Itch5/Accepted.antt =====
-- crates/nf-protocol/src/itch5.rs: which messages the overlays accept.
use hft_proj.Prelude.{
  refl, Option, Result, ℕ, ◌≡◌, ◌≢◌, ◌↔◌, true, none, [], ◌∷◌, length, Bytes, ok, arith, ap, ◌∙◌,
}
use hft_proj.Protocol.Itch5.{ItchError, header, validate, length_of}
use hft_proj.Protocol.Itch5.Overlays.{
  overlay, starts_with, parse_system_event, parse_stock_directory, parse_add, parse_add_attributed,
  parse_executed, parse_executed_with_price, parse_cancel, parse_delete, parse_replace,
  view_system_event, view_stock_directory, view_add, view_add_attributed, view_executed,
  view_executed_with_price, view_cancel, view_delete, view_replace,
}

overlay_sound :
    (tag n : ℕ) (msg view : Bytes)
    → overlay tag n msg ≡ ok view
    → (view ≡ msg) × (length msg ≡ n) × (starts_with tag msg ≡ true)
unfolding overlay
overlay_sound tag n msg view h = ground arith

overlay_iff :
    (tag n : ℕ) (msg : Bytes)
    → length_of tag ≡ n
    → n ≢ 0
    → (overlay tag n msg ≡ ok msg) ↔ ((validate msg ≡ ok tt) × (starts_with tag msg ≡ true))
unfolding overlay validate
overlay_iff tag n [] h k = (λ e. ground arith, λ e. ground arith)
overlay_iff tag n (t ∷ rest) h k = (λ e. ground arith, λ e. ground arith)

-- A parser accepts exactly the valid messages of one type.
abbrev pub Accepts : (Bytes → Result ItchError Bytes) → (tag : ℕ) → Bytes → Type 0
Accepts parse tag msg =
    (parse msg ≡ ok msg) ↔ ((validate msg ≡ ok tt) × (starts_with tag msg ≡ true))

-- Each of the nine overlays' `parse` accepts a message exactly when `validate` accepts it and its first
-- byte is the overlay's type.
pub overlays_iff :
    (msg : Bytes)
    → Accepts parse_system_event b'S' msg
      × Accepts parse_stock_directory b'R' msg
      × Accepts parse_add b'A' msg
      × Accepts parse_add_attributed b'F' msg
      × Accepts parse_executed b'E' msg
      × Accepts parse_executed_with_price b'C' msg
      × Accepts parse_cancel b'X' msg
      × Accepts parse_delete b'D' msg
      × Accepts parse_replace b'U' msg
unfolding length_of
overlays_iff msg = (
  overlay_iff b'S' 12 msg refl (λ e. omega arith),
  overlay_iff b'R' 39 msg refl (λ e. omega arith),
  overlay_iff b'A' 36 msg refl (λ e. omega arith),
  overlay_iff b'F' 40 msg refl (λ e. omega arith),
  overlay_iff b'E' 31 msg refl (λ e. omega arith),
  overlay_iff b'C' 36 msg refl (λ e. omega arith),
  overlay_iff b'X' 23 msg refl (λ e. omega arith),
  overlay_iff b'D' 19 msg refl (λ e. omega arith),
  overlay_iff b'U' 35 msg refl (λ e. omega arith),
)

-- Every field of a view is read within the bytes.
abbrev Reads {ℓ} : {A : Type ℓ} → (Bytes → Option A) → (n : ℕ) → Type ℓ
Reads view n = (v : Bytes) → length v ≡ n → ¬ (view v ≡ none)

view_system_event-Reads : Reads view_system_event 12
unfolding header
view_system_event-Reads v l = rw l (λ e. cc)

view_stock_directory-Reads : Reads view_stock_directory 39
unfolding header
view_stock_directory-Reads v l = rw l (λ e. cc)

view_add-Reads : Reads view_add 36
unfolding header
view_add-Reads v l = rw l (λ e. cc)

view_add_attributed-Reads : Reads view_add_attributed 40
unfolding header
view_add_attributed-Reads v l = rw l (λ e. cc)

view_executed-Reads : Reads view_executed 31
unfolding header
view_executed-Reads v l = rw l (λ e. cc)

view_executed_with_price-Reads : Reads view_executed_with_price 36
unfolding header
view_executed_with_price-Reads v l = rw l (λ e. cc)

view_cancel-Reads : Reads view_cancel 23
unfolding header
view_cancel-Reads v l = rw l (λ e. cc)

view_delete-Reads : Reads view_delete 19
unfolding header
view_delete-Reads v l = rw l (λ e. cc)

view_replace-Reads : Reads view_replace 35
unfolding header
view_replace-Reads v l = rw l (λ e. cc)

in_bounds :
    {A : Type 0} (view : Bytes → Option A) (tag n : ℕ) (msg v : Bytes)
    → Reads view n
    → ¬ ((overlay tag n msg ≡ ok v) × (view v ≡ none))
in_bounds view tag n msg v reads (p, e) =
    let s = overlay_sound tag n msg v p in reads v (ap length s.0 ∙ s.1) e

-- No overlay's `parse` returns a view of which a field is out of bounds.
abbrev pub InBounds : (msg v : Bytes) → Type 0
InBounds msg v =
    ¬ ((parse_system_event msg ≡ ok v) × (view_system_event v ≡ none))
    × ¬ ((parse_stock_directory msg ≡ ok v) × (view_stock_directory v ≡ none))
    × ¬ ((parse_add msg ≡ ok v) × (view_add v ≡ none))
    × ¬ ((parse_add_attributed msg ≡ ok v) × (view_add_attributed v ≡ none))
    × ¬ ((parse_executed msg ≡ ok v) × (view_executed v ≡ none))
    × ¬ ((parse_executed_with_price msg ≡ ok v) × (view_executed_with_price v ≡ none))
    × ¬ ((parse_cancel msg ≡ ok v) × (view_cancel v ≡ none))
    × ¬ ((parse_delete msg ≡ ok v) × (view_delete v ≡ none))
    × ¬ ((parse_replace msg ≡ ok v) × (view_replace v ≡ none))

-- Whatever the bytes of a message are, no field of the view that an overlay's `parse` returns for it
-- is read out of bounds, for each of the nine overlays.
pub overlays-InBounds : (msg v : Bytes) → InBounds msg v
overlays-InBounds msg v = (
  in_bounds view_system_event b'S' 12 msg v view_system_event-Reads,
  in_bounds view_stock_directory b'R' 39 msg v view_stock_directory-Reads,
  in_bounds view_add b'A' 36 msg v view_add-Reads,
  in_bounds view_add_attributed b'F' 40 msg v view_add_attributed-Reads,
  in_bounds view_executed b'E' 31 msg v view_executed-Reads,
  in_bounds view_executed_with_price b'C' 36 msg v view_executed_with_price-Reads,
  in_bounds view_cancel b'X' 23 msg v view_cancel-Reads,
  in_bounds view_delete b'D' 19 msg v view_delete-Reads,
  in_bounds view_replace b'U' 35 msg v view_replace-Reads,
)
