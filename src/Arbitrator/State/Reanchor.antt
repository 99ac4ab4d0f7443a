-- ===== src/Arbitrator/State/Reanchor.antt =====
-- crates/nf-arbitrator/src/lib.rs: `reanchor`, the reset between passes that keeps the arena's bytes.
use hft_proj.Prelude.{ℕ, ◌<◌, ◌≡◌, refl, sym, none, arith, IsBytes}
use hft_proj.Arbitrator.Types.{no_mutation}
use hft_proj.Arbitrator.Window.Slots.{IsWindow, occupied-none}
use hft_proj.Arbitrator.Window.Staging.{held}
use hft_proj.Arbitrator.Window.Draining.{nothing_held}
use hft_proj.Arbitrator.State.{Sequencer, new_unboxed, reanchor, zero_session}
use hft_proj.Arbitrator.State.Invariant.{IsSequencer}
use hft_proj.Arbitrator.State.Template.{HasTemplate}

-- `reanchor` makes any production sequencer a new one but for the bytes of its arena, and these are out
-- of sight: the invariant holds, the compare template is not live, and no number is held.
pub reanchor-IsSequencer :
    (s : Sequencer)
    → s.mutation ≡ no_mutation
    → IsSequencer (reanchor s)
      × HasTemplate (reanchor s)
      × ((w seq : ℕ) → held (reanchor s).win w seq ≡ none)
      × (reanchor s ≡ record new_unboxed {
        mutation = s.mutation;
        win = record (new_unboxed.win) { arena = s.win.arena };
      })
unfolding reanchor new_unboxed
reanchor-IsSequencer s p =
    let v : IsWindow (reanchor s).win = record {
      counted = sym (occupied-none 1024);
      small = λ i lt. omega arith;
    } in
    (
      record {
        window = v;
        vacant = refl;
        gapped = λ e. cc;
        fresh = λ e. (refl, refl);
        production = p;
      },
      ((refl, zero_bytes), λ live. cc),
      λ w seq. nothing_held (reanchor s).win w seq v refl,
      refl,
    )
  where
    zero_bytes : IsBytes zero_session
    zero_bytes =
        let z : 0 < 256 = omega arith in (z, (z, (z, (z, (z, (z, (z, (z, (z, (z, tt))))))))))
