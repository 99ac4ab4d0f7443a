-- ===== src/Arbitrator/State/Boundary.antt =====
-- crates/nf-arbitrator/src/session.rs: the session boundary, and the sealed session.
use hft_proj.Prelude.{
  ℕ, ◌≡◌, inl, inr, refl, sym, ap, true, false, ◌&&◌, not, none, List, [], ◌∷◌, ◌++◌, arith, Bytes,
  if◌then◌else◌, bytes_eq, bytes_eq→eq, bytes_eq_self, Bool-cases, if-cases, subst, add64,
}
use hft_proj.Arbitrator.Types.{
  Call, on_event, session_boundary, session_dead, DeadReason, Log, done, state_eq, init, dead,
}
use hft_proj.Arbitrator.Window.Staging.{held}
use hft_proj.Arbitrator.Window.Draining.{nothing_held}
use hft_proj.Arbitrator.State.{
  Sequencer, session_dispatch, dispatch_session, refresh_session_tmpl, refresh_if_stale,
  zero_session, flush_window, seal,
}
use hft_proj.Arbitrator.State.Invariant.{IsSequencer}
use hft_proj.Arbitrator.State.Lifecycle.{flush_window-IsWindow}
use hft_proj.Arbitrator.State.Template.{HasTemplate, IsSession}

module _ (s : Sequencer) (session : Bytes) where
  abbrev stepped : Sequencer
  stepped = (dispatch_session s session).0

  refreshed :
      (x : Sequencer)
      → IsSession x.session
      → (bytes_eq x.session s.session ≡ true → HasTemplate x)
      → HasTemplate (refresh_if_stale s.session x)
  unfolding refresh_session_tmpl
  refreshed x i h =
      if-cases HasTemplate (x.session_live && bytes_eq x.session s.session)
        (λ c. h (ground (arith, c))) (λ c. (i, λ live. (refl, refl, ground (arith, live))))

  -- The session step leaves a right compare template, if it found one; the session it leaves is the
  -- packet's.
  pub dispatch_session-HasTemplate :
      HasTemplate s
      → IsSession session
      → HasTemplate (dispatch_session s session).0
        × ((dispatch_session s session).0.session ≡ session)
  unfolding dispatch_session session_dispatch
  dispatch_session-HasTemplate t i =
      if-cases P (bytes_eq s.session zero_session)
        (λ a. to_packet _ refl (λ e. (i, λ live. absurd (ground (arith, a, (t.1 live).2)))))
        (λ a.
          if-cases P (not (bytes_eq s.session session))
            (λ b. to_packet _ refl (λ e.
              let same : bytes_eq s.session session ≡ true =
                subst (λ (x : Bytes). bytes_eq s.session x ≡ true)
                  (sym (bytes_eq→eq session s.session e)) (bytes_eq_self s.session) in
              absurd (ground (arith, same, b))))
            (λ b. to_packet s (bytes_eq→eq s.session session (ground (arith, b))) (λ e. t)))
    where
      P : Log Sequencer → Type 0
      P x =
          HasTemplate (refresh_if_stale s.session x.0)
          × ((refresh_if_stale s.session x.0).session ≡ session)

      to_packet :
          (x : Sequencer)
          → x.session ≡ session
          → (bytes_eq x.session s.session ≡ true → HasTemplate x)
          → HasTemplate (refresh_if_stale s.session x)
            × ((refresh_if_stale s.session x).session ≡ session)
      to_packet x e h = (
        refreshed x (subst IsSession (sym e) i) h,
        if-cases (λ (y : Sequencer). y.session ≡ session)
            (x.session_live && bytes_eq x.session s.session) (λ _. e) (λ _. e),
      )

  abbrev Reset : Sequencer → Type 0
  Reset x =
      ((w seq : ℕ) → held x.win w seq ≡ none)
      × (x.gap_active ≡ false)
      × (state_eq x.state init ≡ true)
      × (x.w ≡ s.w)

  boundary_step :
      IsSequencer s
      → bytes_eq s.session zero_session ≡ false
      → bytes_eq s.session session ≡ false
      → Reset (session_dispatch s session).0
        × ((session_dispatch s session).1
            ≡ on_event (session_boundary s.session session (add64 s.gen 1)) ∷ [])
  unfolding session_dispatch
  boundary_step i real other =
      let (v, z) = flush_window-IsWindow i.window in
      rw (real, other)
        ((λ w seq. nothing_held (flush_window s.win) w seq v z, refl, refl, refl), refl)

  -- Where a packet has another session than the live one, nothing of the old session stays staged, its
  -- gap is closed, the next data frame is an anchor, and the sink is told of the boundary alone.
  pub dispatch_session_boundary :
      IsSequencer s
      → bytes_eq s.session zero_session ≡ false
      → bytes_eq s.session session ≡ false
      → let (s', calls) = dispatch_session s session in
        ((w seq : ℕ) → held s'.win w seq ≡ none)
        × (s'.gap_active ≡ false)
        × (state_eq s'.state init ≡ true)
        × (s'.w ≡ s.w)
        × (calls ≡ on_event (session_boundary s.session session (add64 s.gen 1)) ∷ [])
  unfolding dispatch_session refresh_session_tmpl
  dispatch_session_boundary i real other =
      let (q, c) = boundary_step i real other in
      let x : Sequencer = (session_dispatch s session).0 in
      let r : Reset (refresh_if_stale s.session x) =
        if-cases Reset (x.session_live && bytes_eq x.session s.session) (λ _. q) (λ _. q) in
      (r.0, r.1, r.2, r.3, ap (λ (t : List Call). t ++ []) c)

-- A session that is sealed once is dead, and sealing it again does nothing: the sink is told at most
-- once, with the last watermark.
pub seal_once :
    (s : Sequencer) (reason again : DeadReason)
    → let (s', calls) = seal s reason in
      (state_eq s'.state dead ≡ true)
      × (seal s' again ≡ done s')
      × (calls ≡ (if state_eq s.state dead then [] else on_event (session_dead reason s.w) ∷ []))
unfolding seal
seal_once s reason again = elim (Bool-cases (state_eq s.state dead)) [
  | inl e ↦ simp e (refl, refl, refl)
  | inr e ↦ simp e (refl, refl, refl)
]
