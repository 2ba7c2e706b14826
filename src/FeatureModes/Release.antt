-- ===== src/FeatureModes/Release.antt =====
-- What the suggest engine and the blame coordinator are left with: the engine's gate, which is whether
-- it is destroyed and enabled and whether edits go out, and the coordinator's active state.
use collab_editor.Prelude.{
  ◌≡◌, refl, ap, ◌∙◌, Bool, true, false, not, ◌||◌, List, Option, none, some, Text, text_eq,
  if-holds, Bool-cases, inl, inr, arith,
}
use collab_editor.Yjs.{SharedDoc}
use collab_editor.Replicator.{
  Replicator, Side, Origin, sync_side, editor_side, receive, forwards, apply_at, opposite,
  reset_editor_doc, seed_editor_from_sync,
}
use collab_editor.Suggest.{built, payload_of}
use collab_editor.Suggest.Engine.{
  SuggestEngine, enable, disable, discard, commit, rebase, build_suggestion, has_pending_changes,
}
use collab_editor.Blame.{BlameSegment}
use collab_editor.Blame.Coordinator.{
  BlameCoordinator, Session, is_enabled, toggle, start_blame, start_session, stop_blame,
}
use collab_editor.FeatureModes.{set_outbound, resume}

module _ (y : SharedDoc) where
  abbrev pub gate : SuggestEngine y → Bool × (Bool × Bool)
  gate s = (s.destroyed, (s.enabled, s.collab.outbound_open))

  pub enable-gate :
      (t : Text) (s : SuggestEngine y)
      → s.destroyed ≡ false
      → s.enabled ≡ false
      → gate (enable y t s) ≡ (false, (true, false))
  unfolding enable
  enable-gate t s kept off =
      let opened : (s.destroyed || s.enabled) ≡ false = rw (kept, off) refl in
      if-holds (λ (q : SuggestEngine y). gate q ≡ (false, (true, false))) (s.destroyed || s.enabled)
        s _ (λ shut. absurd (ground (arith, shut, opened))) (λ _. ap (λ d. (d, (true, false))) kept)

  pub enable-idle :
      (t : Text) (s : SuggestEngine y) → s.enabled ≡ true → gate (enable y t s) ≡ gate s
  unfolding enable
  enable-idle t s on =
      if-holds (λ (q : SuggestEngine y). gate q ≡ gate s) (s.destroyed || s.enabled) s _
        (λ shut. refl) (λ off. absurd (ground (arith, off, on)))

  pub disable-gate :
      (s : SuggestEngine y) → s.enabled ≡ true → gate (disable y s) ≡ (s.destroyed, (false, true))
  unfolding disable
  disable-gate s on =
      if-holds (λ (q : SuggestEngine y). gate q ≡ (s.destroyed, (false, true))) (not s.enabled) s _
        (λ off. absurd (ground (arith, on, off))) (λ _. refl)

  pub disable-idle : (s : SuggestEngine y) → s.enabled ≡ false → gate (disable y s) ≡ gate s
  unfolding disable
  disable-idle s off =
      if-holds (λ (q : SuggestEngine y). gate q ≡ gate s) (not s.enabled) s _ (λ _. refl)
        (λ on. absurd (ground (arith, on, off)))

  pub reset-outbound : (r : Replicator y) → (reset_editor_doc y r).outbound_open ≡ true
  unfolding reset_editor_doc seed_editor_from_sync receive forwards
  reset-outbound r = refl

  pub discard-gate :
      (s : SuggestEngine y) → s.enabled ≡ true → gate (discard y s) ≡ (s.destroyed, (false, true))
  unfolding discard
  discard-gate s on =
      if-holds (λ (q : SuggestEngine y). gate q ≡ (s.destroyed, (false, true))) (not s.enabled) s _
        (λ off. absurd (ground (arith, on, off)))
        (λ _. disable-gate (record s { collab = reset_editor_doc y s.collab }) on)

  pub receive-outbound :
      (side : Side) (u : y.Update) (o : Origin) (r : Replicator y)
      → (receive y side u o r).outbound_open ≡ r.outbound_open
  unfolding receive
  receive-outbound side u o r =
      if-holds (λ (q : Replicator y). q.outbound_open ≡ r.outbound_open) (forwards y r side o) _ _
        (λ on. twice side r) (λ off. once side r)
    where
      once :
          (side : Side) (r : Replicator y) → (apply_at y side u r).outbound_open ≡ r.outbound_open
      once sync_side r = refl
      once editor_side r = refl

      twice :
          (side : Side) (r : Replicator y)
          → (apply_at y (opposite side) u (apply_at y side u r)).outbound_open ≡ r.outbound_open
      twice sync_side r = refl
      twice editor_side r = refl

  pub rebase-gate : (t : Text) (s : SuggestEngine y) → gate (rebase y t s) ≡ gate s
  unfolding rebase
  rebase-gate t s =
      if-holds (λ (q : SuggestEngine y). gate q ≡ gate s) (not s.enabled) s _ (λ _. refl)
        (λ _. refl)

  -- Changes are pending only while the engine is enabled.
  pub has_pending_changes-enabled :
      (t : Text) (s : SuggestEngine y) → has_pending_changes y t s ≡ true → s.enabled ≡ true
  unfolding has_pending_changes
  has_pending_changes-enabled t s h = elim (Bool-cases s.enabled) [
    | inl on ↦ on
    | inr off ↦
        let no : false ≡ true = rw (off, has_pending_changes) at h in absurd (ground (arith, no))
  ]

  pub commit-gate :
      (author_note : Option Text) (t : Text) (s : SuggestEngine y)
      → has_pending_changes y t s ≡ true
      → gate (commit y author_note t s).0 ≡ (s.destroyed, (false, true))
  unfolding commit build_suggestion has_pending_changes
  commit-gate author_note t s h =
      let on = has_pending_changes-enabled t s h in
      let differs : not (text_eq t s.text_at_enable) ≡ true = rw (on, has_pending_changes) at h in
      let other : text_eq t s.text_at_enable ≡ false = ground (arith, differs) in
      let made : build_suggestion y author_note t s
          ≡ built (payload_of author_note s.text_at_enable t) =
        rw (build_suggestion, on, other) refl in
      rw (commit, made) (disable-gate (record s { collab = reset_editor_doc y s.collab }) on)

module _ (y : SharedDoc) (Doc : Type 0) (live_blame : Doc → List BlameSegment)
    (serialized : y.Doc → Text) where
  pub resume-gate :
      (s : SuggestEngine y)
      → s.destroyed ≡ false
      → gate y (resume y Doc live_blame serialized s) ≡ (false, (true, false))
  unfolding resume
  resume-gate s kept =
      let gated = set_outbound y Doc live_blame false s in
      elim (Bool-cases s.enabled) [
        | inl on ↦
            let shut = disable-gate y gated on in
            enable-gate y _ (disable y gated) (ap (λ g. g.0) shut ∙ kept) (ap (λ g. g.1.0) shut)
        | inr off ↦
            let same = disable-idle y gated off in
            enable-gate y _ (disable y gated) (ap (λ g. g.0) same ∙ kept)
              (ap (λ g. g.1.0) same ∙ off)
      ]

  -- Whether live blame is enabled, and whether it is active.
  abbrev pub blame_state : BlameCoordinator Doc live_blame → Bool × Bool
  blame_state c = (is_enabled Doc live_blame c.config.live_blame_enabled, c.active)

  start_session-state :
      (c : BlameCoordinator Doc live_blame) (o : Option Session)
      → blame_state (start_session Doc live_blame c o) ≡ blame_state c
  unfolding start_session
  start_session-state c none = refl
  start_session-state c (some s) = refl

  pub toggle-state :
      (active : Bool) (c : BlameCoordinator Doc live_blame)
      → is_enabled Doc live_blame c.config.live_blame_enabled ≡ true
      → blame_state (toggle Doc live_blame active c) ≡ (true, active)
  unfolding toggle start_blame stop_blame
  toggle-state true c on =
      if-holds (λ (q : BlameCoordinator Doc live_blame). blame_state q ≡ (true, true))
        (not (is_enabled Doc live_blame c.config.live_blame_enabled)) c _
        (λ off. absurd (ground (arith, on, off)))
        (λ _.
          start_session-state (record c { active = true; told = true }) c.session
          ∙ ap (λ b. (b, true)) on)
  toggle-state false c on =
      if-holds (λ (q : BlameCoordinator Doc live_blame). blame_state q ≡ (true, false))
        (not (is_enabled Doc live_blame c.config.live_blame_enabled)) c
        (stop_blame Doc live_blame (record c { active = false; told = false }))
        (λ off. absurd (ground (arith, on, off))) (λ _. ap (λ b. (b, false)) on)
