-- ===== src/FeatureModes/Laws/Toggles.antt =====
-- The toggles of blame and suggest mode.
use collab_editor.Prelude.{
  ◌≡◌, refl, ap, ◌∙◌, Bool, true, false, not, List, Text, if-holds, Bool-cases, inl, inr, arith,
}
use collab_editor.Yjs.{SharedDoc}
use collab_editor.Blame.{BlameSegment}
use collab_editor.Blame.Coordinator.{is_enabled, toggle}
use collab_editor.FeatureModes.{
  no_mode, blame, suggest, same_mode, is_some, Editor, blame_told, toggle_blame,
  activate_feature_mode,
}
use collab_editor.FeatureModes.Release.{gate, toggle-state}
use collab_editor.FeatureModes.Leaving.{activate_feature_mode-cases}
use collab_editor.FeatureModes.Exclusive.{IsExclusive, exclusive-IsClosed}
use collab_editor.FeatureModes.Handlers.Suggesting.{handle_blame_toggle}
use collab_editor.FeatureModes.Laws.{Ex-InMode, plain-IsExclusive}

module _ (y : SharedDoc) (Doc : Type 0) (live_blame : Doc → List BlameSegment)
    (serialized : y.Doc → Text) where
  abbrev E : Type 0
  E = Editor y Doc live_blame

  abbrev Ex : E → Type 0
  Ex = IsExclusive y Doc live_blame serialized

  toggle_blame_leaves :
      (e : E)
      → is_enabled Doc live_blame e.blamer.config.live_blame_enabled ≡ true
      → same_mode e.mode blame ≡ true
      → toggle_blame y Doc live_blame false e
        ≡ record e { blamer = toggle Doc live_blame false e.blamer; mode = no_mode }
  unfolding toggle_blame blame_told
  toggle_blame_leaves e on there =
      if-holds
        (λ (q : E). q ≡ record e { blamer = toggle Doc live_blame false e.blamer; mode = no_mode })
        (is_enabled Doc live_blame e.blamer.config.live_blame_enabled) _ _
        (λ _.
          if-holds
            (λ (q : E).
              q ≡ record e { blamer = toggle Doc live_blame false e.blamer; mode = no_mode })
            (same_mode e.mode blame) _ _ (λ _. refl) (λ away. absurd (ground (arith, there, away))))
        (λ off. absurd (ground (arith, on, off)))

  toggle_blame_enters :
      (e : E)
      → is_enabled Doc live_blame e.blamer.config.live_blame_enabled ≡ true
      → toggle_blame y Doc live_blame true e
        ≡ record e { blamer = toggle Doc live_blame true e.blamer; mode = blame }
  unfolding toggle_blame blame_told
  toggle_blame_enters e on =
      if-holds
        (λ (q : E). q ≡ record e { blamer = toggle Doc live_blame true e.blamer; mode = blame })
        (is_enabled Doc live_blame e.blamer.config.live_blame_enabled) _ _ (λ _. refl)
        (λ off. absurd (ground (arith, on, off)))

  leaves_blame :
      (e : E)
      → same_mode e.mode blame ≡ true
      → Ex e
      → Ex (handle_blame_toggle y Doc live_blame serialized false e)
  unfolding handle_blame_toggle same_mode
  leaves_blame e there h =
      let (now, hm) = Ex-InMode y Doc live_blame serialized blame e there h in
      let (gated, (blamed, rest)) = hm in
      let (a, (b, (c, (d, f)))) = exclusive-IsClosed y Doc live_blame serialized blame e refl hm in
      let on = ap (λ s. s.0) blamed in
      rw (toggle_blame_leaves e on there) (
        plain-IsExclusive y Doc live_blame serialized no_mode
          (record e { blamer = toggle Doc live_blame false e.blamer; mode = no_mode })
          (gated ∙ ap (λ p. (false, (false, not (is_some p)))) d)
          (toggle-state y Doc live_blame serialized false e.blamer on)
          (λ some_open. absurd (ground (arith, rw (a, b, c) at some_open))) d f)

  enters_blame :
      (e : E)
      → same_mode e.mode blame ≡ false
      → Ex e
      → Ex (handle_blame_toggle y Doc live_blame serialized true e)
  unfolding handle_blame_toggle same_mode
  enters_blame e away h =
      let s = activate_feature_mode y Doc live_blame serialized blame e in
      elim (activate_feature_mode-cases y Doc live_blame serialized blame e h) [
        | inl (same, stays) ↦ absurd (ground (arith, same, away))
        | inr (now, (free, (blamed, (a, (b, (c, (d, f))))))) ↦
            let on = ap (λ s. s.0) blamed in
            let gated = elim free as (λ _. gate y s.suggester ≡ (false, (false, true))) [
              | inl released ↦ released
              | inr (drafts, active) ↦ absurd (ground (arith, ap (λ n. same_mode n suggest) drafts))
            ] in
            rw (toggle_blame_enters s on) (
              plain-IsExclusive y Doc live_blame serialized blame
                (record s { blamer = toggle Doc live_blame true s.blamer; mode = blame }) gated
                (toggle-state y Doc live_blame serialized true s.blamer on)
                (λ some_open. absurd (ground (arith, rw (a, b, c) at some_open))) d f)
      ]

  pub handle_blame_toggle-IsExclusive :
      (e : E)
      → Ex e
      → Ex (handle_blame_toggle y Doc live_blame serialized (not (same_mode e.mode blame)) e)
  handle_blame_toggle-IsExclusive e h = elim (Bool-cases (same_mode e.mode blame)) [
    | inl there ↦ toggled (same_mode e.mode blame) true there (leaves_blame e there h)
    | inr away ↦ toggled (same_mode e.mode blame) false away (enters_blame e away h)
  ]
    where
      toggled :
          (b d : Bool)
          → b ≡ d
          → Ex (handle_blame_toggle y Doc live_blame serialized (not d) e)
          → Ex (handle_blame_toggle y Doc live_blame serialized (not b) e)
      toggled b d same k = rw same k
