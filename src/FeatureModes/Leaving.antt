-- ===== src/FeatureModes/Leaving.antt =====
-- Leaving a mode releases the surface of the editor.
use collab_editor.Prelude.{
  ◌≡◌, refl, sym, ap, ap₂, ◌∙◌, ◌⊎◌, true, false, not, List, Option, none, some, Text, if-holds,
  Bool-cases, inl, inr, arith,
}
use collab_editor.Yjs.{SharedDoc}
use collab_editor.Suggest.Engine.{SuggestEngine}
use collab_editor.Blame.{BlameSegment}
use collab_editor.Blame.Coordinator.{is_enabled, toggle}
use collab_editor.FeatureModes.{
  FeatureMode, no_mode, blame, suggest, comments, same_mode, is_some, Editor, blame_told,
  toggle_blame, reset_docs, end_preview_of, leave, activate_feature_mode,
}
use collab_editor.FeatureModes.Release.{
  gate, discard-gate, reset-outbound, resume-gate, blame_state, toggle-state,
}
use collab_editor.FeatureModes.Exclusive.{
  same_mode_sym, same_mode_suggest, IsExclusiveIn, IsExclusive, IsFree, IsReleased,
  exclusive-IsClosed,
}

module _ (y : SharedDoc) (Doc : Type 0) (live_blame : Doc → List BlameSegment)
    (serialized : y.Doc → Text) where
  pub toggle_blame_off :
      (e : Editor y Doc live_blame)
      → is_enabled Doc live_blame e.blamer.config.live_blame_enabled ≡ true
      → same_mode e.mode blame ≡ false
      → toggle_blame y Doc live_blame false e
        ≡ record e { blamer = toggle Doc live_blame false e.blamer }
  unfolding toggle_blame blame_told
  toggle_blame_off e on away =
      if-holds
        (λ (q : Editor y Doc live_blame).
          q ≡ record e { blamer = toggle Doc live_blame false e.blamer })
        (is_enabled Doc live_blame e.blamer.config.live_blame_enabled) _ _
        (λ _.
          if-holds
            (λ (q : Editor y Doc live_blame).
              q ≡ record e { blamer = toggle Doc live_blame false e.blamer })
            (same_mode e.mode blame) _ _ (λ there. absurd (ground (arith, there, away)))
            (λ _. refl))
        (λ _. refl)

  pub reset-gate :
      (s : SuggestEngine y)
      → s.destroyed ≡ false
      → s.enabled ≡ false
      → gate y (reset_docs y Doc live_blame serialized s) ≡ (false, (false, true))
  reset-gate s kept off =
      ap (λ gone. (s.destroyed, (s.enabled, gone))) (reset-outbound y s.collab)
      ∙ ap₂ (λ d on. (d, (on, true))) kept off

  end_preview_of-IsReleased :
      (m : FeatureMode) (p : Option Text) (e : Editor y Doc live_blame)
      → e.mode ≡ m
      → gate y e.suggester ≡ (false, (false, not (is_some p)))
      → blame_state y Doc live_blame serialized e.blamer ≡ (true, false)
      → e.thread ≡ none
      → e.comments_list_open ≡ false
      → e.suggestions_list_open ≡ false
      → e.previewing ≡ p
      → e.muted ≡ is_some p
      → IsReleased y Doc live_blame serialized m (end_preview_of y Doc live_blame serialized p e)
  unfolding end_preview_of
  end_preview_of-IsReleased m none e now gated blamed a b c d f =
      (now, (inl gated, (blamed, (a, (b, (c, (d, f)))))))
  end_preview_of-IsReleased m (some id) e now gated blamed a b c d f =
      let kept : e.suggester.destroyed ≡ false = ap (λ g. g.0) gated in
      let free =
        if-holds (IsFree y Doc live_blame serialized m) (same_mode e.mode suggest) _ _
          (λ drafts. inr (
            same_mode_suggest m (sym (ap (λ n. same_mode n suggest) now) ∙ drafts),
            resume-gate y Doc live_blame serialized
                (reset_docs y Doc live_blame serialized e.suggester) kept,
          ))
          (λ other. inl (reset-gate e.suggester kept (ap (λ g. g.1.0) gated))) in
      (now, (free, (blamed, (a, (b, (c, (refl, refl)))))))

  -- What was left is released, whichever mode is entered.
  leave-IsReleased :
      (old m : FeatureMode) (e : Editor y Doc live_blame)
      → same_mode old m ≡ false
      → e.mode ≡ m
      → IsExclusiveIn y Doc live_blame serialized old e
      → IsReleased y Doc live_blame serialized m (leave y Doc live_blame serialized old e)
  unfolding leave same_mode
  leave-IsReleased no_mode m e differs now h =
      let closed = exclusive-IsClosed y Doc live_blame serialized no_mode e refl h in
      let (gated, (blamed, rest)) = h in
      let (a, (b, (c, (d, f)))) = closed in
      (now, (inl (gated ∙ ap (λ p. (false, (false, not (is_some p)))) d), (blamed, closed)))
  leave-IsReleased blame m e differs now h =
      let closed = exclusive-IsClosed y Doc live_blame serialized blame e refl h in
      let (gated, (blamed, rest)) = h in
      let (a, (b, (c, (d, f)))) = closed in
      let on = ap (λ s. s.0) blamed in
      let off =
        toggle_blame_off e on (ap (λ n. same_mode n blame) now ∙ same_mode_sym m blame ∙ differs) in
      rw off (
        now,
        (
          inl (gated ∙ ap (λ p. (false, (false, not (is_some p)))) d),
          (toggle-state y Doc live_blame serialized false e.blamer on, closed),
        ),
      )
  leave-IsReleased suggest m e differs now h =
      let closed = exclusive-IsClosed y Doc live_blame serialized suggest e refl h in
      let (gated, (blamed, rest)) = h in
      let drafts = ap (λ g. g.1.0) gated in
      (
        now,
        (
          inl (discard-gate y e.suggester drafts ∙ ap (λ g. (g.0, (false, true))) gated),
          (blamed, closed),
        ),
      )
  leave-IsReleased comments m e differs now (gated, (blamed, (opened, (of_thread, muted)))) =
      end_preview_of-IsReleased m e.previewing
        (record e {
          thread = none;
          coordinator_thread = none;
          comments_list_open = false;
          suggestions_list_open = false;
        })
        now gated blamed refl refl refl refl muted

  -- Entering a mode from another one releases the surface; entering the present one changes nothing.
  pub activate_feature_mode-cases :
      (m : FeatureMode) (e : Editor y Doc live_blame)
      → IsExclusive y Doc live_blame serialized e
      → ((same_mode e.mode m ≡ true) × (activate_feature_mode y Doc live_blame serialized m e ≡ e))
        ⊎ IsReleased y Doc live_blame serialized m
            (activate_feature_mode y Doc live_blame serialized m e)
  unfolding activate_feature_mode
  activate_feature_mode-cases m e h = elim (Bool-cases (same_mode e.mode m)) [
    | inl same ↦ inl (
      same,
      if-holds (λ (q : Editor y Doc live_blame). q ≡ e) (same_mode e.mode m) e _ (λ _. refl)
          (λ other. absurd (ground (arith, same, other))),
    )
    | inr other ↦ inr (
        if-holds (IsReleased y Doc live_blame serialized m) (same_mode e.mode m) e _
          (λ same. absurd (ground (arith, same, other)))
          (λ _. leave-IsReleased e.mode m (record e { mode = m }) other refl h))
  ]
