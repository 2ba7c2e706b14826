-- ===== src/FeatureModes/Laws.antt =====
-- Every handler keeps the modes exclusive.
pub mod Previewing
pub mod Toggles
pub mod Suggesting
pub mod Drafts
pub mod Commenting
pub mod Panels
pub mod Sessions
use collab_editor.Prelude.{
  ◌≡◌, refl, sym, ap, ap₂, ◌∙◌, ◌⊎◌, Bool, true, false, not, ◌&&◌, ◌||◌, List, [], ◌∷◌, ◌++◌,
  Option, none, some, Text, text_eq, text_eq_sound, if◌then◌else◌, if-holds, Bool-cases,
  Option-cases, inl, inr, arith,
}
use collab_editor.Yjs.{SharedDoc}
use collab_editor.Suggest.Engine.{SuggestEngine, enable}
use collab_editor.Blame.{BlameSegment}
use collab_editor.Blame.Coordinator.{is_enabled, toggle}
use collab_editor.Comments.Poll.{CommentThread}
use collab_editor.Replicator.{editor_side, sync_side, other, receive}
use collab_editor.FeatureModes.{
  FeatureMode, no_mode, blame, suggest, comments, same_mode, is_some, Editor, blame_told,
  toggle_blame, set_outbound, reset_docs, end_preview_of, end_preview, activate_feature_mode,
  maybe_exit_comments_mode,
}
use collab_editor.FeatureModes.Release.{gate, receive-outbound, blame_state, toggle-state}
use collab_editor.FeatureModes.Leaving.{toggle_blame_off, reset-gate, activate_feature_mode-cases}
use collab_editor.FeatureModes.Exclusive.{
  same_mode_sym, same_mode_refl, Previews, Previews-none, or3_false, IsExclusiveIn, IsExclusive,
  IsReleased,
}
use collab_editor.FeatureModes.Handlers.{
  Preview, no_anchor, unchanged, changes, is_thread, id_of, current, preview_collab, shows_preview,
  start_suggestion_preview, end_other_preview, show_thread, preview_thread, open_thread,
  close_thread,
}

pub same_mode_eq : (a b : FeatureMode) → same_mode a b ≡ true → a ≡ b
unfolding same_mode
same_mode_eq no_mode no_mode h = refl
same_mode_eq blame blame h = refl
same_mode_eq suggest suggest h = refl
same_mode_eq comments comments h = refl
same_mode_eq no_mode blame h = absurd (ground (arith, h))
same_mode_eq no_mode suggest h = absurd (ground (arith, h))
same_mode_eq no_mode comments h = absurd (ground (arith, h))
same_mode_eq blame no_mode h = absurd (ground (arith, h))
same_mode_eq blame suggest h = absurd (ground (arith, h))
same_mode_eq blame comments h = absurd (ground (arith, h))
same_mode_eq suggest no_mode h = absurd (ground (arith, h))
same_mode_eq suggest blame h = absurd (ground (arith, h))
same_mode_eq suggest comments h = absurd (ground (arith, h))
same_mode_eq comments no_mode h = absurd (ground (arith, h))
same_mode_eq comments blame h = absurd (ground (arith, h))
same_mode_eq comments suggest h = absurd (ground (arith, h))

exits :
    (a : Bool) (o : Option CommentThread) (b c : Bool)
    → (a && not (is_some o) && not b && not c) ≡ true
    → (a ≡ true) × ((o ≡ none) × ((b ≡ false) × (c ≡ false)))
exits true none false false h = (refl, (refl, (refl, refl)))
exits true none false true h = absurd (ground (arith, h))
exits true none true c h = absurd (ground (arith, h))
exits true (some t) b c h = absurd (ground (arith, h))
exits false o b c h = absurd (ground (arith, h))

or_false : (b : Bool) → (b || false) ≡ b
or_false true = refl
or_false false = refl

module _ (y : SharedDoc) (Doc : Type 0) (live_blame : Doc → List BlameSegment)
    (serialized : y.Doc → Text) where
  abbrev E : Type 0
  E = Editor y Doc live_blame

  pub IsExclusive-in :
      (m n : FeatureMode) (e : E)
      → m ≡ n
      → IsExclusiveIn y Doc live_blame serialized m e
      → IsExclusiveIn y Doc live_blame serialized n e
  IsExclusive-in m n e same h = rw⁻¹ same h

  abbrev pub InMode : FeatureMode → E → Type 0
  InMode m e = (e.mode ≡ m) × IsExclusiveIn y Doc live_blame serialized m e

  pub InMode-Ex : (m : FeatureMode) (e : E) → InMode m e → IsExclusive y Doc live_blame serialized e
  InMode-Ex m e (now, h) = IsExclusive-in m e.mode e (sym now) h

  pub Ex-InMode :
      (m : FeatureMode) (e : E)
      → same_mode e.mode m ≡ true
      → IsExclusive y Doc live_blame serialized e
      → InMode m e
  Ex-InMode m e same h =
      let now = same_mode_eq e.mode m same in (now, IsExclusive-in e.mode m e now h)

  -- Without a preview.
  pub plain-IsExclusive :
      (m : FeatureMode) (e : E)
      → gate y e.suggester ≡ (false, (same_mode m suggest, not (same_mode m suggest)))
      → blame_state y Doc live_blame serialized e.blamer ≡ (true, same_mode m blame)
      → (((is_some e.thread || e.comments_list_open || e.suggestions_list_open) ≡ true)
          → same_mode m comments ≡ true)
      → e.previewing ≡ none
      → e.muted ≡ false
      → IsExclusiveIn y Doc live_blame serialized m e
  plain-IsExclusive m e gated blamed opened absent muted =
      let drafts : (same_mode m suggest || is_some e.previewing) ≡ same_mode m suggest =
        rw absent (or_false (same_mode m suggest)) in
      (
        gated ∙ ap (λ b. (false, (same_mode m suggest, not b))) (sym drafts),
        (blamed, (opened, (rw absent tt, muted ∙ sym (ap is_some absent)))),
      )

  -- In comments mode, whichever mode it was before.
  pub enter_comments :
      (e : E)
      → IsExclusive y Doc live_blame serialized e
      → ((activate_feature_mode y Doc live_blame serialized comments e).mode ≡ comments)
        × IsExclusiveIn y Doc live_blame serialized comments
            (activate_feature_mode y Doc live_blame serialized comments e)
  unfolding same_mode
  enter_comments e h = elim (activate_feature_mode-cases y Doc live_blame serialized comments e h) [
    | inl (same, stays) ↦
        let there = same_mode_eq e.mode comments same in
        rw stays (there, IsExclusive-in e.mode comments e there h)
    | inr (now, (free, (blamed, (a, (b, (c, (d, f))))))) ↦
        let gated =
          elim free
            as (λ _.
              gate y (activate_feature_mode y Doc live_blame serialized comments e).suggester
              ≡ (false, (false, true))) [
                | inl released ↦ released
                | inr (drafts, on) ↦ absurd (ground (arith, ap (λ n. same_mode n suggest) drafts))
              ] in
        (
          now,
          plain-IsExclusive comments (activate_feature_mode y Doc live_blame serialized comments e)
              gated blamed (λ _. refl) d f,
        )
  ]

  pub maybe_exit-IsExclusive :
      (e : E)
      → IsExclusive y Doc live_blame serialized e
      → IsExclusive y Doc live_blame serialized (maybe_exit_comments_mode y Doc live_blame e)
  unfolding maybe_exit_comments_mode same_mode
  maybe_exit-IsExclusive e h =
      if-holds (IsExclusive y Doc live_blame serialized) _ (record e { mode = no_mode }) e
        (λ exit.
          let (there, (a, (b, c))) = exits (same_mode e.mode comments) e.thread _ _ exit in
          let (gated, (blamed, (opened, (of_thread, muted)))) =
            IsExclusive-in e.mode comments e (same_mode_eq e.mode comments there) h in
          let d = Previews-none e.previewing (rw a at of_thread) in
          plain-IsExclusive no_mode (record e { mode = no_mode })
            (gated ∙ ap (λ p. (false, (false, not (is_some p)))) d) blamed
            (λ some_open. absurd (ground (arith, rw (a, b, c) at some_open))) d
            (muted ∙ ap is_some d))
        (λ _. h)
