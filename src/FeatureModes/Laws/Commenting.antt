-- ===== src/FeatureModes/Laws/Commenting.antt =====
-- The handlers of comments, and what comes from peers.
use collab_editor.Prelude.{
  ◌≡◌, refl, ap, ◌∙◌, Bool, true, false, ◌||◌, List, Option, none, some, Text, if◌then◌else◌,
  if-holds, Bool-cases, inl, inr, arith,
}
use collab_editor.Yjs.{SharedDoc}
use collab_editor.Suggest.Engine.{rebase}
use collab_editor.Blame.{BlameSegment}
use collab_editor.Comments.Poll.{CommentThread}
use collab_editor.Replicator.{sync_side, other, receive, Side}
use collab_editor.FeatureModes.{
  FeatureMode, suggest, comments, same_mode, is_some, Editor, activate_feature_mode,
}
use collab_editor.FeatureModes.Release.{rebase-gate, receive-outbound}
use collab_editor.FeatureModes.Exclusive.{IsExclusiveIn, IsExclusive, exclusive-IsClosed}
use collab_editor.FeatureModes.Handlers.{
  Preview, current, with_suggester, end_other_preview, show_thread, shows_preview,
  start_suggestion_preview, preview_thread, open_thread, close_thread,
}
use collab_editor.FeatureModes.Handlers.Panels.{handle_comment_suggestion_accept}
use collab_editor.FeatureModes.Session.{doc_changed}
use collab_editor.FeatureModes.Laws.Drafts.{regated-IsExclusive}
use collab_editor.FeatureModes.Laws.{InMode-Ex, Ex-InMode, enter_comments, maybe_exit-IsExclusive}
use collab_editor.FeatureModes.Laws.Previewing.{
  shown-IsExclusive, other-mode, start_suggestion_preview-IsExclusive,
}

or_first : (a b c : Bool) → (b || c) ≡ true → (a || b || c) ≡ true
or_first true b c h = refl
or_first false b c h = h

module _ (y : SharedDoc) (Doc : Type 0) (live_blame : Doc → List BlameSegment)
    (serialized : y.Doc → Text) where
  abbrev E : Type 0
  E = Editor y Doc live_blame

  abbrev Ex : E → Type 0
  Ex = IsExclusive y Doc live_blame serialized

  abbrev ExIn : FeatureMode → E → Type 0
  ExIn = IsExclusiveIn y Doc live_blame serialized

  start-mode :
      (preview : Preview y) (id : Text) (e : E)
      → (start_suggestion_preview y Doc live_blame serialized preview id e).mode ≡ e.mode
  unfolding start_suggestion_preview
  start-mode preview id e =
      if-holds (λ (q : E). q.mode ≡ e.mode) (shows_preview y Doc live_blame serialized preview) _ e
        (λ _. refl) (λ _. refl)

  pub open_thread-IsExclusive :
      (preview : Preview y) (t : CommentThread) (e : E)
      → Ex e
      → Ex (open_thread y Doc live_blame serialized preview t e)
  unfolding open_thread show_thread preview_thread
  open_thread-IsExclusive preview t e h =
      let a = activate_feature_mode y Doc live_blame serialized comments e in
      let (now, ha) = enter_comments y Doc live_blame serialized e h in
      let s : E = show_thread y Doc live_blame serialized (some t) a in
      let there : s.mode ≡ comments =
        other-mode y Doc live_blame serialized a.previewing (some t) a ∙ now in
      let hs : ExIn comments s =
        shown-IsExclusive y Doc live_blame serialized a.previewing (some t) a now refl ha in
      let started = start_suggestion_preview y Doc live_blame serialized preview t.id s in
      if-holds Ex _ s started (λ _. InMode-Ex y Doc live_blame serialized comments s (there, hs))
        (λ _. InMode-Ex y Doc live_blame serialized comments started (
          start-mode preview t.id s ∙ there,
          start_suggestion_preview-IsExclusive y Doc live_blame serialized preview t s refl hs,
        ))

  -- Where nothing is previewed, no preview is over.
  unshown-IsExclusive :
      (m : FeatureMode) (p : Option Text) (e : E)
      → e.previewing ≡ p
      → p ≡ none
      → ExIn m e
      → ExIn m (record (end_other_preview y Doc live_blame serialized p none e) {
        thread = none;
        coordinator_thread = none;
      })
  unfolding end_other_preview
  unshown-IsExclusive m none e absent q (gated, (blamed, (opened, (of_thread, rest)))) = (
    gated,
    (blamed, ((λ still. opened (or_first (is_some e.thread) _ _ still)), (rw absent tt, rest))),
  )
  unshown-IsExclusive m (some id) e there q h = absurd (ground (arith, q))

  pub close_thread-IsExclusive : (e : E) → Ex e → Ex (close_thread y Doc live_blame serialized e)
  unfolding close_thread show_thread
  close_thread-IsExclusive e h =
      let s : E = show_thread y Doc live_blame serialized none e in
      let mode : s.mode ≡ e.mode = other-mode y Doc live_blame serialized e.previewing none e in
      let shown : Ex s = elim (Bool-cases (same_mode e.mode comments)) [
        | inl same ↦
            let (now, hm) = Ex-InMode y Doc live_blame serialized comments e same h in
            InMode-Ex y Doc live_blame serialized comments s (
              mode ∙ now,
              shown-IsExclusive y Doc live_blame serialized e.previewing none e now refl hm,
            )
        | inr away ↦
            let (a, (b, (c, (d, f)))) =
              exclusive-IsClosed y Doc live_blame serialized e.mode e away h in
            InMode-Ex y Doc live_blame serialized e.mode s
              (mode, unshown-IsExclusive e.mode e.previewing e refl d h)
      ] in
      maybe_exit-IsExclusive y Doc live_blame serialized s shown

  -- An update, from wherever it comes.
  pub doc_changed-IsExclusive :
      (side : Side) (u : y.Update) (e : E)
      → Ex e
      → Ex (doc_changed y Doc live_blame serialized side u e)
  unfolding doc_changed
  doc_changed-IsExclusive side u e h =
      regated-IsExclusive y Doc live_blame serialized
        (record e.suggester { collab = receive y side u other e.suggester.collab }) e
        (ap (λ opened. (e.suggester.destroyed, (e.suggester.enabled, opened)))
          (receive-outbound y side u other e.suggester.collab))
        h

  rebased-IsExclusive :
      (e : E)
      → Ex e
      → Ex (
          if same_mode e.mode suggest
          then with_suggester y Doc live_blame serialized
              (rebase y (current y Doc live_blame serialized e) e.suggester)
              e
          else e)
  rebased-IsExclusive e h =
      let s = rebase y (current y Doc live_blame serialized e) e.suggester in
      if-holds Ex (same_mode e.mode suggest) (with_suggester y Doc live_blame serialized s e) e
        (λ _. regated-IsExclusive y Doc live_blame serialized s e (rebase-gate y _ e.suggester) h)
        (λ _. h)

  pub handle_comment_suggestion_accept-IsExclusive :
      (update : Option y.Update) (e : E)
      → Ex e
      → Ex (handle_comment_suggestion_accept y Doc live_blame serialized update e)
  unfolding handle_comment_suggestion_accept doc_changed
  handle_comment_suggestion_accept-IsExclusive none e h =
      rebased-IsExclusive (close_thread y Doc live_blame serialized e)
        (close_thread-IsExclusive e h)
  handle_comment_suggestion_accept-IsExclusive (some u) e h =
      let closed = close_thread y Doc live_blame serialized e in
      rebased-IsExclusive (doc_changed y Doc live_blame serialized sync_side u closed)
        (doc_changed-IsExclusive sync_side u closed (close_thread-IsExclusive e h))
