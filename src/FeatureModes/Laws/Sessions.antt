-- ===== src/FeatureModes/Laws/Sessions.antt =====
-- A session keeps the modes exclusive.
use collab_editor.Prelude.{List, [], ◌∷◌, some, Text, if-holds, ◌≡◌, true, not, ◌||◌, ap, ◌∙◌}
use collab_editor.Yjs.{SharedDoc}
use collab_editor.Blame.{BlameSegment}
use collab_editor.Replicator.{editor_side}
use collab_editor.Replicator.Delivery.{receive-closed}
use collab_editor.FeatureModes.{suggest, same_mode, Editor, is_some}
use collab_editor.FeatureModes.Exclusive.{IsExclusive}
use collab_editor.FeatureModes.Handlers.{is_thread, id_of}
use collab_editor.FeatureModes.Handlers.Suggesting.{
  handle_suggest_note_cancel, handle_suggest_discard,
}
use collab_editor.FeatureModes.Handlers.Panels.{
  view_version, end_version_view, set_readonly, handle_pending_suggestion_activate,
  handle_resolved_thread_activate, handle_comments_list_close, handle_suggestions_list_close,
  threads_changed,
}
use collab_editor.FeatureModes.Session.{
  Event, blame_toggled, suggest_submitted, note_cancelled, discarded, edited, panel_closed,
  comments_list_toggled, suggestions_list_toggled, comments_list_closed, suggestions_list_closed,
  suggest_toggled, note_confirmed, thread_activated, pending_activated, resolved_activated,
  accepted, thread_refreshed, received, version_viewed, version_exited, readonly_set, step, run,
  doc_changed,
}
use collab_editor.FeatureModes.Laws.Commenting.{
  open_thread-IsExclusive, close_thread-IsExclusive, doc_changed-IsExclusive,
  handle_comment_suggestion_accept-IsExclusive,
}
use collab_editor.FeatureModes.Laws.Panels.{
  comments_closed-IsExclusive, suggestions_closed-IsExclusive,
  handle_comments_list_toggle-IsExclusive, handle_suggestions_list_toggle-IsExclusive,
  content_changed-IsExclusive, handle_suggest_submit-IsExclusive, threads_changed-IsExclusive,
}
use collab_editor.FeatureModes.Laws.Toggles.{handle_blame_toggle-IsExclusive}
use collab_editor.FeatureModes.Laws.Suggesting.{handle_suggest_toggle-IsExclusive}
use collab_editor.FeatureModes.Laws.Drafts.{
  handle_suggest_discard-IsExclusive, handle_suggest_note_confirm-IsExclusive,
}
use collab_editor.FeatureModes.Laws.{Ex-InMode, maybe_exit-IsExclusive}

module _ (y : SharedDoc) (Doc : Type 0) (live_blame : Doc → List BlameSegment)
    (serialized : y.Doc → Text) where
  abbrev E : Type 0
  E = Editor y Doc live_blame

  abbrev Ex : E → Type 0
  Ex = IsExclusive y Doc live_blame serialized

  step-IsExclusive :
      (event : Event y) (e : E) → Ex e → Ex (step y Doc live_blame serialized event e)
  unfolding step handle_suggest_note_cancel view_version end_version_view set_readonly
      handle_pending_suggestion_activate handle_resolved_thread_activate handle_comments_list_close
      handle_suggestions_list_close
  step-IsExclusive blame_toggled e h =
      handle_blame_toggle-IsExclusive y Doc live_blame serialized e h
  step-IsExclusive (suggest_toggled submits) e h =
      handle_suggest_toggle-IsExclusive y Doc live_blame serialized submits e h
  step-IsExclusive suggest_submitted e h =
      handle_suggest_submit-IsExclusive y Doc live_blame serialized e h
  step-IsExclusive (note_confirmed author_note) e h =
      handle_suggest_note_confirm-IsExclusive y Doc live_blame serialized author_note e h
  step-IsExclusive note_cancelled e h = h
  step-IsExclusive discarded e h =
      if-holds Ex (same_mode e.mode suggest) (handle_suggest_discard y Doc live_blame serialized e)
        e
        (λ there.
          let (now, hm) = Ex-InMode y Doc live_blame serialized suggest e there h in
          handle_suggest_discard-IsExclusive y Doc live_blame serialized e hm now)
        (λ _. h)
  step-IsExclusive edited e h = content_changed-IsExclusive y Doc live_blame serialized e h
  step-IsExclusive (thread_activated preview t) e h =
      open_thread-IsExclusive y Doc live_blame serialized preview t e h
  step-IsExclusive (pending_activated preview t) e h =
      open_thread-IsExclusive y Doc live_blame serialized preview t _
        (suggestions_closed-IsExclusive y Doc live_blame serialized e h)
  step-IsExclusive (resolved_activated preview t) e h =
      open_thread-IsExclusive y Doc live_blame serialized preview t _
        (comments_closed-IsExclusive y Doc live_blame serialized e h)
  step-IsExclusive panel_closed e h = close_thread-IsExclusive y Doc live_blame serialized e h
  step-IsExclusive comments_list_toggled e h =
      handle_comments_list_toggle-IsExclusive y Doc live_blame serialized e h
  step-IsExclusive suggestions_list_toggled e h =
      handle_suggestions_list_toggle-IsExclusive y Doc live_blame serialized e h
  step-IsExclusive comments_list_closed e h =
      maybe_exit-IsExclusive y Doc live_blame serialized _
        (comments_closed-IsExclusive y Doc live_blame serialized e h)
  step-IsExclusive suggestions_list_closed e h =
      maybe_exit-IsExclusive y Doc live_blame serialized _
        (suggestions_closed-IsExclusive y Doc live_blame serialized e h)
  step-IsExclusive (accepted update) e h =
      handle_comment_suggestion_accept-IsExclusive y Doc live_blame serialized update e h
  step-IsExclusive (thread_refreshed t) e h =
      if-holds Ex (is_thread (id_of e.thread) t.id)
        (threads_changed y Doc live_blame serialized (some t) e) e
        (λ same. threads_changed-IsExclusive y Doc live_blame serialized t e same h) (λ _. h)
  step-IsExclusive version_viewed e h = h
  step-IsExclusive (version_exited flag) e h = h
  step-IsExclusive (readonly_set flag) e h = h
  step-IsExclusive (received side update) e h =
      doc_changed-IsExclusive y Doc live_blame serialized side update e h

  pub run-IsExclusive :
      (events : List (Event y)) (e : E) → Ex e → Ex (run y Doc live_blame serialized events e)
  unfolding run
  run-IsExclusive [] e h = h
  run-IsExclusive (event ∷ events) e h =
      run-IsExclusive events (step y Doc live_blame serialized event e) (step-IsExclusive event e h)

  -- After any such session, what is typed in suggest mode or while a suggestion is previewed changes
  -- the editor's document and leaves the one that the peers share as it is.
  pub step-run :
      (events : List (Event y)) (u : y.Update) (e : E)
      → Ex e
      → (same_mode (run y Doc live_blame serialized events e).mode suggest
          || is_some (run y Doc live_blame serialized events e).previewing)
        ≡ true
      → ((step y Doc live_blame serialized
            (received editor_side u)
            (run y Doc live_blame serialized events e)).suggester.collab.sync_doc
          ≡ (run y Doc live_blame serialized events e).suggester.collab.sync_doc)
        × ((step y Doc live_blame serialized
              (received editor_side u)
              (run y Doc live_blame serialized events e)).suggester.collab.editor_doc
            ≡ y.apply_update u
                (run y Doc live_blame serialized events e).suggester.collab.editor_doc)
  unfolding step doc_changed
  step-run events u e h hidden =
      let s = run y Doc live_blame serialized events e in
      receive-closed y u s.suggester.collab
        (ap (λ g. g.1.1) (run-IsExclusive events e h).0 ∙ ap not hidden)
