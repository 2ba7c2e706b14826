-- ===== src/FeatureModes/Session.antt =====
-- What the user and the peers do to the editor, as the toolbar and the panels allow it: the buttons for
-- blame and suggest mode send the opposite of the present state, and the one that discards
-- suggestions is shown in suggest mode only. A thread that is open and deleted is left out. What a
-- version writes into the document, where it is empty, arrives as any update does.
use collab_editor.Prelude.{Bool, not, List, [], ◌∷◌, Option, some, Text, if◌then◌else◌}
use collab_editor.Yjs.{SharedDoc}
use collab_editor.Replicator.{other, receive, Side}
use collab_editor.Blame.{BlameSegment}
use collab_editor.Comments.Poll.{CommentThread}
use collab_editor.FeatureModes.{blame, suggest, same_mode, Editor}
use collab_editor.FeatureModes.Handlers.{Preview, is_thread, id_of, open_thread, close_thread}
use collab_editor.FeatureModes.Handlers.Suggesting.{
  handle_blame_toggle, handle_suggest_toggle, handle_suggest_submit, handle_suggest_note_confirm,
  handle_suggest_note_cancel, handle_suggest_discard,
}
use collab_editor.FeatureModes.Handlers.Panels.{
  view_version, end_version_view, set_readonly, content_changed, handle_pending_suggestion_activate,
  handle_resolved_thread_activate, handle_comments_list_toggle, handle_suggestions_list_toggle,
  handle_comments_list_close, handle_suggestions_list_close, threads_changed,
  handle_comment_suggestion_accept,
}

pub data Event (y : SharedDoc) : Type 0 where
  blame_toggled suggest_submitted note_cancelled discarded edited panel_closed : Event y
  comments_list_toggled suggestions_list_toggled comments_list_closed suggestions_list_closed :
      Event y
  suggest_toggled : Bool → Event y
  note_confirmed : Option Text → Event y
  thread_activated pending_activated resolved_activated : Preview y → CommentThread → Event y
  accepted : Option y.Update → Event y
  thread_refreshed : CommentThread → Event y
  received : Side → y.Update → Event y
  version_viewed : Event y
  version_exited readonly_set : Bool → Event y

module _ (y : SharedDoc) (Doc : Type 0) (live_blame : Doc → List BlameSegment)
    (serialized : y.Doc → Text) where
  -- An update that is typed into the editor, or comes from a peer.
  unfoldable pub doc_changed : Side → y.Update → Editor y Doc live_blame → Editor y Doc live_blame
  doc_changed side update e = record e {
    suggester = record e.suggester { collab = receive y side update other e.suggester.collab };
  }

  unfoldable pub step : Event y → Editor y Doc live_blame → Editor y Doc live_blame
  step blame_toggled e =
      handle_blame_toggle y Doc live_blame serialized (not (same_mode e.mode blame)) e
  step (suggest_toggled submits) e =
      handle_suggest_toggle y Doc live_blame serialized (not (same_mode e.mode suggest)) submits e
  step suggest_submitted e = handle_suggest_submit y Doc live_blame serialized e
  step (note_confirmed author_note) e =
      handle_suggest_note_confirm y Doc live_blame serialized author_note e
  step note_cancelled e = handle_suggest_note_cancel y Doc live_blame serialized e
  step discarded e =
      if same_mode e.mode suggest then handle_suggest_discard y Doc live_blame serialized e else e
  step edited e = content_changed y Doc live_blame serialized e
  step (thread_activated preview t) e = open_thread y Doc live_blame serialized preview t e
  step (pending_activated preview t) e =
      handle_pending_suggestion_activate y Doc live_blame serialized preview t e
  step (resolved_activated preview t) e =
      handle_resolved_thread_activate y Doc live_blame serialized preview t e
  step panel_closed e = close_thread y Doc live_blame serialized e
  step comments_list_toggled e = handle_comments_list_toggle y Doc live_blame serialized e
  step suggestions_list_toggled e = handle_suggestions_list_toggle y Doc live_blame serialized e
  step comments_list_closed e = handle_comments_list_close y Doc live_blame serialized e
  step suggestions_list_closed e = handle_suggestions_list_close y Doc live_blame serialized e
  step (accepted update) e = handle_comment_suggestion_accept y Doc live_blame serialized update e
  step (thread_refreshed t) e =
      if is_thread (id_of e.thread) t.id
      then threads_changed y Doc live_blame serialized (some t) e
      else e
  step (received side update) e = doc_changed side update e
  step version_viewed e = view_version y Doc live_blame serialized e
  step (version_exited flag) e = end_version_view y Doc live_blame serialized flag e
  step (readonly_set flag) e = set_readonly y Doc live_blame serialized flag e

  unfoldable pub run : List (Event y) → Editor y Doc live_blame → Editor y Doc live_blame
  run [] e = e
  run (event ∷ events) e = run events (step event e)
