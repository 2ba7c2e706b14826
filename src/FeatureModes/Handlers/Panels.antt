-- ===== src/FeatureModes/Handlers/Panels.antt =====
-- The handlers of the panels of comments and suggestions, and the listeners for changes.
use collab_editor.Prelude.{
  Bool, true, false, not, ◌||◌, List, Option, none, some, Text, if◌then◌else◌,
}
use collab_editor.Yjs.{SharedDoc}
use collab_editor.Replicator.{sync_side, other, receive}
use collab_editor.Suggest.Engine.{rebase, has_pending_changes}
use collab_editor.Blame.{BlameSegment}
use collab_editor.Comments.Poll.{CommentThread}
use collab_editor.FeatureModes.{
  suggest, comments, same_mode, is_some, Editor, activate_feature_mode, maybe_exit_comments_mode,
}
use collab_editor.FeatureModes.Handlers.{
  Preview, close_thread, current, id_of, is_thread, open_thread, with_suggester,
}

module _ (y : SharedDoc) (Doc : Type 0) (live_blame : Doc → List BlameSegment)
    (serialized : y.Doc → Text) where
  -- What the version coordinator and a change of the attribute tell the binding, which a preview uses,
  -- too: a version is viewed, its view is over, or the attribute is set.
  unfoldable pub view_version : Editor y Doc live_blame → Editor y Doc live_blame
  view_version e = record e { shown_readonly = true }

  unfoldable pub end_version_view : Bool → Editor y Doc live_blame → Editor y Doc live_blame
  end_version_view flag e = record e { shown_readonly = flag }

  unfoldable pub set_readonly : Bool → Editor y Doc live_blame → Editor y Doc live_blame
  set_readonly flag e = record e { readonly = flag; shown_readonly = flag }

  -- The listener for changes of the content.
  unfoldable pub content_changed : Editor y Doc live_blame → Editor y Doc live_blame
  content_changed e = if is_some e.previewing || not e.suggester.enabled then e else record e {
    suggest_pending = has_pending_changes y (current y Doc live_blame serialized e) e.suggester;
  }

  unfoldable pub handle_pending_suggestion_activate :
      Preview y → CommentThread → Editor y Doc live_blame → Editor y Doc live_blame
  handle_pending_suggestion_activate preview t e =
      open_thread y Doc live_blame serialized preview t (record e { suggestions_list_open = false })

  unfoldable pub handle_resolved_thread_activate :
      Preview y → CommentThread → Editor y Doc live_blame → Editor y Doc live_blame
  handle_resolved_thread_activate preview t e =
      open_thread y Doc live_blame serialized preview t (record e { comments_list_open = false })

  unfoldable pub handle_comments_list_toggle : Editor y Doc live_blame → Editor y Doc live_blame
  handle_comments_list_toggle e = maybe_exit_comments_mode y Doc live_blame (
      if e.comments_list_open
      then record e { comments_list_open = false }
      else record (activate_feature_mode y Doc live_blame serialized comments e) {
        comments_list_open = true;
        suggestions_list_open = false;
      })

  unfoldable pub handle_suggestions_list_toggle : Editor y Doc live_blame → Editor y Doc live_blame
  handle_suggestions_list_toggle e = maybe_exit_comments_mode y Doc live_blame (
      if e.suggestions_list_open
      then record e { suggestions_list_open = false }
      else record (activate_feature_mode y Doc live_blame serialized comments e) {
        suggestions_list_open = true;
        comments_list_open = false;
      })

  unfoldable pub handle_comments_list_close : Editor y Doc live_blame → Editor y Doc live_blame
  handle_comments_list_close e =
      maybe_exit_comments_mode y Doc live_blame (record e { comments_list_open = false })

  unfoldable pub handle_suggestions_list_close : Editor y Doc live_blame → Editor y Doc live_blame
  handle_suggestions_list_close e =
      maybe_exit_comments_mode y Doc live_blame (record e { suggestions_list_open = false })

  -- The listener for changes of threads: the open thread as it is now, if it is there still.
  unfoldable pub threads_changed :
      Option CommentThread → Editor y Doc live_blame → Editor y Doc live_blame
  threads_changed fresh e = if is_some e.thread then record e { thread = fresh } else e

  -- The comment engine tells its listeners of the deletion before the handler goes on.
  unfoldable pub handle_comment_thread_delete :
      Text → Editor y Doc live_blame → Editor y Doc live_blame
  handle_comment_thread_delete id e =
      let told = if is_thread (id_of e.thread) id then threads_changed none e else e in
      if is_thread (id_of told.thread) id
      then close_thread y Doc live_blame serialized told
      else told

  -- The change of the shared text, if one can be applied. The decision on the thread is told by
  -- `threads_changed`.
  unfoldable pub handle_comment_suggestion_accept :
      Option y.Update → Editor y Doc live_blame → Editor y Doc live_blame
  handle_comment_suggestion_accept update e =
      let closed = close_thread y Doc live_blame serialized e in
      let accepted = elim update as (λ u. Editor y Doc live_blame) [
        | none ↦ closed
        | some u ↦
            with_suggester y Doc live_blame serialized
              (record closed.suggester {
                collab = receive y sync_side u other closed.suggester.collab;
              })
              closed
      ] in
      if same_mode accepted.mode suggest
      then with_suggester y Doc live_blame serialized
          (rebase y (current y Doc live_blame serialized accepted) accepted.suggester) accepted
      else accepted
