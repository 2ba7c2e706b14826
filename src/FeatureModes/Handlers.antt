-- ===== src/FeatureModes/Handlers.antt =====
-- The thread that is open, and the preview of its suggestion. `Preview` is what comes of applying a
-- suggestion to the text of the editor: its anchor is lost, or it changes the text or nothing.
pub mod Suggesting
pub mod Panels
use collab_editor.Prelude.{
  Bool, true, false, not, ◌&&◌, ◌||◌, List, [], ◌∷◌, ◌++◌, Option, none, some, Text, text_eq,
  if◌then◌else◌,
}
use collab_editor.Interfaces.{Suggestion, SuggestionStatus, pending}
use collab_editor.Yjs.{SharedDoc}
use collab_editor.Replicator.{Replicator, sync_side, editor_side, other, receive}
use collab_editor.Suggest.{Built, built, failed}
use collab_editor.Suggest.Engine.{
  SuggestEngine, enable, disable, discard, commit, rebase, has_pending_changes,
}
use collab_editor.Blame.{BlameSegment}
use collab_editor.Comments.Poll.{CommentThread}
use collab_editor.FeatureModes.{
  no_mode, blame, suggest, comments, same_mode, is_some, Editor, toggle_blame, set_outbound,
  end_preview, activate_feature_mode, maybe_exit_comments_mode,
}

pub data Preview (y : SharedDoc) : Type 0 where
  no_anchor unchanged : Preview y
  changes : y.Update → Preview y

abbrev pub is_pending_status : SuggestionStatus → Bool
is_pending_status pending = true
is_pending_status _ = false

abbrev pub is_pending : Option Suggestion → Bool
is_pending none = false
is_pending (some s) = is_pending_status s.status

abbrev pub is_thread : Option Text → Text → Bool
is_thread none id = false
is_thread (some t) id = text_eq t id

abbrev pub id_of : Option CommentThread → Option Text
id_of none = none
id_of (some t) = some t.id

module _ (y : SharedDoc) (Doc : Type 0) (live_blame : Doc → List BlameSegment)
    (serialized : y.Doc → Text) where
  -- `getCurrentSerialized` of the binding.
  abbrev pub current : Editor y Doc live_blame → Text
  current e = serialized e.suggester.collab.editor_doc

  abbrev pub with_suggester : SuggestEngine y → Editor y Doc live_blame → Editor y Doc live_blame
  with_suggester s e = record e { suggester = s }

  abbrev pub preview_collab : Preview y → Replicator y → Replicator y
  preview_collab (changes u) r = receive y editor_side u other r
  preview_collab _ r = r

  abbrev pub shows_preview : Preview y → Bool
  shows_preview no_anchor = false
  shows_preview _ = true

  unfoldable pub start_suggestion_preview :
      Preview y → Text → Editor y Doc live_blame → Editor y Doc live_blame
  start_suggestion_preview preview id e =
      let gated = set_outbound y Doc live_blame false e.suggester in
      if shows_preview preview
      then record e {
        suggester = record gated { collab = preview_collab preview gated.collab };
        muted = true;
        shown_readonly = true;
        previewing = some id;
      }
      else e

  -- A preview of another thread is over.
  unfoldable pub end_other_preview :
      Option Text → Option CommentThread → Editor y Doc live_blame → Editor y Doc live_blame
  end_other_preview none thread e = e
  end_other_preview (some id) thread e =
      if is_thread (id_of thread) id then e else end_preview y Doc live_blame serialized e

  unfoldable pub show_thread :
      Option CommentThread → Editor y Doc live_blame → Editor y Doc live_blame
  show_thread thread e =
      let shown = end_other_preview e.previewing thread e in
      record shown { thread = thread; coordinator_thread = id_of thread }

  unfoldable pub preview_thread :
      Preview y → CommentThread → Editor y Doc live_blame → Editor y Doc live_blame
  preview_thread preview t e =
      if not (is_pending t.suggestion)
        || is_thread e.previewing t.id
        || (same_mode e.mode suggest && has_pending_changes y (current e) e.suggester)
      then e
      else start_suggestion_preview preview t.id e

  -- `_setActiveCommentThread`, with a thread and with `null`.
  unfoldable pub open_thread :
      Preview y → CommentThread → Editor y Doc live_blame → Editor y Doc live_blame
  open_thread preview t e =
      preview_thread preview t
        (show_thread (some t) (activate_feature_mode y Doc live_blame serialized comments e))

  unfoldable pub close_thread : Editor y Doc live_blame → Editor y Doc live_blame
  close_thread e = maybe_exit_comments_mode y Doc live_blame (show_thread none e)
