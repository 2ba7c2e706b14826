-- ===== src/FeatureModes/Handlers/Suggesting.antt =====
-- The handlers of the buttons for blame and suggest mode. `submits` is what the user answers to the
-- question on pending suggestions.
use collab_editor.Prelude.{
  Bool, true, false, not, List, [], ◌∷◌, ◌++◌, Option, none, Text, if◌then◌else◌,
}
use collab_editor.Yjs.{SharedDoc}
use collab_editor.Suggest.{Built, built, failed}
use collab_editor.Suggest.Engine.{
  SuggestEngine, enable, disable, discard, commit, has_pending_changes,
}
use collab_editor.Blame.{BlameSegment}
use collab_editor.FeatureModes.{
  no_mode, blame, suggest, same_mode, Editor, toggle_blame, activate_feature_mode,
}
use collab_editor.FeatureModes.Handlers.{current, with_suggester}

module _ (y : SharedDoc) (Doc : Type 0) (live_blame : Doc → List BlameSegment)
    (serialized : y.Doc → Text) where
  unfoldable pub handle_blame_toggle : Bool → Editor y Doc live_blame → Editor y Doc live_blame
  handle_blame_toggle active e =
      toggle_blame y Doc live_blame active
        (if active then activate_feature_mode y Doc live_blame serialized blame e else e)

  -- An error is caught. The one of the suggest engine is thrown before anything has changed, the one of
  -- the comment engine when the suggest engine has left its mode already.
  unfoldable pub committed_as :
      SuggestEngine y → Built → Editor y Doc live_blame → Editor y Doc live_blame
  committed_as s (failed error) e = with_suggester y Doc live_blame serialized s e
  committed_as s (built payload) e =
      if e.takes payload
      then record e {
        suggester = s;
        committed = e.committed ++ payload ∷ [];
        suggest_pending = false;
      }
      else with_suggester y Doc live_blame serialized s e

  unfoldable pub commit_pending_suggestion :
      Option Text → Editor y Doc live_blame → Editor y Doc live_blame
  commit_pending_suggestion author_note e =
      let (s, answer) = commit y author_note (current y Doc live_blame serialized e) e.suggester in
      if not (has_pending_changes y (current y Doc live_blame serialized e) e.suggester)
      then e
      else committed_as s answer e

  unfoldable pub start_suggesting : Editor y Doc live_blame → Editor y Doc live_blame
  start_suggesting e = record e {
    suggester = enable y (current y Doc live_blame serialized e) e.suggester;
    coordinator_suggest = e.suggest_available;
  }

  unfoldable pub stop_suggesting : Editor y Doc live_blame → Editor y Doc live_blame
  stop_suggesting e = record e {
    mode = no_mode;
    suggest_pending = false;
    coordinator_suggest = false;
  }

  unfoldable pub handle_suggest_toggle :
      Bool → Bool → Editor y Doc live_blame → Editor y Doc live_blame
  handle_suggest_toggle true submits e =
      start_suggesting (activate_feature_mode y Doc live_blame serialized suggest e)
  handle_suggest_toggle false submits e = stop_suggesting (
      if has_pending_changes y (current y Doc live_blame serialized e) e.suggester
      then if submits
        then commit_pending_suggestion none e
        else with_suggester y Doc live_blame serialized (discard y e.suggester) e
      else with_suggester y Doc live_blame serialized (disable y e.suggester) e)

  unfoldable pub handle_suggest_submit : Editor y Doc live_blame → Editor y Doc live_blame
  handle_suggest_submit e =
      if not (has_pending_changes y (current y Doc live_blame serialized e) e.suggester)
      then e
      else record e { note_open = true }

  unfoldable pub enable_if_suggesting : Editor y Doc live_blame → Editor y Doc live_blame
  enable_if_suggesting e =
      if same_mode e.mode suggest
      then with_suggester y Doc live_blame serialized
          (enable y (current y Doc live_blame serialized e) e.suggester) e
      else e

  unfoldable pub handle_suggest_note_confirm :
      Option Text → Editor y Doc live_blame → Editor y Doc live_blame
  handle_suggest_note_confirm author_note e =
      enable_if_suggesting (commit_pending_suggestion author_note (record e { note_open = false }))

  unfoldable pub handle_suggest_note_cancel : Editor y Doc live_blame → Editor y Doc live_blame
  handle_suggest_note_cancel e = record e { note_open = false }

  unfoldable pub handle_suggest_discard : Editor y Doc live_blame → Editor y Doc live_blame
  handle_suggest_discard e =
      let discarded = with_suggester y Doc live_blame serialized (discard y e.suggester) e in
      record discarded {
        suggester = enable y (current y Doc live_blame serialized discarded) discarded.suggester;
        suggest_pending = false;
      }
