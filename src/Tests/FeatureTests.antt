-- ===== src/Tests/FeatureTests.antt =====
-- Sessions of the editor with its modes, over toy documents that are sets of changes.
use collab_editor.Prelude.{
  ◌≡◌, refl, Bool, true, false, List, [], ◌∷◌, none, some, Text, text, text_eq, if◌then◌else◌,
}
use collab_editor.Interfaces.{Suggestion, pending, opened, pos}
use collab_editor.Replicator.{sync_side, editor_side, new_replicator}
use collab_editor.Suggest.Engine.{new_engine}
use collab_editor.Blame.{BlameSegment}
use collab_editor.Blame.Coordinator.{BlameCoordinator, new_blame_coordinator}
use collab_editor.Comments.Poll.{CommentThread}
use collab_editor.FeatureModes.{no_mode, Editor, same_mode, activate_feature_mode, leave}
use collab_editor.FeatureModes.Handlers.{
  changes, open_thread, preview_thread, show_thread, end_other_preview, start_suggestion_preview,
}
use collab_editor.FeatureModes.Handlers.Panels.{handle_comment_thread_delete, threads_changed}
use collab_editor.FeatureModes.Session.{
  Event, blame_toggled, suggest_toggled, discarded, comments_list_toggled, thread_activated,
  accepted, received, step, run,
}
use collab_editor.FeatureModes.Laws.Sessions.{step-run}
use collab_editor.Tests.Models.{change_set, only}

abbrev no_blame : Bool → List BlameSegment
no_blame doc = []

-- The first change decides on the text.
abbrev shown_text : change_set.Doc → Text
shown_text doc = if doc 1 then text "the dog" else text "the cat"

abbrev fresh_blamer : BlameCoordinator Bool no_blame
fresh_blamer = record (new_blame_coordinator Bool no_blame false) {
  config = record { live_blame_enabled = some true; version_blame_enabled = none };
}

abbrev fresh_editor : Editor change_set Bool no_blame
fresh_editor = record {
  mode = no_mode;
  blamer = fresh_blamer;
  suggester = new_engine change_set (new_replicator change_set (λ _. false) (λ _. false) 0);
  suggest_pending = false;
  suggest_available = true;
  note_open = false;
  thread = none;
  comments_list_open = false;
  suggestions_list_open = false;
  previewing = none;
  readonly = false;
  shown_readonly = false;
  muted = false;
  coordinator_thread = none;
  coordinator_suggest = false;
  committed = [];
  takes = λ payload. true;
}

abbrev proposal : Suggestion
proposal = record {
  yjs_payload = none;
  human_readable = record {
    summary = [];
    before_text = text "cat";
    after_text = text "dog";
    operations = [];
  };
  author_id = text "u";
  author_name = text "Uma";
  author_note = none;
  status = pending;
  decided_by = none;
  decided_by_name = none;
  decided_at = none;
  applied_version_id = none;
}

abbrev proposed : CommentThread
proposed = record {
  id = text "t";
  anchor = record { start = pos 4; end = pos 7; quoted_text = text "cat" };
  status = opened;
  created_at = text "now";
  resolved_at = none;
  resolved_by = none;
  comments = [];
  reactions = [];
  suggestion = some proposal;
}

abbrev events : List (Event change_set)
events =
    blame_toggled
    ∷ suggest_toggled true
    ∷ received editor_side (only 2)
    ∷ discarded
    ∷ thread_activated (changes (only 1)) proposed
    ∷ received sync_side (only 3)
    ∷ accepted (some (only 1))
    ∷ comments_list_toggled
    ∷ blame_toggled
    ∷ []

abbrev previewed : Editor change_set Bool no_blame
previewed =
    run change_set Bool no_blame shown_text (thread_activated (changes (only 1)) proposed ∷ [])
      fresh_editor

abbrev typed : Editor change_set Bool no_blame
typed = step change_set Bool no_blame shown_text (received editor_side (only 7)) previewed

step-run_example :
    (typed.suggester.collab.sync_doc ≡ previewed.suggester.collab.sync_doc)
    × (typed.suggester.collab.editor_doc
        ≡ change_set.apply_update (only 7) previewed.suggester.collab.editor_doc)
unfolding same_mode step run open_thread preview_thread show_thread end_other_preview
    activate_feature_mode leave start_suggestion_preview
step-run_example =
    step-run change_set Bool no_blame shown_text (thread_activated (changes (only 1)) proposed ∷ [])
      (only 7) fresh_editor (refl, (refl, ((λ h. h), (tt, refl)))) refl

-- Once the thread that is previewed is deleted, its preview is there still, and stays when the panel
-- of another thread would be closed.
deleted_preview :
    (handle_comment_thread_delete change_set Bool no_blame shown_text
      (text "t")
      previewed).previewing
    ≡ some (text "t")
unfolding handle_comment_thread_delete run step open_thread preview_thread show_thread
    end_other_preview activate_feature_mode same_mode leave start_suggestion_preview text_eq
    threads_changed
deleted_preview = refl
