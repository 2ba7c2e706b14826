-- ===== src/FeatureModes.antt =====
-- The modes of the multi-editor that share the surface of the editor: blame, suggest mode and
-- comments, of frontend/src/multi-editor.ts, once collaboration and comments are attached. Blame and
-- suggest mode are the coordinator and the engine of their own files; the text of the editor is read
-- off its document by a parameter.
pub mod Handlers
pub mod Session
pub mod Release
pub mod Exclusive
pub mod Leaving
pub mod Laws
use collab_editor.Prelude.{
  Bool, true, false, not, ◌&&◌, ◌||◌, List, [], ◌∷◌, ◌++◌, Option, none, some, Text, text_eq,
  if◌then◌else◌,
}
use collab_editor.Interfaces.{SuggestionPayload}
use collab_editor.Yjs.{SharedDoc}
use collab_editor.Replicator.{Replicator, editor_side, other, receive, reset_editor_doc}
use collab_editor.Suggest.Engine.{SuggestEngine, enable, disable, discard}
use collab_editor.Blame.{BlameSegment}
use collab_editor.Blame.Coordinator.{BlameCoordinator, is_enabled, toggle}
use collab_editor.Comments.Poll.{CommentThread}

pub data FeatureMode : Type 0 where
  no_mode blame suggest comments : FeatureMode

unfoldable pub same_mode : FeatureMode → FeatureMode → Bool
same_mode no_mode no_mode = true
same_mode blame blame = true
same_mode suggest suggest = true
same_mode comments comments = true
same_mode _ _ = false

abbrev pub is_some {ℓ} : {A : Type ℓ} → Option A → Bool
is_some none = false
is_some (some a) = true

module _ (y : SharedDoc) (Doc : Type 0) (live_blame : Doc → List BlameSegment) where
  -- `collab` of the suggest engine is the replicator of the provider for collaboration. The comment
  -- coordinator's part are `muted`, `coordinator_thread` and `coordinator_suggest`; `shown_readonly`
  -- is what the binding was told last, and `committed` has the payloads given to the comment engine.
  pub record Editor : Type 0 where
    pub mode : FeatureMode
    pub blamer : BlameCoordinator Doc live_blame
    pub suggester : SuggestEngine y
    pub suggest_pending : Bool
    pub suggest_available : Bool
    pub note_open : Bool
    pub thread : Option CommentThread
    pub comments_list_open : Bool
    pub suggestions_list_open : Bool
    pub previewing : Option Text
    pub readonly : Bool
    pub shown_readonly : Bool
    pub muted : Bool
    pub coordinator_thread : Option Text
    pub coordinator_suggest : Bool
    pub committed : List SuggestionPayload
    -- Which payloads the comment engine takes; for any other it throws the size error.
    pub takes : SuggestionPayload → Bool

  -- `onActiveChange`, which the coordinator calls unless live blame is disabled.
  unfoldable pub blame_told : Bool → Editor → Editor
  blame_told true e = record e { mode = blame }
  blame_told false e = if same_mode e.mode blame then record e { mode = no_mode } else e

  unfoldable pub toggle_blame : Bool → Editor → Editor
  toggle_blame active e =
      let toggled = record e { blamer = toggle Doc live_blame active e.blamer } in
      if is_enabled Doc live_blame e.blamer.config.live_blame_enabled
      then blame_told active toggled
      else toggled

  abbrev pub set_outbound : Bool → SuggestEngine y → SuggestEngine y
  set_outbound gate s = record s { collab = record s.collab { outbound_open = gate } }

  module _ (serialized : y.Doc → Text) where
    -- Suggest mode goes on from the document that was reset.
    unfoldable pub resume : SuggestEngine y → SuggestEngine y
    resume s =
        let gated = set_outbound false s in
        enable y (serialized gated.collab.editor_doc) (disable y gated)

    abbrev pub reset_docs : SuggestEngine y → SuggestEngine y
    reset_docs s = record s { collab = reset_editor_doc y s.collab }

    unfoldable pub end_preview_of : Option Text → Editor → Editor
    end_preview_of none e = e
    end_preview_of (some id) e = record e {
      suggester =
          (if same_mode e.mode suggest
            then resume (reset_docs e.suggester)
            else reset_docs e.suggester);
      shown_readonly = e.readonly;
      previewing = none;
      muted = false;
    }

    abbrev pub end_preview : Editor → Editor
    end_preview e = end_preview_of e.previewing e

    -- What `_activateFeatureMode` does to leave a mode; the new one is set before.
    unfoldable pub leave : FeatureMode → Editor → Editor
    leave no_mode e = e
    leave blame e = toggle_blame false e
    leave suggest e = record e {
      suggester = discard y e.suggester;
      suggest_pending = false;
      coordinator_suggest = false;
    }
    leave comments e = end_preview (record e {
      thread = none;
      coordinator_thread = none;
      comments_list_open = false;
      suggestions_list_open = false;
    })

    unfoldable pub activate_feature_mode : FeatureMode → Editor → Editor
    activate_feature_mode mode e =
        if same_mode e.mode mode then e else leave e.mode (record e { mode = mode })

  unfoldable pub maybe_exit_comments_mode : Editor → Editor
  maybe_exit_comments_mode e =
      if same_mode e.mode comments
        && not (is_some e.thread)
        && not e.comments_list_open
        && not e.suggestions_list_open
      then record e { mode = no_mode }
      else e
