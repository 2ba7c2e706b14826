-- ===== src/Suggest/Engine.antt =====
-- The methods of `SuggestEngine`, on the engine's fields and on the documents of the collaboration
-- provider that it is given.
pub mod Session
use collab_editor.Prelude.{
  ℕ, Bool, true, false, not, ◌&&◌, ◌||◌, List, [], ◌∷◌, ◌++◌, any, Option, Text, text_eq, ◌==◌,
  filter, if◌then◌else◌,
}
use collab_editor.Interfaces.{SuggestionPayload}
use collab_editor.Yjs.{SharedDoc}
use collab_editor.Replicator.{Replicator, reset_editor_doc}
use collab_editor.Suggest.{Built, built, failed, not_active, no_pending_changes, payload_of}

module _ (y : SharedDoc) where
  pub record SuggestEngine : Type 0 where
    pub collab : Replicator y
    pub enabled : Bool
    pub destroyed : Bool
    pub text_at_enable : Text
    -- The registered callbacks, by number.
    pub warning_listeners : List ℕ

  abbrev pub new_engine : Replicator y → SuggestEngine
  new_engine collab = record {
    collab = collab;
    enabled = false;
    destroyed = false;
    text_at_enable = [];
    warning_listeners = [];
  }

  abbrev set_outbound : Bool → Replicator y → Replicator y
  set_outbound gate r = record r { outbound_open = gate }

  unfoldable pub enable : Text → SuggestEngine → SuggestEngine
  enable current_text e = if e.destroyed || e.enabled then e else record e {
    text_at_enable = current_text;
    collab = set_outbound false e.collab;
    enabled = true;
  }

  unfoldable pub disable : SuggestEngine → SuggestEngine
  disable e =
      if not e.enabled
      then e
      else record e { collab = set_outbound true e.collab; enabled = false; text_at_enable = [] }

  unfoldable pub has_pending_changes : Text → SuggestEngine → Bool
  has_pending_changes current_text e =
      if not e.enabled then false else not (text_eq current_text e.text_at_enable)

  unfoldable pub rebase : Text → SuggestEngine → SuggestEngine
  rebase new_baseline e = if not e.enabled then e else record e { text_at_enable = new_baseline }

  unfoldable pub build_suggestion : Option Text → Text → SuggestEngine → Built
  build_suggestion author_note current_text e =
      if not e.enabled
      then failed not_active
      else if text_eq current_text e.text_at_enable
      then failed no_pending_changes
      else built (payload_of author_note e.text_at_enable current_text)

  abbrev reset : SuggestEngine → SuggestEngine
  reset e = record e { collab = reset_editor_doc y e.collab }

  -- An error is thrown before anything changes.
  unfoldable pub commit : Option Text → Text → SuggestEngine → SuggestEngine × Built
  unfolding build_suggestion disable
  commit author_note current_text e = elim (build_suggestion author_note current_text e) [
    | built payload ↦ (disable (reset e), built payload)
    | failed error ↦ (e, failed error)
  ]

  unfoldable pub discard : SuggestEngine → SuggestEngine
  unfolding disable
  discard e = if not e.enabled then e else disable (reset e)

  unfoldable pub on_rebase_warning : ℕ → SuggestEngine → SuggestEngine
  on_rebase_warning cb e = record e {
    warning_listeners =
        (if any (λ c. c == cb) e.warning_listeners
          then e.warning_listeners
          else e.warning_listeners ++ cb ∷ []);
  }

  unfoldable pub off_rebase_warning : ℕ → SuggestEngine → SuggestEngine
  off_rebase_warning cb e = record e {
    warning_listeners = filter (λ c. not (c == cb)) e.warning_listeners;
  }

  unfoldable pub destroy : SuggestEngine → SuggestEngine
  unfolding disable
  destroy e =
      if e.destroyed
      then e
      else record (disable (record e { destroyed = true })) { warning_listeners = [] }
