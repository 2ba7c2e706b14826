-- ===== src/VersionHistory/Coordinator/State.antt =====
-- The fields of `VersionCoordinator`, what its session holds, and what its callbacks are told.
use collab_editor.Prelude.{Bool, true, false, [], ◌∷◌, List, Option, none, some, Text}
use collab_editor.Blame.{BlameSegment}
use collab_editor.Diff.Lines.{DiffLine}
use collab_editor.VersionHistory.Manager.{VersionListEntry, VersionEntry, VersionManager}

-- What the methods used here change of the editor: `setReadonly`, `setContent`, and the blame of a
-- version, which the blame coordinator shows. In a session for collaboration the content is the text
-- that the binding shares with its peers.
pub record Editor : Type 0 where
  pub readonly : Bool
  pub content : Text
  pub version_blame : Option (List BlameSegment)

-- `setContent` of the binding, given whether it shares its text: `setCollabContent` then writes into
-- an empty text and leaves any other as it is.
unfoldable pub set_content : Bool → Text → Text → Text
set_content false content t = t
set_content true [] t = t
set_content true (c ∷ content) t = c ∷ content

-- What the callbacks were told last.
pub record Told : Type 0 where
  pub versions : List VersionListEntry
  pub selected_version : Option VersionEntry
  pub diff_result : Option (List DiffLine)
  pub viewing_version : Bool

-- The fields that `attach` sets and `detach` clears: the binding, the manager with its document, the
-- callbacks, whether there is a collaboration provider and a blame coordinator, and the
-- configuration.
pub record Session : Type 0 where
  pub editor : Editor
  pub manager : VersionManager
  pub told : Told
  pub has_provider : Bool
  pub has_blame : Bool
  pub version_blame_enabled : Option Bool

pub record VersionCoordinator : Type 0 where
  pub session : Option Session
  pub versions : List VersionListEntry
  pub selected_version : Option VersionEntry
  pub diff_result : Option (List DiffLine)
  pub viewing_version : Bool
  pub panel_open : Bool
  pub readonly : Bool

abbrev pub with_editor : Editor → Session → Session
with_editor editor s = record {
  editor = editor;
  manager = s.manager;
  told = s.told;
  has_provider = s.has_provider;
  has_blame = s.has_blame;
  version_blame_enabled = s.version_blame_enabled;
}

abbrev pub with_manager : VersionManager → Session → Session
with_manager manager s = record {
  editor = s.editor;
  manager = manager;
  told = s.told;
  has_provider = s.has_provider;
  has_blame = s.has_blame;
  version_blame_enabled = s.version_blame_enabled;
}

abbrev pub with_told : Told → Session → Session
with_told told s = record {
  editor = s.editor;
  manager = s.manager;
  told = told;
  has_provider = s.has_provider;
  has_blame = s.has_blame;
  version_blame_enabled = s.version_blame_enabled;
}

abbrev pub on_session : (Session → Session) → Option Session → Option Session
on_session f none = none
on_session f (some s) = some (f s)

-- `this._callbacks?.onVersionsChange(versions)` and the like.
abbrev pub tell_versions : List VersionListEntry → Session → Session
tell_versions versions s =
    with_told
      record {
        versions = versions;
        selected_version = s.told.selected_version;
        diff_result = s.told.diff_result;
        viewing_version = s.told.viewing_version;
      }
      s

abbrev pub tell_selected : Option VersionEntry → Session → Session
tell_selected version s =
    with_told
      record {
        versions = s.told.versions;
        selected_version = version;
        diff_result = s.told.diff_result;
        viewing_version = s.told.viewing_version;
      }
      s

abbrev pub tell_diff : Option (List DiffLine) → Session → Session
tell_diff diff s =
    with_told
      record {
        versions = s.told.versions;
        selected_version = s.told.selected_version;
        diff_result = diff;
        viewing_version = s.told.viewing_version;
      }
      s

abbrev pub tell_viewing : Bool → Session → Session
tell_viewing viewing s =
    with_told
      record {
        versions = s.told.versions;
        selected_version = s.told.selected_version;
        diff_result = s.told.diff_result;
        viewing_version = viewing;
      }
      s

-- `this._versions = versions`, and the callback.
unfoldable pub set_versions : List VersionListEntry → VersionCoordinator → VersionCoordinator
set_versions versions c = record {
  session = on_session (tell_versions versions) c.session;
  versions = versions;
  selected_version = c.selected_version;
  diff_result = c.diff_result;
  viewing_version = c.viewing_version;
  panel_open = c.panel_open;
  readonly = c.readonly;
}

unfoldable pub set_diff : Option (List DiffLine) → VersionCoordinator → VersionCoordinator
set_diff diff c = record {
  session = on_session (tell_diff diff) c.session;
  versions = c.versions;
  selected_version = c.selected_version;
  diff_result = diff;
  viewing_version = c.viewing_version;
  panel_open = c.panel_open;
  readonly = c.readonly;
}

unfoldable pub set_selected : VersionEntry → VersionCoordinator → VersionCoordinator
set_selected version c = record {
  session = on_session (tell_selected (some version)) c.session;
  versions = c.versions;
  selected_version = some version;
  diff_result = c.diff_result;
  viewing_version = c.viewing_version;
  panel_open = c.panel_open;
  readonly = c.readonly;
}

unfoldable pub set_panel_open : Bool → VersionCoordinator → VersionCoordinator
set_panel_open panel_open c = record {
  session = c.session;
  versions = c.versions;
  selected_version = c.selected_version;
  diff_result = c.diff_result;
  viewing_version = c.viewing_version;
  panel_open = panel_open;
  readonly = c.readonly;
}
