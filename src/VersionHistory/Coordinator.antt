-- ===== src/VersionHistory/Coordinator.antt =====
-- `VersionCoordinator` of frontend/src/collab/version-coordinator.ts. A method that awaits a reply is
-- the step that the reply takes; the request itself changes nothing of the coordinator.
mod State
pub mod Laws
use collab_editor.Prelude.{
  ℕ, zero, suc, ◌+◌, Bool, true, false, not, ◌&&◌, ◌||◌, List, [], ◌∷◌, ◌++◌, length, Option, none,
  some, Text, text, ltb, if◌then◌else◌,
}
use collab_editor.Blame.{BlameSegment}
use collab_editor.Diff.Lines.{DiffLine}
use collab_editor.VersionHistory.Manager.{
  VersionListEntry, VersionEntry, VersionManager, Config, new_version_manager, revert_to_version,
  destroy, diff_versions, or_else,
}
pub use collab_editor.VersionHistory.Coordinator.State.{
  Editor, Told, Session, VersionCoordinator, with_editor, with_manager, with_told, on_session,
  tell_versions, tell_selected, tell_diff, tell_viewing,
}
unfoldable pub use collab_editor.VersionHistory.Coordinator.State.{
  set_versions, set_diff, set_selected, set_panel_open, set_content,
}

-- The editor that `_exitVersionView` leaves: with the configured read-only flag, without the blame
-- of the version; if there is a provider, its text, which the binding shares, is set again.
abbrev pub live_editor : Bool → Session → Editor
live_editor readonly s = record {
  readonly = readonly;
  content =
      if s.has_provider
      then set_content s.has_provider s.editor.content s.editor.content
      else s.editor.content;
  version_blame = if s.has_blame then none else s.editor.version_blame;
}

unfoldable pub exit_version_view : VersionCoordinator → VersionCoordinator
exit_version_view c = if not c.viewing_version then c else record {
  session =
      on_session
        (λ s. tell_selected none (with_editor (live_editor c.readonly s) (tell_viewing false s)))
        c.session;
  versions = c.versions;
  selected_version = none;
  diff_result = c.diff_result;
  viewing_version = false;
  panel_open = c.panel_open;
  readonly = c.readonly;
}

-- The binding and the manager are released; the manager is destroyed.
unfoldable pub detach : VersionCoordinator → VersionCoordinator
detach c = record {
  session = none;
  versions = [];
  selected_version = none;
  diff_result = none;
  viewing_version = false;
  panel_open = false;
  readonly = (exit_version_view c).readonly;
}

pub record VersionCoordinatorConfig : Type 0 where
  pub user_name : Text
  pub auto_snapshot : Option Bool
  pub auto_snapshot_updates : Option ℕ
  pub auto_snapshot_minutes : Option ℕ
  pub version_blame_enabled : Option Bool

-- The configuration of the manager: `autoSnapshot === false` turns both kinds of snapshot off.
unfoldable pub manager_config : VersionCoordinatorConfig → Config
manager_config config = record {
  auto_snapshot_updates =
      some
        (if or_else config.auto_snapshot true then or_else config.auto_snapshot_updates 50 else 0);
  auto_snapshot_minutes =
      some
        (if or_else config.auto_snapshot true then or_else config.auto_snapshot_minutes 5 else 0);
  user_name = some config.user_name;
}

-- `attach`, with a binding that was mounted with the read-only flag that is passed.
unfoldable pub attach :
    Text
    → Text
    → VersionCoordinatorConfig
    → ℕ
    → Bool
    → Bool
    → Bool
    → VersionCoordinator
    → VersionCoordinator
attach shown source config now has_provider has_blame readonly c =
    let gone = detach c in
    record {
      session = some record {
        editor = record { readonly = readonly; content = shown; version_blame = none };
        manager = new_version_manager source (manager_config config) now;
        told = record {
          versions = [];
          selected_version = none;
          diff_result = none;
          viewing_version = false;
        };
        has_provider = has_provider;
        has_blame = has_blame;
        version_blame_enabled = config.version_blame_enabled;
      };
      versions = gone.versions;
      selected_version = gone.selected_version;
      diff_result = gone.diff_result;
      viewing_version = gone.viewing_version;
      panel_open = gone.panel_open;
      readonly = readonly;
    }

-- `handleAppMessage` of a created version, `onAutoSnapshot`, and `save` with its entry.
unfoldable pub add_version : VersionListEntry → VersionCoordinator → VersionCoordinator
add_version entry c = set_versions (entry ∷ c.versions) c

unfoldable pub toggle_panel : VersionCoordinator → VersionCoordinator
toggle_panel c =
    let toggled = set_panel_open (not c.panel_open) c in
    if not c.panel_open
    then toggled
    else if c.viewing_version
    then exit_version_view toggled
    else toggled

unfoldable pub close_panel : VersionCoordinator → VersionCoordinator
close_panel c =
    let closed = set_panel_open false c in
    if c.viewing_version then exit_version_view closed else closed

unfoldable pub save : Option VersionListEntry → VersionCoordinator → VersionCoordinator
save none c = c
save (some entry) c = add_version entry c

unfoldable pub select : Option VersionEntry → VersionCoordinator → VersionCoordinator
select none c = c
select (some version) c = set_selected version c

-- The blame that `view` shows, if any.
abbrev pub shown_blame : VersionEntry → Session → Option (List BlameSegment)
shown_blame version s = elim version.blame [
  | none ↦ s.editor.version_blame
  | some segments ↦
      if or_else s.version_blame_enabled true && (ltb 0 (length segments) && s.has_blame)
      then some segments
      else s.editor.version_blame
]

abbrev pub version_editor : VersionEntry → Session → Editor
version_editor version s = record {
  readonly = true;
  content = set_content s.has_provider s.editor.content (or_else version.content []);
  version_blame = shown_blame version s;
}

unfoldable pub view : Option VersionEntry → VersionCoordinator → VersionCoordinator
view none c = c
view (some version) c = elim c.session [
  | none ↦ c
  | some s ↦ record {
    session = some (
        with_editor (version_editor version s)
          (tell_viewing true (tell_selected (some version) s)));
    versions = c.versions;
    selected_version = some version;
    diff_result = c.diff_result;
    viewing_version = true;
    panel_open = c.panel_open;
    readonly = c.readonly;
  }
]

abbrev pub revert_session : VersionEntry → VersionCoordinator → VersionCoordinator
revert_session version c = record {
  session = on_session (λ s. with_manager (revert_to_version version s.manager) s) c.session;
  versions = c.versions;
  selected_version = c.selected_version;
  diff_result = c.diff_result;
  viewing_version = c.viewing_version;
  panel_open = c.panel_open;
  readonly = c.readonly;
}

-- `revert` up to the list of versions, which is awaited last.
unfoldable pub revert : Option VersionEntry → VersionCoordinator → VersionCoordinator
revert none c = c
revert (some version) c = revert_session version (exit_version_view c)

-- The manager may be gone when the two versions of `diff` are there; the code holds on to it.
unfoldable pub diff :
    Option VersionEntry → Option VersionEntry → VersionCoordinator → VersionCoordinator
diff none to c = c
diff (some from) none c = c
diff (some from) (some to) c = set_diff (some (diff_versions from to)) c

unfoldable pub clear_diff : VersionCoordinator → VersionCoordinator
clear_diff c = set_diff none c

-- The calls and the replies that reach a coordinator. A list that is loaded comes from `attach`,
-- `togglePanel` or `revert`.
pub data Event : Type 0 where
  attached : Text → Text → VersionCoordinatorConfig → ℕ → Bool → Bool → Bool → Event
  detached panel_toggled panel_closed diff_cleared : Event
  loaded : List VersionListEntry → Event
  created : VersionListEntry → Event
  saved : Option VersionListEntry → Event
  selected viewed reverted : Option VersionEntry → Event
  compared : Option VersionEntry → Option VersionEntry → Event

unfoldable pub step : Event → VersionCoordinator → VersionCoordinator
step (attached shown source config now p b r) c = attach shown source config now p b r c
step detached c = detach c
step panel_toggled c = toggle_panel c
step panel_closed c = close_panel c
step diff_cleared c = clear_diff c
step (loaded versions) c = set_versions versions c
step (created entry) c = add_version entry c
step (saved entry) c = save entry c
step (selected version) c = select version c
step (viewed version) c = view version c
step (reverted version) c = revert version c
step (compared from to) c = diff from to c

unfoldable pub run : List Event → VersionCoordinator → VersionCoordinator
run [] c = c
run (e ∷ es) c = run es (step e c)

abbrev pub new_version_coordinator : VersionCoordinator
new_version_coordinator = record {
  session = none;
  versions = [];
  selected_version = none;
  diff_result = none;
  viewing_version = false;
  panel_open = false;
  readonly = false;
}
