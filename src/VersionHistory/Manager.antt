-- ===== src/VersionHistory/Manager.antt =====
-- `VersionManager` of frontend/src/collab/version-manager.ts. A request is in the log of what was
-- sent from the call on; its reply is an event. The content of a request is read at the call.
pub mod Laws
use collab_editor.Prelude.{
  ℕ, zero, suc, ◌+◌, ◌-◌, ◌*◌, Bool, true, false, not, ◌&&◌, ◌||◌, List, [], ◌∷◌, ◌++◌, length,
  Option, none, some, Text, text, text_eq, ltb, leb, ◌==◌, if◌then◌else◌,
}
use collab_editor.Blame.{BlameSegment}
use collab_editor.Diff.Lines.{DiffLine, compute_line_diff}

pub data VersionType : Type 0 where
  auto manual : VersionType

pub record VersionListEntry : Type 0 where
  pub id : Text
  pub created_at : Text
  pub version_type : VersionType
  pub label : Option Text
  pub creator : Option Text
  pub mime_type : Option Text

pub record VersionEntry : Type 0 where
  pub entry : VersionListEntry
  pub content : Option Text
  pub blame : Option (List BlameSegment)

pub record Config : Type 0 where
  pub auto_snapshot_updates : Option ℕ
  pub auto_snapshot_minutes : Option ℕ
  pub user_name : Option Text

-- The body of a POST to /documents/versions.
pub record Post : Type 0 where
  pub content : Text
  pub version_type : VersionType
  pub label : Option Text
  pub creator : Text

-- The manager with the text "source" of its document and the versions it has posted. `observing` and
-- `timing` say whether the observer and the interval are set.
pub record VersionManager : Type 0 where
  pub config : Config
  pub source : Text
  pub update_count : ℕ
  pub last_snapshot_time : ℕ
  pub observing : Bool
  pub timing : Bool
  pub destroyed : Bool
  pub snapshot_in_flight : Bool
  pub posted : List Post

abbrev pub or_else {ℓ} : {A : Type ℓ} → Option A → A → A
or_else none d = d
or_else (some a) d = a

unfoldable pub threshold : Config → ℕ
threshold config = or_else config.auto_snapshot_updates 50

unfoldable pub minutes : Config → ℕ
minutes config = or_else config.auto_snapshot_minutes 5

unfoldable pub new_version_manager : Text → Config → ℕ → VersionManager
new_version_manager source config now = record {
  config = config;
  source = source;
  update_count = 0;
  last_snapshot_time = now;
  observing = ltb 0 (threshold config);
  timing = ltb 0 (minutes config);
  destroyed = false;
  snapshot_in_flight = false;
  posted = [];
}

-- The bodies of the two kinds of post.
abbrev pub auto_post : VersionManager → Post
auto_post m = record {
  content = m.source;
  version_type = auto;
  label = none;
  creator = or_else m.config.user_name (text "system");
}

abbrev pub manual_post : Option Text → Option Text → VersionManager → Post
manual_post label creator m = record {
  content = m.source;
  version_type = manual;
  label = label;
  creator = or_else creator (or_else m.config.user_name (text "unknown"));
}

-- `_autoSnapshot`, up to the reply.
unfoldable pub auto_snapshot : VersionManager → VersionManager
auto_snapshot m = if m.destroyed || m.snapshot_in_flight then m else record {
  config = m.config;
  source = m.source;
  update_count = m.update_count;
  last_snapshot_time = m.last_snapshot_time;
  observing = m.observing;
  timing = m.timing;
  destroyed = m.destroyed;
  snapshot_in_flight = true;
  posted = m.posted ++ auto_post m ∷ [];
}

unfoldable pub set_update_count : ℕ → VersionManager → VersionManager
set_update_count n m = record {
  config = m.config;
  source = m.source;
  update_count = n;
  last_snapshot_time = m.last_snapshot_time;
  observing = m.observing;
  timing = m.timing;
  destroyed = m.destroyed;
  snapshot_in_flight = m.snapshot_in_flight;
  posted = m.posted;
}

unfoldable pub set_source : Text → VersionManager → VersionManager
set_source source m = record {
  config = m.config;
  source = source;
  update_count = m.update_count;
  last_snapshot_time = m.last_snapshot_time;
  observing = m.observing;
  timing = m.timing;
  destroyed = m.destroyed;
  snapshot_in_flight = m.snapshot_in_flight;
  posted = m.posted;
}

-- The observer of the document's updates.
unfoldable pub observe_update : VersionManager → VersionManager
observe_update m =
    if not m.observing
    then m
    else (let counted = set_update_count (m.update_count + 1) m in
        if leb (threshold m.config) (m.update_count + 1)
        then set_update_count 0 (auto_snapshot counted)
        else counted)

-- A tick of the interval.
unfoldable pub check_time : ℕ → VersionManager → VersionManager
check_time now m =
    if m.timing
      && (leb (minutes m.config * 60 * 1000) (now - m.last_snapshot_time) && ltb 0 m.update_count)
    then set_update_count 0 (auto_snapshot m)
    else m

-- The reply to an auto-snapshot, at `now`; `none` where the request failed.
unfoldable pub snapshot_replied : Option ℕ → VersionManager → VersionManager
snapshot_replied now m = record {
  config = m.config;
  source = m.source;
  update_count = m.update_count;
  last_snapshot_time = or_else now m.last_snapshot_time;
  observing = m.observing;
  timing = m.timing;
  destroyed = m.destroyed;
  snapshot_in_flight = false;
  posted = m.posted;
}

-- `createVersion`, up to the reply.
unfoldable pub create_version : Option Text → Option Text → VersionManager → VersionManager
create_version label creator m = record {
  config = m.config;
  source = m.source;
  update_count = m.update_count;
  last_snapshot_time = m.last_snapshot_time;
  observing = m.observing;
  timing = m.timing;
  destroyed = m.destroyed;
  snapshot_in_flight = m.snapshot_in_flight;
  posted = m.posted ++ manual_post label creator m ∷ [];
}

-- The reply to `createVersion`, with whether it is ok.
unfoldable pub version_replied : Bool → ℕ → VersionManager → VersionManager
version_replied false now m = m
version_replied true now m = record {
  config = m.config;
  source = m.source;
  update_count = m.update_count;
  last_snapshot_time = now;
  observing = m.observing;
  timing = m.timing;
  destroyed = m.destroyed;
  snapshot_in_flight = m.snapshot_in_flight;
  posted = m.posted;
}

unfoldable pub diff_versions : VersionEntry → VersionEntry → List DiffLine
diff_versions v1 v2 = compute_line_diff (or_else v1.content []) (or_else v2.content [])

-- `version.label || version.id`
unfoldable pub name_of : VersionListEntry → Text
name_of v = elim v.label [ none ↦ v.id | some label ↦ if text_eq label [] then v.id else label ]

-- The transaction deletes all text and inserts the old content; Yjs reports it as one update, if it
-- deletes or inserts anything.
unfoldable pub replace_source : Text → VersionManager → VersionManager
replace_source old_content m =
    if text_eq m.source [] && text_eq old_content []
    then m
    else observe_update (set_source old_content m)

unfoldable pub revert_to_version : VersionEntry → VersionManager → VersionManager
revert_to_version version m =
    create_version (some (text "Reverted to " ++ name_of version.entry)) m.config.user_name
      (replace_source (or_else version.content []) m)

unfoldable pub destroy : VersionManager → VersionManager
destroy m = record {
  config = m.config;
  source = m.source;
  update_count = m.update_count;
  last_snapshot_time = m.last_snapshot_time;
  observing = false;
  timing = false;
  destroyed = true;
  snapshot_in_flight = m.snapshot_in_flight;
  posted = m.posted;
}

-- What happens to a manager: an edit of the document that leaves a text, a tick, a reply to an
-- auto-snapshot, calls and their replies.
pub data Event : Type 0 where
  edited : Text → Event
  ticked : ℕ → Event
  auto_reply : Option ℕ → Event
  create : Option Text → Option Text → Event
  create_reply : Bool → ℕ → Event
  revert : VersionEntry → Event
  destroyed_by : Event

-- A reply to an auto-snapshot comes only where one is in flight.
unfoldable pub step : Event → VersionManager → VersionManager
step (edited source) m = observe_update (set_source source m)
step (ticked now) m = check_time now m
step (auto_reply now) m = if m.snapshot_in_flight then snapshot_replied now m else m
step (create label creator) m = create_version label creator m
step (create_reply ok now) m = version_replied ok now m
step (revert version) m = revert_to_version version m
step destroyed_by m = destroy m

unfoldable pub run : List Event → VersionManager → VersionManager
run [] m = m
run (e ∷ es) m = run es (step e m)
