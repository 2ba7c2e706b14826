-- ===== src/Tests/HistoryTests.antt =====
-- A manager that takes a snapshot every second update, and a coordinator that views one version.
use collab_editor.Prelude.{
  ◌∷◌, ◌++◌, ◌≡◌, ◌<◌, refl, true, false, [], some, none, arith, text, List, ◌+◌,
}
use collab_editor.VersionHistory.Manager.{
  manual, VersionEntry, Config, VersionManager, Post, Event, edited, auto_reply, run, step,
  new_version_manager, revert_to_version, name_of, threshold, minutes, observe_update, set_source,
  set_update_count, auto_snapshot, snapshot_replied,
}
use collab_editor.VersionHistory.Manager.Laws.{
  run_balanced, revert_to_version_lem, auto_posts, in_flight, replies,
}
use collab_editor.VersionHistory.Coordinator.{
  VersionCoordinator, Session, new_version_coordinator, attached, viewed, panel_closed,
}
use collab_editor.VersionHistory.Coordinator as C
use collab_editor.VersionHistory.Coordinator.Laws.{run-IsInSync, IsInSync}

abbrev every_second : Config
every_second = record {
  auto_snapshot_updates = some 2;
  auto_snapshot_minutes = some 0;
  user_name = some (text "ann");
}

abbrev manager : VersionManager
manager = record {
  config = every_second;
  source = text "hi";
  update_count = 0;
  last_snapshot_time = 0;
  observing = true;
  timing = false;
  destroyed = false;
  snapshot_in_flight = false;
  posted = [];
}

manager_is_new : new_version_manager (text "hi") every_second 0 ≡ manager
unfolding new_version_manager threshold minutes
manager_is_new = refl

abbrev first : VersionEntry
first = record {
  entry = record {
    id = text "v1";
    created_at = text "2026-01-01";
    version_type = manual;
    label = none;
    creator = none;
    mime_type = none;
  };
  content = some (text "old");
  blame = none;
}

abbrev events : List Event
events =
    edited (text "a")
    ∷ edited (text "b")
    ∷ edited (text "c")
    ∷ edited (text "d")
    ∷ auto_reply (some 5)
    ∷ []

-- The second threshold is reached while the first snapshot is in flight, and passes.
one_snapshot : auto_posts (run events manager).posted ≡ 1
unfolding run step observe_update set_source set_update_count auto_snapshot snapshot_replied
    threshold
one_snapshot = refl

run_balanced_example :
    auto_posts (run events manager).posted + 0
    ≡ 0 + (in_flight (run events manager) + replies events manager)
run_balanced_example = run_balanced events manager

below_two : manager.update_count < threshold manager.config
unfolding threshold
below_two = omega arith

revert_to_version_lem_example :
    ((revert_to_version first manager).source ≡ text "old")
    × ((before : List Post) × ((revert_to_version first manager).posted
          ≡ before
            ++ record {
              content = text "old";
              version_type = manual;
              label = some (text "Reverted to " ++ name_of first.entry);
              creator = text "ann";
            }
              ∷ []))
revert_to_version_lem_example = revert_to_version_lem first manager

abbrev session : Session
session = record {
  editor = record { readonly = false; content = text "hi"; version_blame = none };
  manager = manager;
  told = record {
    versions = [];
    selected_version = none;
    diff_result = none;
    viewing_version = false;
  };
  has_provider = true;
  has_blame = true;
  version_blame_enabled = none;
}

abbrev coordinator : VersionCoordinator
coordinator = record new_version_coordinator { session = some session; panel_open = true }

run-IsInSync_example : IsInSync (C.run (viewed (some first) ∷ panel_closed ∷ []) coordinator)
run-IsInSync_example =
    run-IsInSync (viewed (some first) ∷ panel_closed ∷ []) coordinator
      (refl, (refl, (refl, (refl, refl))))
