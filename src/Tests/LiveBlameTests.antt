-- ===== src/Tests/LiveBlameTests.antt =====
-- The log of live blame and its coordinator.
use collab_editor.Prelude.{
  ◌/◌, ◌+◌, ℕ, ◌≡◌, ◌+◌, refl, Bool, true, false, List, [], ◌∷◌, ◌++◌, length, some, none, text,
  leb,
}
use collab_editor.Blame.{BlameSegment}
use collab_editor.Blame.Live.{Item, extract_blame}
use collab_editor.Blame.Log.{LiveBlameEntry, Stored, load_entries, log_update}
use collab_editor.Blame.Log.Laws.{log_update_lem, IsLogged}
use collab_editor.Blame.Coordinator.{
  BlameCoordinator, Event, attached, toggled, updated, fired, new_blame_coordinator, run,
}
use collab_editor.Blame.Coordinator.Laws.{IsFollowing, run-IsFollowing}

abbrev entry : ℕ → LiveBlameEntry
entry now = record { user_name = text "ann"; timestamp = now }

abbrev entries : Stored
entries = some (entry 1 ∷ entry 2 ∷ entry 3 ∷ [])

-- The storage takes two entries at most.
abbrev two_fit : List LiveBlameEntry → Bool
two_fit logged = leb (length logged) 2

log_full : log_update two_fit (entry 4) entries ≡ some (entry 3 ∷ entry 4 ∷ [])
unfolding log_update load_entries
log_full = refl

log_update_lem_example :
    (dropped kept : List LiveBlameEntry) × ((load_entries entries ≡ dropped ++ kept)
      × ((length dropped ≡ (length (load_entries entries) + 1) / 2)
          × IsLogged two_fit (entry 4) entries dropped kept))
log_update_lem_example = log_update_lem two_fit (entry 4) entries

abbrev live_items : ℕ → List Item
live_items n = record { deleted = false; content_length = some n; client = 1 } ∷ []

abbrev live_blame_of : List Item → List BlameSegment
live_blame_of = extract_blame ((1, text "ann") ∷ [])

abbrev live_events : List (Event (List Item) live_blame_of)
live_events =
    attached (live_items 3) true none
      record { live_blame_enabled = none; version_blame_enabled = none }
    ∷ toggled true
    ∷ updated (some (text "ann")) none 1 (live_items 5)
    ∷ fired
    ∷ []

abbrev fresh_coordinator : BlameCoordinator (List Item) live_blame_of
fresh_coordinator = new_blame_coordinator (List Item) live_blame_of []

run-IsFollowing_example :
    IsFollowing
      (List Item)
      live_blame_of
      (run (List Item) live_blame_of two_fit live_events fresh_coordinator)
run-IsFollowing_example =
    run-IsFollowing (List Item) live_blame_of two_fit live_events fresh_coordinator (refl, refl)
