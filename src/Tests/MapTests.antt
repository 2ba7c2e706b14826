-- ===== src/Tests/MapTests.antt =====
-- A heading and a bold word, and who typed them.
use collab_editor.Prelude.{
  ◌∷◌, ◌≡◌, ◌<◌, refl, false, [], some, arith, Text, text, text_eq, ℕ, List, ◌+◌, index_of,
  starts_with, All,
}
use collab_editor.Blame.Live.{Item}
use collab_editor.PositionMap.{
  TextNode, get, set, index_from, set_run, visit, build_position_map, snap_range, snap_start,
  snap_end, first_key, last_key, sorted_keys, sort_keys, insert_key, pm_range_to_ytext,
}
use collab_editor.PositionMap.Entries.{build_position_map-Shows, Shows}
use collab_editor.PositionMap.Snap.{snap_range-SnapsTo, SnapsTo, Ends}
use collab_editor.PositionMap.Order.{build_position_map_rises}
use collab_editor.PositionMap.Inverse.{pm_range_to_ytext-snap_range}
use collab_editor.PositionMap.Overrides.{
  find_formatting_overrides, default_delimiters, overrides_of, node_overrides, mark_overrides,
  first_pattern, try_pattern, is_wrapped, credits_of, user_of, only_client, delim_clients,
  collect_clients_in_range, collect_from, visible_length, add_clients, add_client,
  find_ytext_start_for_pm_pos,
}
use collab_editor.PositionMap.Overrides.Laws.{find_formatting_overrides-IsWrapping, IsWrapping}

abbrev source : Text
source = text "# Hi  **yo**"

abbrev doc : List TextNode
doc =
    record { text = text "Hi"; pos = 1; marks = [] }
    ∷ record { text = text "yo"; pos = 5; marks = text "bold" ∷ [] }
    ∷ []

abbrev item : ℕ → ℕ → Item
item client size = record { deleted = false; content_length = some size; client = client }

-- Alice typed the heading and the word, Bob made it bold.
abbrev items : List Item
items = item 1 6 ∷ item 2 2 ∷ item 1 2 ∷ item 2 2 ∷ []

abbrev users : List (ℕ × Text)
users = (1, text "alice") ∷ (2, text "bob") ∷ []

map_of_doc : build_position_map doc source ≡ (2, 1) ∷ (3, 2) ∷ (8, 5) ∷ (9, 6) ∷ []
unfolding build_position_map visit index_from index_of starts_with set_run set
map_of_doc = refl

at_eight : get 8 (build_position_map doc source) ≡ some 5
unfolding build_position_map visit index_from index_of starts_with set_run set get
at_eight = refl

at_two : get 2 (build_position_map doc source) ≡ some 1
unfolding build_position_map visit index_from index_of starts_with set_run set get
at_two = refl

build_position_map-Shows_example : Shows source 8 5 doc
build_position_map-Shows_example = build_position_map-Shows doc source 8 5 at_eight

build_position_map_rises_example : 1 < 5
build_position_map_rises_example =
    build_position_map_rises doc source 2 8 1 5 (omega arith, (omega arith, tt)) at_two at_eight
      (omega arith)

snap_range-SnapsTo_example :
    SnapsTo 0 12 (build_position_map doc source) (snap_range 0 12 (build_position_map doc source))
snap_range-SnapsTo_example = snap_range-SnapsTo 0 12 (build_position_map doc source)

-- The whole source is snapped to the visible text.
snap_all : snap_range 0 12 (build_position_map doc source) ≡ some (1, 7)
unfolding build_position_map visit index_from index_of starts_with set_run set get snap_range
    snap_start snap_end first_key last_key sorted_keys sort_keys insert_key
snap_all = refl

pm_range_to_ytext-snap_range_example :
    (ends : Ends 0 12 1 7 (build_position_map doc source)) × (pm_range_to_ytext doc source 1 7
      ≡ some (ends.first, ends.last + 1))
pm_range_to_ytext-snap_range_example =
    pm_range_to_ytext-snap_range doc source 0 12 1 7 (omega arith, (omega arith, tt)) snap_all

find_formatting_overrides-IsWrapping_example :
    All
      (IsWrapping source items users (build_position_map doc source))
      (find_formatting_overrides doc source items users default_delimiters)
find_formatting_overrides-IsWrapping_example =
    find_formatting_overrides-IsWrapping doc source items users default_delimiters

bold_by_bob :
    find_formatting_overrides doc source items users default_delimiters
    ≡ record { from = 5; to = 7; delimiter_user = text "bob"; text_user = text "alice" } ∷ []
unfolding build_position_map visit index_from index_of starts_with set_run set get snap_range
    snap_start snap_end first_key last_key sorted_keys sort_keys insert_key
    find_formatting_overrides overrides_of node_overrides mark_overrides first_pattern try_pattern
    is_wrapped credits_of user_of only_client delim_clients collect_clients_in_range collect_from
    visible_length add_clients add_client find_ytext_start_for_pm_pos text_eq
bold_by_bob = refl
