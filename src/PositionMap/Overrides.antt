-- ===== src/PositionMap/Overrides.antt =====
-- `findFormattingOverrides` of frontend/src/collab/pm-position-map.ts: where one user wrapped the
-- text of another in a mark.
pub mod Clients
pub mod Laws
use collab_editor.Prelude.{
  ℕ, zero, suc, ◌+◌, ◌-◌, Bool, true, false, not, ◌&&◌, ◌||◌, List, [], ◌∷◌, ◌++◌, length, filter,
  Option, none, some, Text, text, text_eq, slice, ltb, leb, ◌==◌, if◌then◌else◌,
}
use collab_editor.Blame.Live.{Item}
use collab_editor.PositionMap.{TextNode, Positions, build_position_map, snap_range}

pub record DelimiterPattern : Type 0 where
  pub mark : Text
  pub opening : Text
  pub closing : Text

abbrev pub pattern_of : Text → Text → Text → DelimiterPattern
pattern_of mark opening closing = record { mark = mark; opening = opening; closing = closing }

-- `DEFAULT_DELIMITERS`.
abbrev pub default_delimiters : List DelimiterPattern
default_delimiters =
    pattern_of (text "bold") (text "**") (text "**")
    ∷ pattern_of (text "bold") (text "__") (text "__")
    ∷ pattern_of (text "bold") (text "<strong>") (text "</strong>")
    ∷ pattern_of (text "bold") (text "<b>") (text "</b>")
    ∷ pattern_of (text "italic") (text "*") (text "*")
    ∷ pattern_of (text "italic") (text "_") (text "_")
    ∷ pattern_of (text "italic") (text "<em>") (text "</em>")
    ∷ pattern_of (text "italic") (text "<i>") (text "</i>")
    ∷ pattern_of (text "strike") (text "~~") (text "~~")
    ∷ pattern_of (text "strike") (text "<s>") (text "</s>")
    ∷ pattern_of (text "strike") (text "<del>") (text "</del>")
    ∷ pattern_of (text "code") (text "`") (text "`")
    ∷ pattern_of (text "code") (text "<code>") (text "</code>")
    ∷ pattern_of (text "strong") (text "**") (text "**")
    ∷ pattern_of (text "strong") (text "<strong>") (text "</strong>")
    ∷ pattern_of (text "em") (text "*") (text "*")
    ∷ pattern_of (text "em") (text "<em>") (text "</em>")
    ∷ pattern_of (text "s") (text "~~") (text "~~")
    ∷ pattern_of (text "s") (text "<s>") (text "</s>")
    ∷ []

pub record FormattingOverride : Type 0 where
  pub from : ℕ
  pub to : ℕ
  pub delimiter_user : Text
  pub text_user : Text

-- `findYTextStartForPMPos`.
unfoldable pub find_ytext_start_for_pm_pos : Positions → ℕ → Option ℕ
find_ytext_start_for_pm_pos [] pm_pos = none
find_ytext_start_for_pm_pos ((y_offset, mapped_pos) ∷ m) pm_pos =
    if mapped_pos == pm_pos then some y_offset else find_ytext_start_for_pm_pos m pm_pos

-- A `Set<number>` of clients.
unfoldable pub add_client : ℕ → List ℕ → List ℕ
add_client c [] = c ∷ []
add_client c (d ∷ clients) = if d == c then d ∷ clients else d ∷ add_client c clients

unfoldable pub add_clients : List ℕ → List ℕ → List ℕ
add_clients [] clients = clients
add_clients (c ∷ cs) clients = add_clients cs (add_client c clients)

-- The length that an item has in the text.
unfoldable pub visible_length : Item → Option ℕ
visible_length item = if item.deleted then none else item.content_length

-- The walk along the items, at `offset` and `clients`.
unfoldable pub collect_from : ℕ → ℕ → List Item → ℕ → List ℕ → List ℕ
collect_from start end [] offset clients = clients
collect_from start end (item ∷ items) offset clients = elim (visible_length item) [
  | none ↦ collect_from start end items offset clients
  | some len ↦ collect_from start end items (offset + len) (
      if ltb offset end && ltb start (offset + len)
      then add_client item.client clients
      else clients)
]

unfoldable pub collect_clients_in_range : List Item → ℕ → ℕ → List ℕ
collect_clients_in_range items start end = collect_from start end items 0 []

-- `set.size !== 1` is `none`, else `set.values().next().value`.
unfoldable pub only_client : List ℕ → Option ℕ
only_client [] = none
only_client (c ∷ []) = some c
only_client (c ∷ d ∷ cs) = none

-- `clientToUser.get(client)`, and `none` also for a name that is empty.
unfoldable pub user_of : List (ℕ × Text) → ℕ → Option Text
user_of [] client = none
user_of ((c, user_name) ∷ users) client =
    let rest = user_of users client in
    if c == client then (if text_eq user_name [] then none else some user_name) else rest

-- The two clients and their users, if they differ.
unfoldable pub credits_of : List (ℕ × Text) → Option ℕ → Option ℕ → Option (Text × Text)
credits_of users none text_client = none
credits_of users (some delim_client) none = none
credits_of users (some delim_client) (some text_client) =
    if delim_client == text_client then none else (elim (user_of users delim_client) [
      | none ↦ none
      | some delim_user ↦ elim (user_of users text_client) [
        | none ↦ none
        | some text_user ↦
            if text_eq delim_user text_user then none else some (delim_user, text_user)
      ]
    ])

unfoldable pub delim_clients : List Item → DelimiterPattern → ℕ → ℕ → List ℕ
delim_clients items pattern start_offset end_offset =
    add_clients (collect_clients_in_range items end_offset (end_offset + length pattern.closing)) (
      add_clients
        (collect_clients_in_range items (start_offset - length pattern.opening) start_offset) [])

-- The delimiters stand right before and right behind the text.
unfoldable pub is_wrapped : Text → DelimiterPattern → ℕ → ℕ → Bool
is_wrapped y_text pattern start_offset end_offset =
    leb (length pattern.opening) start_offset
    && (text_eq (slice (start_offset - length pattern.opening) start_offset y_text) pattern.opening
        && text_eq (slice end_offset (end_offset + length pattern.closing) y_text) pattern.closing)

module _ (y_text : Text) (items : List Item) (users : List (ℕ × Text)) (pos_map : Positions) where
  -- The body of the loop over the candidates; `none` where it continues.
  unfoldable pub try_pattern : ℕ → ℕ → DelimiterPattern → Option FormattingOverride
  try_pattern start_offset end_offset pattern =
      if not (is_wrapped y_text pattern start_offset end_offset)
      then none
      else (elim (credits_of users
          (only_client (delim_clients items pattern start_offset end_offset))
          (only_client (collect_clients_in_range items start_offset end_offset))) [
            | none ↦ none
            | some (delim_user, text_user) ↦ elim (snap_range start_offset end_offset pos_map) [
              | none ↦ none
              | some (from, to) ↦ some record {
                from = from;
                to = to;
                delimiter_user = delim_user;
                text_user = text_user;
              }
            ]
          ])

  -- The first candidate that has an override wins.
  unfoldable pub first_pattern : ℕ → ℕ → List DelimiterPattern → List FormattingOverride
  first_pattern start_offset end_offset [] = []
  first_pattern start_offset end_offset (p ∷ patterns) =
      elim (try_pattern start_offset end_offset p) [
        | some o ↦ o ∷ []
        | none ↦ first_pattern start_offset end_offset patterns
      ]

  unfoldable pub mark_overrides :
      ℕ → ℕ → List DelimiterPattern → List Text → List FormattingOverride
  mark_overrides start_offset end_offset patterns [] = []
  mark_overrides start_offset end_offset patterns (mark ∷ marks) =
      first_pattern start_offset end_offset (filter (λ p. text_eq p.mark mark) patterns)
      ++ mark_overrides start_offset end_offset patterns marks

  unfoldable pub node_overrides : List DelimiterPattern → TextNode → List FormattingOverride
  node_overrides patterns node =
      if length node.text == 0 then [] else (elim (find_ytext_start_for_pm_pos pos_map node.pos) [
        | none ↦ []
        | some start_offset ↦
            mark_overrides start_offset (start_offset + length node.text) patterns node.marks
      ])

  unfoldable pub overrides_of : List DelimiterPattern → List TextNode → List FormattingOverride
  overrides_of patterns [] = []
  overrides_of patterns (node ∷ nodes) = node_overrides patterns node ++ overrides_of patterns nodes

unfoldable pub find_formatting_overrides :
    List TextNode
    → Text
    → List Item
    → List (ℕ × Text)
    → List DelimiterPattern
    → List FormattingOverride
find_formatting_overrides doc y_text items client_to_user patterns =
    overrides_of y_text items client_to_user (build_position_map doc y_text) patterns doc
