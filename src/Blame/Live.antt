-- ===== src/Blame/Live.antt =====
-- `BlameEngine._extractBlameFromText` of frontend/src/collab/blame-engine.ts: the walk along the
-- items of a `Y.Text`.
use mathlib.Core.List.{foldl}
use collab_editor.Prelude.{
  Option-cases, inl, inr, ℕ, ◌+◌, ◌≡◌, refl, sym, ap, ◌∙◌, Bool, List, [], ◌∷◌, ◌++◌, append_assoc,
  append-nil, Option, none, some, arith, Text, text, decimal, replicate, ◌==◌, if◌then◌else◌,
}
use collab_editor.Blame.{BlameSegment, push_run}
use collab_editor.Blame.Tiling.{Tiles, authors_of, push_run-Tiles, authors_of-push_run}

-- What the walk reads of an item: `item.content` may be absent.
pub record Item : Type 0 where
  pub deleted : Bool
  pub content_length : Option ℕ
  pub client : ℕ

-- `clientToUser.get(clientId) ?? `user-${clientId}``
unfoldable pub user_name_of : List (ℕ × Text) → ℕ → Text
user_name_of [] client = text "user-" ++ decimal client
user_name_of ((c, user_name) ∷ rest) client =
    if c == client then user_name else user_name_of rest client

abbrev pub Walk : Type 0
Walk = ℕ × List BlameSegment

module _ (client_to_user : List (ℕ × Text)) where
  -- The length that an item contributes: none if it is deleted or without content.
  unfoldable pub visible : Item → Option ℕ
  visible item = if item.deleted then none else item.content_length

  -- One round of the loop, on the offset and the segments so far.
  unfoldable pub visit : Walk → Item → Walk
  visit (offset, segments) item = elim (visible item) [
    | none ↦ (offset, segments)
    | some len ↦
        (offset + len, push_run segments offset len (user_name_of client_to_user item.client))
  ]

  unfoldable pub extract_blame : List Item → List BlameSegment
  extract_blame items = (foldl visit (0, []) items).1

  -- The author of each visible code unit, item by item.
  abbrev pub item_authors : List Item → List Text
  item_authors [] = []
  item_authors (item ∷ rest) = elim (visible item) [
    | none ↦ item_authors rest
    | some len ↦ replicate len (user_name_of client_to_user item.client) ++ item_authors rest
  ]

  abbrev pub visible_length : List Item → ℕ
  visible_length [] = 0
  visible_length (item ∷ rest) = elim (visible item) [
    | none ↦ visible_length rest
    | some len ↦ len + visible_length rest
  ]

  walk_lem :
      (items : List Item) (offset : ℕ) (segments : List BlameSegment)
      → Tiles 0 segments offset
      → Tiles 0 (foldl visit (offset, segments) items).1 (offset + visible_length items)
        × (authors_of (foldl visit (offset, segments) items).1
            ≡ authors_of segments ++ item_authors items)
  unfolding visit
  walk_lem [] offset segments h =
      let z : offset + 0 ≡ offset = omega arith in (rw z h, sym (append-nil _))
  walk_lem (item ∷ rest) offset segments h = elim (Option-cases (visible item)) [
    | inl hidden ↦
        rw (hidden, visit, Tiles, authors_of, foldl, visible_length, item_authors)
          (walk_lem rest offset segments h)
    | inr (len, shown) ↦
        let user_name = user_name_of client_to_user item.client in
        let a : offset + (len + visible_length rest) ≡ offset + len + visible_length rest =
          omega arith in
        let (tiles, authors) =
          walk_lem rest (offset + len) (push_run segments offset len user_name)
            (push_run-Tiles offset len user_name 0 segments h) in
        rw (shown, visit, Tiles, authors_of, foldl, visible_length, item_authors, a)
          (
            tiles,
            authors
                ∙ ap (◌++ item_authors rest) (authors_of-push_run offset len user_name 0 segments h)
                ∙ append_assoc (authors_of segments) (replicate len user_name) (item_authors rest),
          )
  ]

  -- The segments of live blame tile the visible text, with different users on neighbours, and
  -- attribute each code unit to the user of the client that inserted it.
  pub extract_blame_lem :
      (items : List Item)
      → Tiles 0 (extract_blame items) (visible_length items)
        × (authors_of (extract_blame items) ≡ item_authors items)
  unfolding extract_blame
  extract_blame_lem items =
      let z : 0 + visible_length items ≡ visible_length items = omega arith in
      rw z at (walk_lem items 0 [] refl)
