-- ===== src/Comments/Anchors.antt =====
-- Where a thread stands in the text: `resolveAnchor`, `isThreadOrphaned` and the overlays of
-- `CommentEngine`.
pub mod Laws
use collab_editor.Prelude.{
  ℕ, ◌+◌, Bool, true, false, not, ◌&&◌, List, [], ◌∷◌, Option, none, some, length, min, max, Text,
  slice, index_of, leb, if◌then◌else◌,
}
use collab_editor.Prelude.Maps.{lookup}
use collab_editor.Interfaces.{
  CommentAnchor, ℤ, pos, negsuc, OperationSummary, SuggestionStatus, pending,
}
use collab_editor.Comments.{StoredThread, CommentEngine}
use collab_editor.Comments.Persist.{decision_eq}

pub record Range : Type 0 where
  pub from : ℕ
  pub to : ℕ

pub record SuggestionOverlayRegion : Type 0 where
  pub thread_id : Text
  pub start : ℕ
  pub end : ℕ
  pub after_text : Text
  pub operations : List OperationSummary
  pub author_color : Text
  pub status : SuggestionStatus

abbrev pub is_empty : Text → Bool
is_empty [] = true
is_empty (c ∷ s) = false

abbrev pub nonempty_of : Option Text → Option Text
nonempty_of none = none
nonempty_of (some s) = if is_empty s then none else some s

-- `Math.min` and `Math.max` of an offset and a length or an offset in the text.
abbrev pub min_ℤ : ℤ → ℕ → ℤ
min_ℤ (pos n) len = pos (min n len)
min_ℤ (negsuc n) len = negsuc n

abbrev pub max_ℤ : ℕ → ℤ → ℕ
max_ℤ low (pos n) = max low n
max_ℤ low (negsuc n) = low

-- The anchor of `createAnchor`; its relative positions come from Yjs.
unfoldable pub create_anchor : ℕ → ℕ → Text → CommentAnchor
create_anchor from to content = record {
  start = pos from;
  end = pos to;
  quoted_text = slice from to content;
}

-- The offset of an encoded relative position in the text, from Yjs: `none` where it does not
-- resolve, or to another type.
module _ (offset_of : Text → Option ℕ) where
  unfoldable pub relative_range : Text → StoredThread → Option Range
  relative_range content t = elim (nonempty_of t.start_rel) [
    | none ↦ none
    | some start_rel ↦ elim (nonempty_of t.end_rel) [
      | none ↦ none
      | some end_rel ↦ elim (offset_of start_rel) [
        | none ↦ none
        | some start ↦ elim (offset_of end_rel) [
          | none ↦ none
          | some end ↦
              if leb start end && leb end (length content)
              then some (record { from = start; to = end })
              else none
        ]
      ]
    ]
  ]

  -- The first occurrence of the quoted text, or for an empty one the clamped offsets.
  unfoldable pub fallback_range : Text → CommentAnchor → Option Range
  fallback_range content anchor =
      if is_empty anchor.quoted_text
      then (let start = max_ℤ 0 (min_ℤ anchor.start (length content)) in
          some (record { from = start; to = max_ℤ start (min_ℤ anchor.end (length content)) }))
      else (elim (index_of anchor.quoted_text content) [
        | none ↦ none
        | some i ↦ some (record { from = i; to = i + length anchor.quoted_text })
      ])

  unfoldable pub resolve_anchor : Text → StoredThread → Option Range
  resolve_anchor content t = elim (relative_range content t) [
    | none ↦ fallback_range content t.anchor
    | some range ↦ some range
  ]

  unfoldable pub resolve_anchor_by_id : Text → Text → CommentEngine → Option Range
  resolve_anchor_by_id content thread_id e = elim (lookup thread_id e.ymap) [
    | none ↦ none
    | some t ↦ resolve_anchor content t
  ]

  -- The overlays of the pending suggestions.
  unfoldable pub overlays_of :
      (Text → Text) → Text → List (Text × StoredThread) → List SuggestionOverlayRegion
  overlays_of user_color content [] = []
  overlays_of user_color content ((thread_id, t) ∷ threads) =
      let rest = overlays_of user_color content threads in
      elim t.suggestion [
        | none ↦ rest
        | some s ↦
            if decision_eq s.status pending
            then (elim (resolve_anchor content t) [
              | none ↦ rest
              | some range ↦
                  record {
                    thread_id = thread_id;
                    start = range.from;
                    end = range.to;
                    after_text = s.human_readable.after_text;
                    operations = s.human_readable.operations;
                    author_color = user_color s.author_id;
                    status = s.status;
                  }
                  ∷ rest
            ])
            else rest
      ]

  unfoldable pub get_suggestion_overlays :
      (Text → Text) → Text → CommentEngine → List SuggestionOverlayRegion
  get_suggestion_overlays user_color content e = overlays_of user_color content e.ymap

-- The quoted text occurs nowhere in the text any more.
unfoldable pub is_thread_orphaned : Text → Text → CommentEngine → Bool
is_thread_orphaned content thread_id e = elim (lookup thread_id e.ymap) [
  | none ↦ false
  | some t ↦
      if is_empty t.anchor.quoted_text
      then false
      else (elim (index_of t.anchor.quoted_text content) [ none ↦ true | some i ↦ false ])
]
