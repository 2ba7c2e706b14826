-- ===== src/Tests/BlameTests.antt =====
-- Live blame, colors, and version blame.
use collab_editor.Prelude.{
  ℕ, ◌≡◌, true, false, List, [], ◌∷◌, some, none, length, get_or, arith, Text, text,
}
use collab_editor.Diff.Lines.{split_on, cons_head}
use collab_editor.Blame.Tiling.{Tiles, authors_of, NoneEmpty}
use collab_editor.Blame.Live.{Item, extract_blame, item_authors, visible_length, extract_blame_lem}
use collab_editor.Blame.Versions.{
  VersionEntry, manual, split_lines, or_else, lines_of, last_of, line_authors, first_authors,
  compute_blame_from_versions,
}
use collab_editor.Blame.Versions.Segments.{spread, compute_blame_from_versions_lem}
use collab_editor.Blame.Versions.Provenance.{Wrote, line_authors-Wrote}

abbrev item : ℕ → ℕ → Item
item len client = record { deleted = false; content_length = some len; client = client }

abbrev items : List Item
items =
    item 3 1
    ∷ item 2 1
    ∷ record { deleted = true; content_length = some 9; client = 2 }
    ∷ item 4 2
    ∷ []

abbrev users : List (ℕ × Text)
users = (1, text "ann") ∷ (2, text "bob") ∷ []

extract_blame_lem_example :
    Tiles 0 (extract_blame users items) (visible_length users items)
    × (authors_of (extract_blame users items) ≡ item_authors users items)
extract_blame_lem_example = extract_blame_lem users items

abbrev version : Text → Text → VersionEntry
version creator content = record {
  id = [];
  created_at = [];
  type = manual;
  label = none;
  creator = some creator;
  content = some content;
  mime_type = none;
  blame = none;
}

abbrev first_version : VersionEntry
first_version = version (text "ann") (97 ∷ 10 ∷ 98 ∷ [])

abbrev later_versions : List VersionEntry
later_versions = version (text "bob") (97 ∷ 10 ∷ 99 ∷ 10 ∷ 98 ∷ []) ∷ []

compute_blame_from_versions_lem_example :
    Tiles 0
      (compute_blame_from_versions (first_version ∷ later_versions))
      (length (or_else (last_of first_version later_versions).content []))
    × (authors_of (compute_blame_from_versions (first_version ∷ later_versions))
        ≡ spread
            (line_authors first_version later_versions (first_authors first_version))
            0
            (lines_of (last_of first_version later_versions)))
    × NoneEmpty (compute_blame_from_versions (first_version ∷ later_versions))
compute_blame_from_versions_lem_example =
    compute_blame_from_versions_lem first_version later_versions

line_authors-Wrote_example :
    Wrote
      (first_version ∷ later_versions)
      (get_or (line_authors first_version later_versions (first_authors first_version)) 1 [])
      (get_or (lines_of (last_of first_version later_versions)) 1 [])
unfolding last_of split_lines split_on cons_head
line_authors-Wrote_example = line_authors-Wrote first_version later_versions 1 (omega arith)

abbrev two_lines : List Text
two_lines = text "x" ∷ text "y" ∷ []

abbrev two_authors : List Text
two_authors = text "ann" ∷ text "bob" ∷ []
