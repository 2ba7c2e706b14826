-- ===== src/Blame/Versions.antt =====
-- `computeBlameFromVersions` of packages/provider-sdk-ts/src/blame.ts.
pub mod Segments
pub mod Provenance
use collab_editor.Prelude.{
  ℕ, ◌+◌, List, [], ◌∷◌, Option, none, some, length, get_elem?, set, replicate, Text, text, ◌==◌,
  if◌then◌else◌,
}
use collab_editor.Diff.Lines.{split_on, newline}
use collab_editor.Diff.Lcs.{compute_lcs}
use collab_editor.Blame.{BlameSegment, push_run}

pub data VersionType : Type 0 where
  auto manual : VersionType

-- The code falls back where a creator or a content is missing, so both may be.
pub record VersionEntry : Type 0 where
  pub id : Text
  pub created_at : Text
  pub type : VersionType
  pub label : Option Text
  pub creator : Option Text
  pub content : Option Text
  pub mime_type : Option Text
  pub blame : Option (List BlameSegment)

-- `a ?? b`
abbrev pub or_else : Option Text → Text → Text
or_else none d = d
or_else (some s) d = s

-- Unlike the line diff, the empty text has one line here.
unfoldable pub split_lines : Text → List Text
split_lines [] = [] ∷ []
split_lines (c ∷ s) = split_on newline (c ∷ s)

abbrev pub lines_of : VersionEntry → List Text
lines_of v = split_lines (or_else v.content [])

abbrev pub creator_of : VersionEntry → Text
creator_of v = or_else v.creator (text "unknown")

-- The loop over the matches: a matched line keeps its author.
unfoldable pub attribute : List Text → Text → List (ℕ × ℕ) → List Text → List Text
attribute old_authors creator [] new_authors = new_authors
attribute old_authors creator ((old_idx, new_idx) ∷ matches) new_authors =
    attribute old_authors creator matches
      (set new_authors new_idx (or_else (get_elem? old_authors old_idx) creator))

unfoldable pub apply_diff_attribution : List Text → List Text → List Text → Text → List Text
apply_diff_attribution old_lines new_lines old_authors creator =
    attribute old_authors creator (compute_lcs old_lines new_lines)
      (replicate (length new_lines) creator)

-- The loop over the versions behind the first: the authors of the last one's lines.
unfoldable pub line_authors : VersionEntry → List VersionEntry → List Text → List Text
line_authors previous [] authors = authors
line_authors previous (v ∷ versions) authors =
    line_authors v versions
      (apply_diff_attribution (lines_of previous) (lines_of v) authors (creator_of v))

unfoldable pub last_of : VersionEntry → List VersionEntry → VersionEntry
last_of v [] = v
last_of v (w ∷ versions) = last_of w versions

-- The length of a line with its line break, which the last line lacks.
abbrev pub line_length : Text → List Text → ℕ
line_length line [] = length line
line_length line (next ∷ rest) = length line + 1

-- One round of `linesToSegments`: an empty last line is skipped.
unfoldable pub push_line : List BlameSegment → ℕ → ℕ → Text → List BlameSegment
push_line segments offset len author =
    if len == 0 then segments else push_run segments offset len author

-- The loop of `linesToSegments` from line `i` on.
unfoldable pub segments_from : List Text → ℕ → List Text → ℕ → List BlameSegment → List BlameSegment
segments_from authors i [] offset segments = segments
segments_from authors i (line ∷ rest) offset segments =
    let len = line_length line rest in
    segments_from authors (i + 1) rest (offset + len)
      (push_line segments offset len (or_else (get_elem? authors i) (text "unknown")))

unfoldable pub lines_to_segments : List Text → List Text → List BlameSegment
lines_to_segments lines authors = segments_from authors 0 lines 0 []

unfoldable pub first_authors : VersionEntry → List Text
first_authors v = replicate (length (lines_of v)) (creator_of v)

unfoldable pub compute_blame_from_versions : List VersionEntry → List BlameSegment
compute_blame_from_versions [] = []
compute_blame_from_versions (v ∷ versions) =
    lines_to_segments (lines_of (last_of v versions)) (line_authors v versions (first_authors v))
