-- ===== src/Blame/Versions/Segments.antt =====
-- The segments of version blame tile the text and follow the authors of the lines.
use collab_editor.Prelude.{
  ◌==◌, false, ℕ, zero, suc, ◌+◌, ◌≡◌, refl, ap, ◌∙◌, List, [], ◌∷◌, ◌++◌, append_assoc, append-nil,
  length, get_elem?, arith, Text, text, replicate, length-append,
}
use collab_editor.Diff.Lines.{newline}
use collab_editor.Diff.Lines.Split.{join, join-split_on}
use collab_editor.Blame.{BlameSegment}
use collab_editor.Blame.Tiling.{
  Tiles, authors_of, NoneEmpty, push_run-Tiles, authors_of-push_run, push_run-NoneEmpty,
}
use collab_editor.Blame.Versions.{
  VersionEntry, or_else, split_lines, lines_of, last_of, line_length, line_authors, first_authors,
  push_line, segments_from, lines_to_segments, compute_blame_from_versions,
}

-- The author of each code unit, line by line, a line break with the line that it ends.
abbrev pub spread : List Text → ℕ → List Text → List Text
spread authors i [] = []
spread authors i (line ∷ rest) =
    replicate (line_length line rest) (or_else (get_elem? authors i) (text "unknown"))
    ++ spread authors (i + 1) rest

abbrev total_length : List Text → ℕ
total_length [] = 0
total_length (line ∷ rest) = line_length line rest + total_length rest

-- What the loop keeps.
record IsBlame (segments : List BlameSegment) (offset : ℕ) (authors : List Text) : Type 0 where
  tiles : Tiles 0 segments offset
  by : authors_of segments ≡ authors
  no_empty : NoneEmpty segments

push_line-IsBlame :
    (len : ℕ) (segments : List BlameSegment) (offset : ℕ) (author : Text) (authors : List Text)
    → IsBlame segments offset authors
    → IsBlame
        (push_line segments offset len author)
        (offset + len)
        (authors ++ replicate len author)
unfolding push_line
push_line-IsBlame zero segments offset author authors b =
    let z : offset + 0 ≡ offset = omega arith in rw (z, append-nil) b
push_line-IsBlame (suc n) segments offset author authors b =
    let positive : (suc n == 0) ≡ false = ground arith in
    rw positive (record {
      tiles = push_run-Tiles offset (suc n) author 0 segments b.tiles;
      by =
          authors_of-push_run offset (suc n) author 0 segments b.tiles
          ∙ ap (◌++ replicate (suc n) author) b.by;
      no_empty = push_run-NoneEmpty offset (suc n) author segments (omega arith) b.no_empty;
    })

segments_from-IsBlame :
    (authors : List Text) (i : ℕ) (lines : List Text) (offset : ℕ) (segments : List BlameSegment)
    (so_far : List Text)
    → IsBlame segments offset so_far
    → IsBlame
        (segments_from authors i lines offset segments)
        (offset + total_length lines)
        (so_far ++ spread authors i lines)
unfolding segments_from
segments_from-IsBlame authors i [] offset segments so_far b =
    let z : offset + 0 ≡ offset = omega arith in rw (z, append-nil) b
segments_from-IsBlame authors i (line ∷ rest) offset segments so_far b =
    let len = line_length line rest in
    let author = or_else (get_elem? authors i) (text "unknown") in
    let a : offset + (len + total_length rest) ≡ offset + len + total_length rest = omega arith in
    rw (a, ← append_assoc so_far (replicate len author) (spread authors (i + 1) rest))
      (segments_from-IsBlame authors (i + 1) rest (offset + len)
        (push_line segments offset len author) (so_far ++ replicate len author)
        (push_line-IsBlame len segments offset author so_far b))

total_length-eq : (lines : List Text) → total_length lines ≡ length (join newline lines)
total_length-eq [] = refl
total_length-eq (l ∷ []) = omega arith
total_length-eq (l ∷ m ∷ rest) =
    omega (arith, length-append l (newline ∷ join newline (m ∷ rest)), total_length-eq (m ∷ rest))

join-split_lines : (s : Text) → join newline (split_lines s) ≡ s
unfolding split_lines
join-split_lines [] = refl
join-split_lines (c ∷ s) = join-split_on newline (c ∷ s)

-- The blame of a chain of versions tiles the last version's content, with different users on
-- neighbours and no empty segment, and attributes each code unit to the author of its line.
pub compute_blame_from_versions_lem :
    (v : VersionEntry) (versions : List VersionEntry)
    → Tiles 0
        (compute_blame_from_versions (v ∷ versions))
        (length (or_else (last_of v versions).content []))
      × (authors_of (compute_blame_from_versions (v ∷ versions))
          ≡ spread (line_authors v versions (first_authors v)) 0 (lines_of (last_of v versions)))
      × NoneEmpty (compute_blame_from_versions (v ∷ versions))
unfolding compute_blame_from_versions lines_to_segments
compute_blame_from_versions_lem v versions =
    let content = or_else (last_of v versions).content [] in
    let lines = split_lines content in
    let e : 0 + total_length lines ≡ length content =
      omega (arith, total_length-eq lines, ap length (join-split_lines content)) in
    let b =
      segments_from-IsBlame (line_authors v versions (first_authors v)) 0 lines 0 [] []
        (record { tiles = refl; by = refl; no_empty = tt }) in
    (rw e at b.tiles, b.by, b.no_empty)
