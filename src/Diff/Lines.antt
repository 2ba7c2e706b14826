-- ===== src/Diff/Lines.antt =====
-- `computeLineDiff` of frontend/src/collab/diff-engine.ts.
pub mod Sides
pub mod Split
pub mod Minimal
use collab_editor.Prelude.{
  ℕ, zero, suc, ◌+◌, ◌-◌, max, Bool, true, false, List, [], ◌∷◌, ◌++◌, length, get_or, Option, none,
  some, if◌then◌else◌, Text, ◌==◌,
}
use collab_editor.Diff.Lcs.{compute_lcs}

pub data LineType : Type 0 where
  added removed unchanged : LineType

pub record DiffLine : Type 0 where
  pub type : LineType
  pub content : Text
  pub old_line_number : Option ℕ
  pub new_line_number : Option ℕ

unfoldable pub cons_head : ℕ → List Text → List Text
cons_head c [] = (c ∷ []) ∷ []
cons_head c (l ∷ ls) = (c ∷ l) ∷ ls

-- `text.split(separator)` at one code unit.
unfoldable pub split_on : ℕ → Text → List Text
split_on sep [] = [] ∷ []
split_on sep (c ∷ s) = let rest = split_on sep s in if c == sep then [] ∷ rest else cons_head c rest

-- "\n"
abbrev pub newline : ℕ
newline = 10

unfoldable pub split_lines : Text → List Text
split_lines [] = []
split_lines (c ∷ s) = split_on newline (c ∷ s)

abbrev pub removed_line : List Text → ℕ → DiffLine
removed_line old oi = record {
  type = removed;
  content = get_or old oi [];
  old_line_number = some (oi + 1);
  new_line_number = none;
}

abbrev pub added_line : List Text → ℕ → DiffLine
added_line new ni = record {
  type = added;
  content = get_or new ni [];
  old_line_number = none;
  new_line_number = some (ni + 1);
}

abbrev pub unchanged_line : List Text → ℕ → ℕ → DiffLine
unchanged_line old oi ni = record {
  type = unchanged;
  content = get_or old oi [];
  old_line_number = some (oi + 1);
  new_line_number = some (ni + 1);
}

-- The `while` loops that push removed and added lines, by the number of rounds that they make.
unfoldable pub removed_lines : List Text → ℕ → ℕ → List DiffLine
removed_lines old oi zero = []
removed_lines old oi (suc rounds) = removed_line old oi ∷ removed_lines old (suc oi) rounds

unfoldable pub added_lines : List Text → ℕ → ℕ → List DiffLine
added_lines new ni zero = []
added_lines new ni (suc rounds) = added_line new ni ∷ added_lines new (suc ni) rounds

-- The loop over the matches, and the two trailing loops. `while (oi < oldIdx) oi++` leaves `oi` at
-- the larger of the two.
unfoldable pub diff_from : List Text → List Text → List (ℕ × ℕ) → ℕ → ℕ → List DiffLine
diff_from old new [] oi ni =
    removed_lines old oi (length old - oi) ++ added_lines new ni (length new - ni)
diff_from old new ((old_idx, new_idx) ∷ matches) oi ni =
    removed_lines old oi (old_idx - oi)
    ++ (added_lines new ni (new_idx - ni)
        ++ (unchanged_line old (max oi old_idx) (max ni new_idx)
            ∷ diff_from old new matches (suc (max oi old_idx)) (suc (max ni new_idx))))

unfoldable pub compute_line_diff : Text → Text → List DiffLine
compute_line_diff old_text new_text =
    let old = split_lines old_text in
    let new = split_lines new_text in diff_from old new (compute_lcs old new) 0 0
