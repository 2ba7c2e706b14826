-- ===== src/Diff/Lines/Sides.antt =====
-- What a line diff says of each of the two texts.
use collab_editor.Prelude.{
  ℕ, zero, suc, ◌+◌, ◌-◌, ◌≤◌, ◌≡◌, refl, sym, ap, ◌∙◌, max, List, [], ◌∷◌, ◌++◌, length, get_or,
  drop, Option, some, arith, Text, drop-suc, drop_all, append-nil,
}
use collab_editor.Diff.Lcs.Matching.{IsFrom}
use collab_editor.Diff.Lcs.Optimal.{compute_lcs-IsCommon}
use collab_editor.Diff.Lines.{
  DiffLine, added, removed, unchanged, removed_lines, added_lines, diff_from, split_lines,
  compute_line_diff,
}

-- The lines that a diff shows of the old text, with their numbers.
abbrev pub old_side : List DiffLine → List (Option ℕ × Text)
old_side [] = []
old_side (l ∷ ls) = elim l.type [
  | added ↦ old_side ls
  | removed ↦ (l.old_line_number, l.content) ∷ old_side ls
  | unchanged ↦ (l.old_line_number, l.content) ∷ old_side ls
]

-- The lines that a diff shows of the new text, with their numbers.
abbrev pub new_side : List DiffLine → List (Option ℕ × Text)
new_side [] = []
new_side (l ∷ ls) = elim l.type [
  | added ↦ (l.new_line_number, l.content) ∷ new_side ls
  | removed ↦ new_side ls
  | unchanged ↦ (l.new_line_number, l.content) ∷ new_side ls
]

-- Lines with consecutive numbers from `i + 1` on.
abbrev pub numbered : ℕ → List Text → List (Option ℕ × Text)
numbered i [] = []
numbered i (l ∷ ls) = (some (i + 1), l) ∷ numbered (suc i) ls

module _ (old new : List Text) where
  old_side-removed :
      (oi k : ℕ) (rest : List DiffLine)
      → oi + k ≤ length old
      → old_side rest ≡ numbered (oi + k) (drop (oi + k) old)
      → old_side (removed_lines old oi k ++ rest) ≡ numbered oi (drop oi old)
  unfolding removed_lines
  old_side-removed oi zero rest h e = let z : oi + 0 ≡ oi = omega arith in rw z at e
  old_side-removed oi (suc k) rest h e =
      let s : oi + suc k ≡ suc oi + k = omega arith in
      rw (drop-suc oi old [] (omega arith)) (
        ap ((some (oi + 1), get_or old oi []) ∷◌)
          (old_side-removed (suc oi) k rest (omega arith) (rw s at e)))

  old_side-added :
      (ni k : ℕ) (rest : List DiffLine) → old_side (added_lines new ni k ++ rest) ≡ old_side rest
  unfolding added_lines
  old_side-added ni zero rest = refl
  old_side-added ni (suc k) rest = old_side-added (suc ni) k rest

  new_side-added :
      (ni k : ℕ) (rest : List DiffLine)
      → ni + k ≤ length new
      → new_side rest ≡ numbered (ni + k) (drop (ni + k) new)
      → new_side (added_lines new ni k ++ rest) ≡ numbered ni (drop ni new)
  unfolding added_lines
  new_side-added ni zero rest h e = let z : ni + 0 ≡ ni = omega arith in rw z at e
  new_side-added ni (suc k) rest h e =
      let s : ni + suc k ≡ suc ni + k = omega arith in
      rw (drop-suc ni new [] (omega arith)) (
        ap ((some (ni + 1), get_or new ni []) ∷◌)
          (new_side-added (suc ni) k rest (omega arith) (rw s at e)))

  new_side-removed :
      (oi k : ℕ) (rest : List DiffLine) → new_side (removed_lines old oi k ++ rest) ≡ new_side rest
  unfolding removed_lines
  new_side-removed oi zero rest = refl
  new_side-removed oi (suc k) rest = new_side-removed (suc oi) k rest

  old_side-diff_from :
      (ps : List (ℕ × ℕ)) (oi ni : ℕ)
      → oi ≤ length old
      → IsFrom old new oi ni ps
      → old_side (diff_from old new ps oi ni) ≡ numbered oi (drop oi old)
  unfolding diff_from
  old_side-diff_from [] oi ni h m =
      let k = length old - oi in
      old_side-removed oi k (added_lines new ni (length new - ni)) (omega arith) (
        rw (drop_all (oi + k) old (omega arith)) (
          ap old_side (sym (append-nil (added_lines new ni (length new - ni))))
          ∙ old_side-added ni (length new - ni) []))
  old_side-diff_from ((o, n) ∷ ps) oi ni h (p, q, r, s, e, m) =
      let eo : oi + (o - oi) ≡ o = omega arith in
      let mo : max oi o ≡ o = omega arith in
      let mn : max ni n ≡ n = omega arith in
      old_side-removed oi (o - oi) _ (omega arith) (
        old_side-added ni (n - ni) _
        ∙ rw (eo, mo, mn, drop-suc o old [] r)
            (ap ((some (o + 1), get_or old o []) ∷◌) (old_side-diff_from ps (suc o) (suc n) r m)))

  new_side-diff_from :
      (ps : List (ℕ × ℕ)) (oi ni : ℕ)
      → ni ≤ length new
      → IsFrom old new oi ni ps
      → new_side (diff_from old new ps oi ni) ≡ numbered ni (drop ni new)
  unfolding diff_from
  new_side-diff_from [] oi ni h m =
      let k = length new - ni in
      new_side-removed oi (length old - oi) _
      ∙ ap new_side (sym (append-nil (added_lines new ni k)))
      ∙ new_side-added ni k [] (omega arith) (rw (drop_all (ni + k) new (omega arith)))
  new_side-diff_from ((o, n) ∷ ps) oi ni h (p, q, r, s, e, m) =
      let en : ni + (n - ni) ≡ n = omega arith in
      let mo : max oi o ≡ o = omega arith in
      let mn : max ni n ≡ n = omega arith in
      new_side-removed oi (o - oi) _
      ∙ new_side-added ni (n - ni) _ (omega arith) (
          rw (en, mo, mn, drop-suc n new [] s, e)
            (ap ((some (n + 1), get_or new n []) ∷◌) (new_side-diff_from ps (suc o) (suc n) s m)))

-- The removed and the unchanged lines of a diff, in order, are the lines of the old text, numbered
-- from 1.
pub old_side-compute_line_diff :
    (old_text new_text : Text)
    → old_side (compute_line_diff old_text new_text) ≡ numbered 0 (split_lines old_text)
unfolding compute_line_diff
old_side-compute_line_diff s t =
    old_side-diff_from (split_lines s) (split_lines t) _ 0 0 (omega arith)
      (compute_lcs-IsCommon _ _)

-- The added and the unchanged lines of a diff, in order, are the lines of the new text, numbered
-- from 1.
pub new_side-compute_line_diff :
    (old_text new_text : Text)
    → new_side (compute_line_diff old_text new_text) ≡ numbered 0 (split_lines new_text)
unfolding compute_line_diff
new_side-compute_line_diff s t =
    new_side-diff_from (split_lines s) (split_lines t) _ 0 0 (omega arith)
      (compute_lcs-IsCommon _ _)
