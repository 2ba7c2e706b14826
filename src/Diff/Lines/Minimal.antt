-- ===== src/Diff/Lines/Minimal.antt =====
-- A line diff changes as few lines as possible.
use collab_editor.Prelude.{
  ℕ, zero, suc, ◌+◌, ◌-◌, ◌*◌, ◌≤◌, ◌≡◌, refl, max, List, [], ◌∷◌, ◌++◌, length, arith, Text,
}
use collab_editor.Diff.Lcs.{compute_lcs}
use collab_editor.Diff.Lcs.Matching.{IsFrom, IsCommon}
use collab_editor.Diff.Lcs.Optimal.{compute_lcs-IsCommon, length-le-compute_lcs}
use collab_editor.Diff.Lines.{
  DiffLine, added, removed, unchanged, removed_lines, added_lines, diff_from, split_lines,
  compute_line_diff,
}

-- The number of added and removed lines.
abbrev pub changes : List DiffLine → ℕ
changes [] = 0
changes (l ∷ ls) = elim l.type [
  | added ↦ suc (changes ls)
  | removed ↦ suc (changes ls)
  | unchanged ↦ changes ls
]

module _ (old new : List Text) where
  changes-removed :
      (oi k : ℕ) (rest : List DiffLine)
      → changes (removed_lines old oi k ++ rest) ≡ k + changes rest
  unfolding removed_lines
  changes-removed oi zero rest = omega arith
  changes-removed oi (suc k) rest = omega (arith, changes-removed (suc oi) k rest)

  changes-added :
      (ni k : ℕ) (rest : List DiffLine) → changes (added_lines new ni k ++ rest) ≡ k + changes rest
  unfolding added_lines
  changes-added ni zero rest = omega arith
  changes-added ni (suc k) rest = omega (arith, changes-added (suc ni) k rest)

  changes-added_last : (ni k : ℕ) → changes (added_lines new ni k) ≡ k
  unfolding added_lines
  changes-added_last ni zero = refl
  changes-added_last ni (suc k) = omega (arith, changes-added_last (suc ni) k)

  changes-diff_from :
      (ps : List (ℕ × ℕ)) (oi ni : ℕ)
      → oi ≤ length old
      → ni ≤ length new
      → IsFrom old new oi ni ps
      → changes (diff_from old new ps oi ni) + 2 * length ps + oi + ni ≡ length old + length new
  unfolding diff_from
  changes-diff_from [] oi ni h k m = omega (
    arith,
    changes-removed oi (length old - oi) (added_lines new ni (length new - ni)),
    changes-added_last ni (length new - ni),
  )
  changes-diff_from ((o, n) ∷ ps) oi ni h k (p, q, r, s, e, m) =
      let mo : max oi o ≡ o = omega arith in
      let mn : max ni n ≡ n = omega arith in
      rw (mo, mn)
        (omega (
          arith,
          changes-removed oi (o - oi) _,
          changes-added ni (n - ni) _,
          changes-diff_from ps (suc o) (suc n) r s m,
        ))

-- For every common subsequence of the lines of the two texts, the edit that keeps just its lines
-- changes at least as many lines as the computed diff does.
pub changes-compute_line_diff-le :
    (old_text new_text : Text) (ps : List (ℕ × ℕ))
    → IsCommon (split_lines old_text) (split_lines new_text) ps
    → changes (compute_line_diff old_text new_text) + 2 * length ps
      ≤ length (split_lines old_text) + length (split_lines new_text)
unfolding compute_line_diff
changes-compute_line_diff-le s t ps h =
    let old = split_lines s in
    let new = split_lines t in
    omega (
      arith,
      changes-diff_from old new (compute_lcs old new) 0 0 (omega arith) (omega arith)
          (compute_lcs-IsCommon old new),
      length-le-compute_lcs old new ps h,
    )
