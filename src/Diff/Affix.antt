-- ===== src/Diff/Affix.antt =====
-- The common prefix and suffix of two texts, and the edit of what lies between: `applyStringDiff` of
-- frontend/src/collab/text-binding.ts. `computeAnchor` of suggest-engine.ts has the same two loops.
pub mod Common
pub mod Edit
use collab_editor.Prelude.{
  ℕ, zero, suc, ◌+◌, ◌-◌, min, Bool, true, false, ◌==◌, ltb, if◌then◌else◌, length, get_or, Text,
  slice,
}
use collab_editor.Yjs.{SharedText}

-- The two `while` loops, by the number of rounds that the length test allows.
unfoldable pub prefix_loop : Text → Text → ℕ → ℕ → ℕ
prefix_loop old new zero prefix = prefix
prefix_loop old new (suc rounds) prefix = elim (get_or old prefix 0 == get_or new prefix 0) [
  | true ↦ prefix_loop old new rounds (suc prefix)
  | false ↦ prefix
]

unfoldable pub suffix_loop : Text → Text → ℕ → ℕ → ℕ
suffix_loop old new zero suffix = suffix
suffix_loop old new (suc rounds) suffix =
    elim (get_or old (length old - 1 - suffix) 0 == get_or new (length new - 1 - suffix) 0) [
      | true ↦ suffix_loop old new rounds (suc suffix)
      | false ↦ suffix
    ]

unfoldable pub common_prefix : Text → Text → ℕ
common_prefix old new = prefix_loop old new (min (length old) (length new)) 0

unfoldable pub common_suffix : Text → Text → ℕ
common_suffix old new =
    suffix_loop old new (min (length old) (length new) - common_prefix old new) 0

module _ (y : SharedText) where
  open y use {Doc, delete, insert}

  unfoldable pub apply_string_diff : Doc → Text → Text → Doc
  apply_string_diff ytext old_str new_str =
      let prefix_len = common_prefix old_str new_str in
      let suffix_len = common_suffix old_str new_str in
      let delete_count = length old_str - prefix_len - suffix_len in
      let insert_end = (if ltb 0 suffix_len then length new_str - suffix_len else length new_str) in
      let insert_text = slice prefix_len insert_end new_str in
      let deleted = (if ltb 0 delete_count then delete prefix_len delete_count ytext else ytext) in
      if ltb 0 (length insert_text) then insert prefix_len insert_text deleted else deleted
