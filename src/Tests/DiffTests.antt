-- ===== src/Tests/DiffTests.antt =====
-- Line diffs and character edits.
use collab_editor.Prelude.{◌≤◌, ◌≡◌, refl, List, [], ◌∷◌, length, arith, Text, text, text_eq}
use collab_editor.Diff.Lcs.{compute_lcs, dp_table, fill_table, fill_row, cell, backtrack}
use collab_editor.Diff.Lcs.Optimal.{length-le-compute_lcs}
use collab_editor.Diff.Lines.{split_lines}
use collab_editor.Diff.Lines.Split.{join, join-split_lines}
use collab_editor.Diff.Affix.{apply_string_diff}
use collab_editor.Yjs.{splits_pair}
use collab_editor.Diff.Affix.{common_prefix, prefix_loop, common_suffix, suffix_loop}
use collab_editor.Diff.Affix.Edit.{to_string-apply_string_diff}
use collab_editor.Tests.Models.{plain_text}

abbrev old_text : Text
old_text = 97 ∷ 10 ∷ 98 ∷ 10 ∷ 99 ∷ []

abbrev new_text : Text
new_text = 97 ∷ 10 ∷ 120 ∷ 10 ∷ 99 ∷ 10 ∷ 100 ∷ []

abbrev a_b_c : List Text
a_b_c = text "a" ∷ text "b" ∷ text "c" ∷ []

abbrev a_c_d : List Text
a_c_d = text "a" ∷ text "c" ∷ text "d" ∷ []

compute_lcs_run : compute_lcs a_b_c a_c_d ≡ (0, 0) ∷ (2, 1) ∷ []
unfolding compute_lcs dp_table fill_table fill_row cell backtrack text_eq
compute_lcs_run = refl

length-le-compute_lcs_example : 1 ≤ length (compute_lcs a_b_c a_c_d)
length-le-compute_lcs_example =
    length-le-compute_lcs a_b_c a_c_d ((2, 1) ∷ [])
      (omega arith, omega arith, omega arith, omega arith, refl, tt)

join-split_lines_example : join 10 (split_lines old_text) ≡ old_text
join-split_lines_example = join-split_lines old_text

to_string-apply_string_diff_example :
    apply_string_diff plain_text (text "the cat sat") (text "the cat sat") (text "the dog sat")
    ≡ text "the dog sat"
unfolding splits_pair common_prefix prefix_loop common_suffix suffix_loop
to_string-apply_string_diff_example =
    to_string-apply_string_diff plain_text (text "the cat sat") (text "the cat sat")
      (text "the dog sat") refl (refl, (refl, refl))
