-- ===== src/Diff/Affix/Edit.antt =====
-- `applyStringDiff` turns the shared text into the new string.
use collab_editor.Prelude.{
  ℕ, ◌+◌, ◌-◌, ◌≤◌, ◌≡◌, refl, sym, ap, ap₂, ◌∙◌, inl, inr, ltb, Bool-cases, length, false, take,
  drop, [], ◌∷◌, ◌++◌, arith, Text, slice, take-append-drop, take-take-drop-drop, length-take,
  length-append, take-append_left, drop-append_left, if◌then◌else◌,
}
use collab_editor.Yjs.{SharedText, splits_pair}
use collab_editor.Diff.Affix.{common_prefix, common_suffix, apply_string_diff}
use collab_editor.Diff.Affix.Common.{common_bounds, take-common_prefix, drop-common_suffix}

-- The new text from the old one: what lies between the prefix and the suffix is replaced.
pub splice-common :
    (old new : Text)
    → take (common_prefix old new) old
        ++ (slice (common_prefix old new) (length new - common_suffix old new) new
            ++ drop (length old - common_suffix old new) old)
      ≡ new
splice-common old new =
    let p = common_prefix old new in
    let q = length new - common_suffix old new in
    let bounds = common_bounds old new in
    ap₂ (λ (s t : Text). s ++ (slice p q new ++ t)) (take-common_prefix old new)
      (drop-common_suffix old new)
    ∙ take-take-drop-drop p q new (omega arith)

empty_of_length : (s : Text) → length s ≤ 0 → s ≡ []
empty_of_length [] h = refl
empty_of_length (c ∷ s) h = absurd (omega arith)

-- No surrogate pair of the old text is split where the texts differ, nor one of what is left of it.
abbrev pub KeepsPairs : Text → Text → Type 0
KeepsPairs old new =
    (splits_pair (common_prefix old new) old ≡ false)
    × ((splits_pair (length old - common_suffix old new) old ≡ false)
        × (splits_pair (common_prefix old new)
              (take (common_prefix old new) old ++ drop (length old - common_suffix old new) old)
            ≡ false))

module _ (y : SharedText) where
  open y use {Doc, to_string, delete, insert, to_string-delete, to_string-insert}

  delete_step :
      (d : Doc) (i n k : ℕ)
      → i + n ≤ length (to_string d)
      → k ≡ i + n
      → splits_pair i (to_string d) ≡ false
      → splits_pair k (to_string d) ≡ false
      → to_string (if ltb 0 n then delete i n d else d)
        ≡ take i (to_string d) ++ drop k (to_string d)
  delete_step d i n k h e a b = elim (Bool-cases (ltb 0 n)) [
    | inl some_ ↦ rw (some_, e) (to_string-delete d i n h a (rw e at b))
    | inr none_ ↦
        let z : k ≡ i = ground arith in rw (none_, z) (sym (take-append-drop i (to_string d)))
  ]

  insert_step :
      (d : Doc) (i : ℕ) (t : Text)
      → i ≤ length (to_string d)
      → splits_pair i (to_string d) ≡ false
      → to_string (if ltb 0 (length t) then insert i t d else d)
        ≡ take i (to_string d) ++ (t ++ drop i (to_string d))
  insert_step d i t h a = elim (Bool-cases (ltb 0 (length t))) [
    | inl some_ ↦ rw some_ (to_string-insert d i t h a)
    | inr none_ ↦
        rw (none_, empty_of_length t (ground arith)) (sym (take-append-drop i (to_string d)))
  ]

  -- If the shared text holds the old string, and neither end of what is replaced, nor the place where
  -- the rest of it is joined, lies between the halves of a surrogate pair, then it holds the new string
  -- afterwards.
  pub to_string-apply_string_diff :
      (ytext : Doc) (old_str new_str : Text)
      → to_string ytext ≡ old_str
      → KeepsPairs old_str new_str
      → to_string (apply_string_diff y ytext old_str new_str) ≡ new_str
  unfolding apply_string_diff
  to_string-apply_string_diff d old new e (at_start, (at_end, joined)) =
      let p = common_prefix old new in
      let s = common_suffix old new in
      let bounds = common_bounds old new in
      let n = length old - p - s in
      let stop : (if ltb 0 s then length new - s else length new) ≡ length new - s = ground arith in
      let len : length (to_string d) ≡ length old = ap length e in
      let left : p ≡ length (take p old) = omega (arith, length-take p old) in
      let deleted =
        delete_step d p n (length old - s) (omega arith) (omega arith)
          (ap (splits_pair p) e ∙ at_start) (ap (splits_pair (length old - s)) e ∙ at_end)
        ∙ ap (λ t. take p t ++ drop (length old - s) t) e in
      let size = ap length deleted ∙ length-append (take p old) (drop (length old - s) old) in
      rw stop (
        insert_step (if ltb 0 n then delete p n d else d) p (slice p (length new - s) new)
          (omega arith) (ap (splits_pair p) deleted ∙ joined)
        ∙ ap (λ t. take p t ++ (slice p (length new - s) new ++ drop p t)) deleted
        ∙ ap₂ (λ (a b : Text). a ++ (slice p (length new - s) new ++ b))
            (take-append_left p (take p old) _ left) (drop-append_left p (take p old) _ left)
        ∙ splice-common old new)
