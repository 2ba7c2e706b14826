-- ===== src/Suggest/Payload.antt =====
-- The anchor, the view and the operations of a suggestion describe the change exactly.
use collab_editor.Prelude.{
  ◌&&◌, ℕ, ◌+◌, ◌-◌, ◌≤◌, ◌≡◌, refl, sym, ap, ◌∙◌, inl, inr, min, List, [], ◌∷◌, ◌++◌, length, take,
  drop, arith, Text, text_eq, text_eq_iff, slice, ltb, ◌==◌, Bool-cases, take-take-drop-drop,
  length-take, length-drop, drop-drop,
}
use native.Mathlib.Decide.{dec_le}
use collab_editor.Interfaces.{OperationSummary}
use collab_editor.Diff.Affix.{common_prefix, common_suffix}
use collab_editor.Diff.Affix.Common.{common_bounds, le-common_prefix, le-common_suffix}
use collab_editor.Diff.Affix.Edit.{splice-common}
use collab_editor.Suggest.{compute_anchor, after_part, to_operation_summaries, or_empty}

module _ (base after : Text) where
  anchor_end : (compute_anchor base after).end ≡ length base - common_suffix base after
  unfolding compute_anchor
  anchor_end = let h = common_bounds base after in omega arith

  after_end :
      (compute_anchor base after).end + length after - length base
      ≡ length after - common_suffix base after
  after_end = let h = common_bounds base after in omega (arith, anchor_end)

  -- The anchor lies in the base text.
  pub compute_anchor_bounds :
      ((compute_anchor base after).start ≤ (compute_anchor base after).end)
      × ((compute_anchor base after).end ≤ length base)
  unfolding compute_anchor
  compute_anchor_bounds = let h = common_bounds base after in (omega arith, omega arith)

  -- Putting the view's new text in the place of the anchor's range turns the base text into the
  -- edited text.
  pub splice-after_part :
      take (compute_anchor base after).start base
        ++ (after_part base after (compute_anchor base after)
            ++ drop (compute_anchor base after).end base)
      ≡ after
  unfolding compute_anchor
  splice-after_part = rw (after_end, anchor_end) (splice-common base after)

  -- Likewise for the view's old text and the base text itself.
  splice-before :
      take (compute_anchor base after).start base
        ++ (slice (compute_anchor base after).start (compute_anchor base after).end base
            ++ drop (compute_anchor base after).end base)
      ≡ base
  splice-before =
      take-take-drop-drop (compute_anchor base after).start (compute_anchor base after).end base
        compute_anchor_bounds.0

  length-before :
      length (slice (compute_anchor base after).start (compute_anchor base after).end base)
      ≡ (compute_anchor base after).end - (compute_anchor base after).start
  length-before =
      let a = compute_anchor base after in
      let h = compute_anchor_bounds in
      omega (arith, length-take (a.end - a.start) (drop a.start base), length-drop a.start base)

-- What an operation says: at `offset`, `length` code units give way to the inserted text.
abbrev pub run_operations : List OperationSummary → Text → Text
run_operations [] s = s
run_operations (op ∷ ops) s =
    run_operations ops
      (take op.offset s ++ (or_empty op.inserted_text ++ drop (op.offset + op.length) s))

empty_of_length : (s : Text) → length s ≡ 0 → s ≡ []
empty_of_length [] h = refl
empty_of_length (c ∷ s) h = absurd (omega arith)

module _ (base after : Text) where
  -- The recorded operations, run on the base text, give the edited text.
  pub run_operations-to_operation_summaries :
      run_operations (to_operation_summaries base after (compute_anchor base after)) base ≡ after
  unfolding to_operation_summaries
  run_operations-to_operation_summaries =
      let a = compute_anchor base after in
      let before = slice a.start a.end base in
      let new = after_part base after a in
      let h = compute_anchor_bounds base after in
      let l = length-before base after in
      let stop : a.start + length before ≡ a.end = omega arith in
      let spliced = splice-after_part base after in
      let whole = ap (λ k. take a.start base ++ (new ++ drop k base)) stop ∙ spliced in
      elim (Bool-cases (text_eq before new)) [
        | inl same ↦
            let e = (text_eq_iff before new).0 same in
            rw same (
              sym (splice-before base after)
              ∙ ap (λ t. take a.start base ++ (t ++ drop a.end base)) e
              ∙ spliced)
        | inr differ ↦ rw differ (elim (Bool-cases ((length before == 0) && ltb 0 (length new))) [
          | inl ins ↦
              let z : length before ≡ 0 = ground arith in
              rw ins
                (ap (λ k. take a.start base ++ (new ++ drop (a.start + k) base)) (sym z) ∙ whole)
          | inr not_ins ↦
              rw not_ins (elim (Bool-cases (ltb 0 (length before) && (length new == 0))) [
                | inl del ↦
                    let z : length new ≡ 0 = ground arith in
                    rw del (
                      ap
                        (λ (t : Text).
                          take a.start base ++ (t ++ drop (a.start + length before) base))
                        (sym (empty_of_length new z))
                      ∙ whole)
                | inr not_del ↦ rw not_del whole
              ])
        ])
      ]

  shorter_suffix :
      (t t' : ℕ)
      → t ≤ t'
      → t' ≤ min (length base) (length after)
      → drop (length base - t') base ≡ drop (length after - t') after
      → drop (length base - t) base ≡ drop (length after - t) after
  shorter_suffix t t' h k e =
      let eb : length base - t' + (t' - t) ≡ length base - t = omega arith in
      let ea : length after - t' + (t' - t) ≡ length after - t = omega arith in
      ap (λ n. drop n base) (sym eb)
      ∙ sym (drop-drop (t' - t) (length base - t') base)
      ∙ ap (drop (t' - t)) e
      ∙ drop-drop (t' - t) (length after - t') after
      ∙ ap (λ n. drop n after) ea

  -- No range that encloses every change is shorter than the anchor: `q` is the length of a common
  -- prefix and `t` of a common suffix that do not overlap.
  pub compute_anchor_shortest :
      (q t : ℕ)
      → q + t ≤ min (length base) (length after)
      → take q base ≡ take q after
      → drop (length base - t) base ≡ drop (length after - t) after
      → ((compute_anchor base after).end - (compute_anchor base after).start) + (q + t)
        ≤ length base
  unfolding compute_anchor
  compute_anchor_shortest q t h e f =
      let p = common_prefix base after in
      let s = common_suffix base after in
      let bounds = common_bounds base after in
      let before = le-common_prefix base after q (omega arith) e in
      let rest = min (length base) (length after) - p in
      elim (dec_le t rest) [
        | yes fits ↦ let behind = le-common_suffix base after t fits f in omega arith
        | no over ↦
            let behind =
              le-common_suffix base after rest (omega arith)
                (shorter_suffix rest t (omega arith) (omega arith) f) in
            omega arith
      ]
