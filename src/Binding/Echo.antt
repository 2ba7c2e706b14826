-- ===== src/Binding/Echo.antt =====
-- What reaches the shared text: the user's edits, and no echo of what came from it.
use collab_editor.Prelude.{
  ◌≡◌, refl, ap, ◌∙◌, sym, ◌⊎◌, inl, inr, Bool, true, false, List, [], ◌∷◌, any, text_eq,
  text_eq_sound, text_eq_refl, arith, Bool-cases, List-cases,
}
use collab_editor.Yjs.{SharedText}
use collab_editor.Diff.Affix.Edit.{to_string-apply_string_diff, KeepsPairs}
use collab_editor.Binding.{
  RichEditor, TextBinding, Event, editor_update, ytext_changed, apply_content_to_editor,
  apply_ytext_to_editor, apply_editor_to_ytext, load_initial_content, set_paused, retarget_ytext,
  step, run, typed, timer_fired, remote, microtask, loaded, pausing, retargeted,
}

module _ (y : SharedText) (r : RichEditor) where
  -- No write-back is pending, or it will find the content that was applied last.
  abbrev pub IsQuiet : TextBinding y r → Type 0
  IsQuiet b =
      (b.sync_timer ≡ false) ⊎ (r.get_serialized_content b.editor ≡ b.last_applied_from_ytext)

  abbrev pub is_typed : Event y r → Bool
  is_typed (typed editor) = true
  is_typed _ = false

  -- The shared text as the other peers, a retarget and the first content leave it.
  abbrev pub theirs : Event y r → y.Doc → y.Doc
  theirs (remote ytext) d = ytext
  theirs (retargeted ytext) d = ytext
  theirs (loaded content) d = elim (y.to_string d) [ [] ↦ y.insert 0 content d | c ∷ s ↦ d ]
  theirs _ d = d

  abbrev pub all_theirs : List (Event y r) → y.Doc → y.Doc
  all_theirs [] d = d
  all_theirs (event ∷ events) d = all_theirs events (theirs event d)

  apply_ytext_to_editor-IsQuiet :
      (b : TextBinding y r)
      → IsQuiet b
      → IsQuiet (apply_ytext_to_editor y r b) × ((apply_ytext_to_editor y r b).ytext ≡ b.ytext)
  unfolding apply_ytext_to_editor apply_content_to_editor editor_update
  apply_ytext_to_editor-IsQuiet b h = elim (List-cases (y.to_string b.ytext)) [
    | inl empty ↦ rw (empty, apply_ytext_to_editor, IsQuiet) (h, refl)
    | inr (c, s, full) ↦ rw (full, apply_ytext_to_editor, IsQuiet) (ground arith)
  ]

  apply_editor_to_ytext_quiet :
      (b : TextBinding y r)
      → r.get_serialized_content b.editor ≡ b.last_applied_from_ytext
      → apply_editor_to_ytext y r b ≡ b
  unfolding apply_editor_to_ytext
  apply_editor_to_ytext_quiet b h =
      let same : text_eq (r.get_serialized_content b.editor) b.last_applied_from_ytext ≡ true =
        rw h (text_eq_refl _) in
      ground (arith, same)

  step-IsQuiet :
      (event : Event y r) (b : TextBinding y r)
      → is_typed event ≡ false
      → IsQuiet b
      → IsQuiet (step y r event b) × ((step y r event b).ytext ≡ theirs event b.ytext)
  unfolding step editor_update ytext_changed load_initial_content apply_content_to_editor set_paused
      retarget_ytext
  step-IsQuiet (typed editor) b mine h = ground (arith, mine)
  step-IsQuiet timer_fired b mine h = elim (Bool-cases b.sync_timer) [
    | inl armed ↦
        let applied : r.get_serialized_content b.editor ≡ b.last_applied_from_ytext =
          ground (arith, h, armed) in
        rw (armed, step, IsQuiet)
          (rw (apply_editor_to_ytext_quiet (record b { sync_timer = false }) applied, IsQuiet)
            (inl refl, refl))
    | inr idle ↦ rw (idle, step, IsQuiet) (inl refl, refl)
  ]
  step-IsQuiet (remote ytext) b mine h = ground (arith, h)
  step-IsQuiet microtask b mine h =
      let applied = apply_ytext_to_editor-IsQuiet (record b { ytext_pending_apply = false }) h in
      ground (arith, h, applied)
  step-IsQuiet (loaded content) b mine h = elim (List-cases (y.to_string b.ytext)) [
    | inl empty ↦ rw (empty, load_initial_content, IsQuiet) (ground (arith, h, empty))
    | inr (c, s, full) ↦
        rw (full, load_initial_content, IsQuiet, theirs) (apply_ytext_to_editor-IsQuiet b h)
  ]
  step-IsQuiet (pausing true) b mine h = (inl refl, refl)
  step-IsQuiet (pausing false) b mine h =
      apply_ytext_to_editor-IsQuiet (record b { paused = false }) h
  step-IsQuiet (retargeted ytext) b mine h =
      let applied =
        apply_ytext_to_editor-IsQuiet (record b { sync_timer = false; ytext = ytext }) (inl refl) in
      ground (arith, h, applied)

  -- From a binding that has no write-back pending, or whose editor holds what was applied last, and
  -- without edits by the user, nothing is written to the shared text but its first content, even
  -- where the editor's serialized content differs from the text that was set.
  pub ytext-run :
      (events : List (Event y r)) (b : TextBinding y r)
      → any is_typed events ≡ false
      → IsQuiet b
      → (run y r events b).ytext ≡ all_theirs events b.ytext
  unfolding run
  ytext-run [] b mine h = refl
  ytext-run (event ∷ events) b mine h =
      let first : is_typed event ≡ false = ground (arith, mine) in
      let (quiet, same) = step-IsQuiet event b first h in
      ytext-run events (step y r event b) (ground (arith, mine)) quiet ∙ ap (all_theirs events) same

  -- An edit of the user reaches the shared text when the timer fires, unless the binding is paused,
  -- is applying content itself, was given the content that was applied last, or splits a surrogate
  -- pair.
  pub to_string-typed :
      (b : TextBinding y r) (editor : r.Content)
      → b.paused ≡ false
      → b.applying_from_ytext ≡ false
      → text_eq (r.get_serialized_content editor) b.last_applied_from_ytext ≡ false
      → KeepsPairs (y.to_string b.ytext) (r.get_serialized_content editor)
      → y.to_string (step y r timer_fired (step y r (typed editor) b)).ytext
        ≡ r.get_serialized_content editor
  unfolding step editor_update apply_editor_to_ytext ytext_changed
  to_string-typed b editor going calm fresh whole =
      let written =
        to_string-apply_string_diff y b.ytext (y.to_string b.ytext)
          (r.get_serialized_content editor) refl whole in
      let same = text_eq_sound (r.get_serialized_content editor) (y.to_string b.ytext) in
      rw (going, step, editor_update)
        (rw calm (
          rw (fresh, apply_editor_to_ytext)
            (elim (Bool-cases (text_eq (r.get_serialized_content editor) (y.to_string b.ytext))) [
              | inl equal ↦ rw equal (sym (same equal))
              | inr other ↦ rw other written
            ])))
