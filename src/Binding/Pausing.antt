-- ===== src/Binding/Pausing.antt =====
-- A paused binding never writes to the shared text.
use collab_editor.Prelude.{◌≡◌, ◌⊎◌, inl, inr, true, false, List, [], ◌∷◌, arith, List-cases}
use collab_editor.Yjs.{SharedText}
use collab_editor.Binding.{
  RichEditor, TextBinding, Event, editor_update, ytext_changed, apply_content_to_editor,
  apply_ytext_to_editor, apply_editor_to_ytext, load_initial_content, set_paused, retarget_ytext,
  step, run, typed, timer_fired, remote, microtask, loaded, pausing, retargeted,
}

module _ (y : SharedText) (r : RichEditor) where
  -- No write-back is pending while the binding is paused, and the guard against the editor's own
  -- event is down between events.
  abbrev pub IsCalm : TextBinding y r → Type 0
  IsCalm b = (b.applying_from_ytext ≡ false) × ((b.paused ≡ false) ⊎ (b.sync_timer ≡ false))

  apply_ytext_to_editor-IsCalm :
      (b : TextBinding y r) → IsCalm b → IsCalm (apply_ytext_to_editor y r b)
  unfolding apply_ytext_to_editor apply_content_to_editor editor_update
  apply_ytext_to_editor-IsCalm b h = elim (List-cases (y.to_string b.ytext)) [
    | inl empty ↦ rw (empty, apply_ytext_to_editor, IsCalm) h
    | inr (c, s, full) ↦ rw (full, apply_ytext_to_editor, IsCalm) (ground arith)
  ]

  pub step-IsCalm : (event : Event y r) (b : TextBinding y r) → IsCalm b → IsCalm (step y r event b)
  unfolding step editor_update ytext_changed apply_editor_to_ytext load_initial_content
      apply_content_to_editor set_paused retarget_ytext
  step-IsCalm (typed editor) b h = ground (arith, h)
  step-IsCalm timer_fired b h = ground (arith, h)
  step-IsCalm (remote ytext) b h = ground (arith, h)
  step-IsCalm microtask b h =
      let applied = apply_ytext_to_editor-IsCalm (record b { ytext_pending_apply = false }) h in
      ground (arith, h, applied)
  step-IsCalm (loaded content) b h = elim (List-cases (y.to_string b.ytext)) [
    | inl empty ↦ rw (empty, load_initial_content, IsCalm) (ground (arith, h))
    | inr (c, s, full) ↦ rw (full, load_initial_content, IsCalm) (apply_ytext_to_editor-IsCalm b h)
  ]
  step-IsCalm (pausing true) b h = ground (arith, h)
  step-IsCalm (pausing false) b h =
      apply_ytext_to_editor-IsCalm (record b { paused = false }) (ground (arith, h))
  step-IsCalm (retargeted ytext) b h =
      let applied =
        apply_ytext_to_editor-IsCalm (record b { sync_timer = false; ytext = ytext })
          (ground (arith, h)) in
      ground (arith, h, applied)

  pub run-IsCalm :
      (events : List (Event y r)) (b : TextBinding y r) → IsCalm b → IsCalm (run y r events b)
  unfolding run
  run-IsCalm [] b h = h
  run-IsCalm (event ∷ events) b h = run-IsCalm events (step y r event b) (step-IsCalm event b h)

  -- After any events from a binding that has no write-back pending while paused and is not applying
  -- content: while the binding is paused, neither typing nor the timer changes the shared text.
  pub paused_silent :
      (events : List (Event y r)) (b : TextBinding y r) (editor : r.Content)
      → IsCalm b
      → (run y r events b).paused ≡ true
      → (step y r timer_fired (step y r (typed editor) (run y r events b))).ytext
        ≡ (run y r events b).ytext
  unfolding step editor_update
  paused_silent events b editor h paused =
      let calm = run-IsCalm events b h in
      let idle : (run y r events b).sync_timer ≡ false = ground (arith, calm, paused) in
      rw (paused, step, editor_update) (rw idle)
