-- ===== src/Binding.antt =====
-- `TextBinding` of frontend/src/collab/text-binding.ts: a rich-text editor and a shared text are
-- kept in step, with a debounced write-back. Debug logging is left out.
pub mod Echo
pub mod Pausing
use collab_editor.Prelude.{
  ℕ, Bool, true, false, not, ◌&&◌, ◌||◌, List, [], ◌∷◌, Text, text_eq, if◌then◌else◌,
}
use collab_editor.Yjs.{SharedText}
use collab_editor.Diff.Affix.{apply_string_diff}

-- The rich-text editor with its content handler, which are third-party code: `setContent`, and the
-- serialized content, which need not be the text that was set.
pub record RichEditor : Type 1 where
  pub Content : Type 0
  pub set_content : Text → Content → Content
  pub get_serialized_content : Content → Text

module _ (y : SharedText) (r : RichEditor) where
  open y use {Doc, to_string}
  open r use {Content}

  -- The fields. Of the timer it is kept whether it is pending.
  pub record TextBinding : Type 0 where
    pub editor : Content
    pub ytext : Doc
    pub last_applied_from_ytext : Text
    pub applying_from_ytext : Bool
    pub sync_timer : Bool
    pub paused : Bool
    pub ytext_pending_apply : Bool

  -- The handler of the editor's "update" event.
  unfoldable pub editor_update : Bool → TextBinding → TextBinding
  editor_update doc_changed b =
      if not doc_changed || (b.paused || b.applying_from_ytext)
      then b
      else record b { sync_timer = true }

  -- The observer of the shared text, for a transaction of this binding or of another origin.
  unfoldable pub ytext_changed : Bool → TextBinding → TextBinding
  ytext_changed own_origin b =
      if own_origin || (b.paused || b.ytext_pending_apply)
      then b
      else record b { ytext_pending_apply = true }

  -- `setContent` fires the "update" event at once.
  unfoldable pub apply_content_to_editor : Text → TextBinding → TextBinding
  apply_content_to_editor content b =
      editor_update true (record b { editor = r.set_content content b.editor })

  unfoldable pub apply_ytext_to_editor : TextBinding → TextBinding
  apply_ytext_to_editor b = elim (to_string b.ytext) [
    | [] ↦ b
    | c ∷ s ↦
        let b1 = record b { sync_timer = false; applying_from_ytext = true } in
        let b2 = apply_content_to_editor (c ∷ s) b1 in
        record b2 {
          applying_from_ytext = false;
          last_applied_from_ytext = r.get_serialized_content b2.editor;
        }
  ]

  unfoldable pub apply_editor_to_ytext : TextBinding → TextBinding
  apply_editor_to_ytext b =
      let serialized = r.get_serialized_content b.editor in
      let current = to_string b.ytext in
      if text_eq serialized current || text_eq serialized b.last_applied_from_ytext
      then b
      else ytext_changed true (record b { ytext = apply_string_diff y b.ytext current serialized })

  unfoldable pub new_text_binding : Content → Doc → TextBinding
  new_text_binding editor ytext = apply_ytext_to_editor (record {
    editor = editor;
    ytext = ytext;
    last_applied_from_ytext = [];
    applying_from_ytext = false;
    sync_timer = false;
    paused = false;
    ytext_pending_apply = false;
  })

  unfoldable pub load_initial_content : Text → TextBinding → TextBinding
  load_initial_content content b = elim (to_string b.ytext) [
    | [] ↦
        let b1 = ytext_changed true (record b { ytext = y.insert 0 content b.ytext }) in
        let b2 = apply_content_to_editor content b1 in
        record b2 { last_applied_from_ytext = r.get_serialized_content b2.editor }
    | c ∷ s ↦ apply_ytext_to_editor b
  ]

  unfoldable pub set_paused : Bool → TextBinding → TextBinding
  set_paused true b = record b { paused = true; sync_timer = false }
  set_paused false b = apply_ytext_to_editor (record b { paused = false })

  -- For another shared text than the present one, to which a retarget is a no-op.
  unfoldable pub retarget_ytext : Doc → TextBinding → TextBinding
  retarget_ytext new_ytext b =
      let b1 = record b { sync_timer = false; ytext = new_ytext } in
      if text_eq (r.get_serialized_content b.editor) (to_string new_ytext)
      then b1
      else apply_ytext_to_editor b1

  -- No handler is registered any more.
  unfoldable pub destroy : TextBinding → TextBinding
  destroy b = record b { sync_timer = false }

  -- What happens to a binding. The user types, the timer fires when it is pending, another peer
  -- changes the shared text, and the queued microtask runs.
  pub data Event : Type 0 where
    typed : Content → Event
    timer_fired : Event
    remote : Doc → Event
    microtask : Event
    loaded : Text → Event
    pausing : Bool → Event
    retargeted : Doc → Event

  unfoldable pub step : Event → TextBinding → TextBinding
  step (typed editor) b = editor_update true (record b { editor = editor })
  step timer_fired b =
      if b.sync_timer then apply_editor_to_ytext (record b { sync_timer = false }) else b
  step (remote ytext) b = ytext_changed false (record b { ytext = ytext })
  step microtask b =
      if b.ytext_pending_apply
      then apply_ytext_to_editor (record b { ytext_pending_apply = false })
      else b
  step (loaded content) b = load_initial_content content b
  step (pausing paused) b = set_paused paused b
  step (retargeted ytext) b = retarget_ytext ytext b

  unfoldable pub run : List Event → TextBinding → TextBinding
  run [] b = b
  run (event ∷ events) b = run events (step event b)
