-- ===== src/Tests/BindingTests.antt =====
-- A binding to an editor that ends its content with a line feed.
use collab_editor.Prelude.{◌≡◌, refl, inl, false, [], ◌∷◌, ◌++◌, Text, text}
use collab_editor.Binding.{RichEditor, TextBinding, timer_fired, remote, microtask, run}
use collab_editor.Binding.Echo.{ytext-run, all_theirs}
use collab_editor.Tests.Models.{plain_text}

abbrev rich : RichEditor
rich = record {
  Content = Text;
  set_content = λ content _. content ++ 10 ∷ [];
  get_serialized_content = λ content. content;
}

abbrev binding : TextBinding plain_text rich
binding = record {
  editor = text "a";
  ytext = text "a";
  last_applied_from_ytext = text "a";
  applying_from_ytext = false;
  sync_timer = false;
  paused = false;
  ytext_pending_apply = false;
}

ytext-run_example :
    (run plain_text rich (remote (text "ab") ∷ microtask ∷ timer_fired ∷ []) binding).ytext
    ≡ all_theirs plain_text rich (remote (text "ab") ∷ microtask ∷ timer_fired ∷ []) (text "a")
ytext-run_example =
    ytext-run plain_text rich (remote (text "ab") ∷ microtask ∷ timer_fired ∷ []) binding refl
      (inl refl)
