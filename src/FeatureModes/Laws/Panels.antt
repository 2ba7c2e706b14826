-- ===== src/FeatureModes/Laws/Panels.antt =====
-- The panels of comments and suggestions keep the modes exclusive.
use collab_editor.Prelude.{
  ◌≡◌, refl, ap, ◌∙◌, Bool, true, false, not, ◌||◌, List, Option, none, some, Text, text_eq_sound,
  if-holds, arith,
}
use collab_editor.Yjs.{SharedDoc}
use collab_editor.Suggest.Engine.{has_pending_changes}
use collab_editor.Blame.{BlameSegment}
use collab_editor.Comments.Poll.{CommentThread}
use collab_editor.FeatureModes.{
  FeatureMode, comments, same_mode, is_some, Editor, activate_feature_mode,
}
use collab_editor.FeatureModes.Exclusive.{Previews, IsExclusiveIn, IsExclusive}
use collab_editor.FeatureModes.Handlers.{is_thread, id_of, current}
use collab_editor.FeatureModes.Handlers.Suggesting.{handle_suggest_submit}
use collab_editor.FeatureModes.Handlers.Panels.{
  content_changed, handle_comments_list_toggle, handle_suggestions_list_toggle, threads_changed,
}
use collab_editor.FeatureModes.Laws.{InMode-Ex, enter_comments, maybe_exit-IsExclusive}

-- Closing a list leaves nothing else open.
drop_second : (a b c : Bool) → (a || false || c) ≡ true → (a || b || c) ≡ true
drop_second true b c h = refl
drop_second false true c h = refl
drop_second false false c h = h

drop_third : (a b c : Bool) → (a || b || false) ≡ true → (a || b || c) ≡ true
drop_third true b c h = refl
drop_third false true c h = refl
drop_third false false c h = absurd (ground (arith, h))

module _ (y : SharedDoc) (Doc : Type 0) (live_blame : Doc → List BlameSegment)
    (serialized : y.Doc → Text) where
  abbrev E : Type 0
  E = Editor y Doc live_blame

  abbrev Ex : E → Type 0
  Ex = IsExclusive y Doc live_blame serialized

  abbrev ExIn : FeatureMode → E → Type 0
  ExIn = IsExclusiveIn y Doc live_blame serialized

  pub comments_closed-IsExclusive : (e : E) → Ex e → Ex (record e { comments_list_open = false })
  comments_closed-IsExclusive e (gated, (blamed, (opened, rest))) =
      (gated, (blamed, ((λ still. opened (drop_second (is_some e.thread) _ _ still)), rest)))

  pub suggestions_closed-IsExclusive :
      (e : E) → Ex e → Ex (record e { suggestions_list_open = false })
  suggestions_closed-IsExclusive e (gated, (blamed, (opened, rest))) =
      (gated, (blamed, ((λ still. opened (drop_third (is_some e.thread) _ _ still)), rest)))

  -- A list is opened in comments mode.
  listed-IsExclusive :
      (of_comments of_suggestions : Bool) (e : E)
      → Ex e
      → Ex (record (activate_feature_mode y Doc live_blame serialized comments e) {
        comments_list_open = of_comments;
        suggestions_list_open = of_suggestions;
      })
  unfolding same_mode
  listed-IsExclusive of_comments of_suggestions e h =
      let a = activate_feature_mode y Doc live_blame serialized comments e in
      let (now, (gated, (blamed, (opened, rest)))) =
        enter_comments y Doc live_blame serialized e h in
      InMode-Ex y Doc live_blame serialized comments
        (record a { comments_list_open = of_comments; suggestions_list_open = of_suggestions })
        (now, (gated, (blamed, ((λ _. refl), rest))))

  pub handle_comments_list_toggle-IsExclusive :
      (e : E) → Ex e → Ex (handle_comments_list_toggle y Doc live_blame serialized e)
  unfolding handle_comments_list_toggle
  handle_comments_list_toggle-IsExclusive e h =
      maybe_exit-IsExclusive y Doc live_blame serialized _ (
        if-holds Ex e.comments_list_open (record e { comments_list_open = false })
          (record (activate_feature_mode y Doc live_blame serialized comments e) {
            comments_list_open = true;
            suggestions_list_open = false;
          })
          (λ _. comments_closed-IsExclusive e h) (λ _. listed-IsExclusive true false e h))

  pub handle_suggestions_list_toggle-IsExclusive :
      (e : E) → Ex e → Ex (handle_suggestions_list_toggle y Doc live_blame serialized e)
  unfolding handle_suggestions_list_toggle
  handle_suggestions_list_toggle-IsExclusive e h =
      maybe_exit-IsExclusive y Doc live_blame serialized _ (
        if-holds Ex e.suggestions_list_open (record e { suggestions_list_open = false })
          (record (activate_feature_mode y Doc live_blame serialized comments e) {
            suggestions_list_open = true;
            comments_list_open = false;
          })
          (λ _. suggestions_closed-IsExclusive e h) (λ _. listed-IsExclusive false true e h))

  pub content_changed-IsExclusive :
      (e : E) → Ex e → Ex (content_changed y Doc live_blame serialized e)
  unfolding content_changed
  content_changed-IsExclusive e h =
      if-holds Ex (is_some e.previewing || not e.suggester.enabled) e
        (record e {
          suggest_pending =
              has_pending_changes y (current y Doc live_blame serialized e) e.suggester;
        })
        (λ _. h) (λ _. h)

  pub handle_suggest_submit-IsExclusive :
      (e : E) → Ex e → Ex (handle_suggest_submit y Doc live_blame serialized e)
  unfolding handle_suggest_submit
  handle_suggest_submit-IsExclusive e h =
      if-holds Ex _ e (record e { note_open = true }) (λ _. h) (λ _. h)

  -- A thread takes the place of itself.
  refreshed_Previews :
      (p : Option Text) (old : Option CommentThread) (t : CommentThread)
      → is_thread (id_of old) t.id ≡ true
      → Previews p old
      → Previews p (some t)
  refreshed_Previews none old t same h = tt
  refreshed_Previews (some id) none t same h = absurd h
  refreshed_Previews (some id) (some o) t same h = h ∙ text_eq_sound o.id t.id same

  pub threads_changed-IsExclusive :
      (t : CommentThread) (e : E)
      → is_thread (id_of e.thread) t.id ≡ true
      → Ex e
      → Ex (threads_changed y Doc live_blame serialized (some t) e)
  unfolding threads_changed
  threads_changed-IsExclusive t e same (gated, (blamed, (opened, (of_thread, rest)))) =
      if-holds Ex (is_some e.thread) (record e { thread = some t }) e
        (λ there. (
          gated,
          (
            blamed,
            (
              (λ _. opened (ap (λ b. b || e.comments_list_open || e.suggestions_list_open) there)),
              (refreshed_Previews e.previewing e.thread t same of_thread, rest),
            ),
          ),
        ))
        (λ _. (gated, (blamed, (opened, (of_thread, rest)))))
