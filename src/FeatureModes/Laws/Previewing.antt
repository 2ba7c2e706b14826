-- ===== src/FeatureModes/Laws/Previewing.antt =====
-- Previews of suggestions keep the modes exclusive.
use collab_editor.Prelude.{
  ◌≡◌, refl, sym, ap, ◌∙◌, true, false, not, List, Option, none, some, Text, text_eq_sound,
  if-holds, arith,
}
use collab_editor.Yjs.{SharedDoc}
use collab_editor.Blame.{BlameSegment}
use collab_editor.Comments.Poll.{CommentThread}
use collab_editor.Replicator.{editor_side, other}
use collab_editor.FeatureModes.{
  suggest, comments, same_mode, is_some, Editor, set_outbound, end_preview_of, end_preview,
}
use collab_editor.FeatureModes.Release.{gate, receive-outbound}
use collab_editor.FeatureModes.Leaving.{reset-gate}
use collab_editor.FeatureModes.Exclusive.{Previews, IsExclusiveIn}
use collab_editor.FeatureModes.Handlers.{
  Preview, no_anchor, unchanged, changes, is_thread, id_of, preview_collab, shows_preview,
  start_suggestion_preview, end_other_preview,
}
use collab_editor.FeatureModes.Laws.{plain-IsExclusive}

module _ (y : SharedDoc) (Doc : Type 0) (live_blame : Doc → List BlameSegment)
    (serialized : y.Doc → Text) where
  abbrev E : Type 0
  E = Editor y Doc live_blame

  -- A preview that is over, whichever comments are open.
  ended-IsExclusive :
      (p : Option Text) (thread : Option CommentThread) (coordinator : Option Text) (e : E)
      → e.mode ≡ comments
      → e.previewing ≡ p
      → IsExclusiveIn y Doc live_blame serialized comments e
      → IsExclusiveIn y Doc live_blame serialized comments
          (record (end_preview_of y Doc live_blame serialized p e) {
            thread = thread;
            coordinator_thread = coordinator;
          })
  unfolding end_preview_of same_mode
  ended-IsExclusive none thread coordinator e now absent
        (gated, (blamed, (opened, (of_thread, muted)))) =
      plain-IsExclusive y Doc live_blame serialized comments
        (record e { thread = thread; coordinator_thread = coordinator })
        (gated ∙ ap (λ p. (false, (false, not (is_some p)))) absent) blamed (λ _. refl) absent
        (muted ∙ ap is_some absent)
  ended-IsExclusive (some id) thread coordinator e now there (gated, (blamed, rest)) =
      let away : same_mode e.mode suggest ≡ false = ap (λ n. same_mode n suggest) now in
      let released =
        if-holds (λ s. gate y s ≡ (false, (false, true))) (same_mode e.mode suggest) _ _
          (λ drafts. absurd (ground (arith, drafts, away)))
          (λ _.
            reset-gate y Doc live_blame serialized e.suggester (ap (λ g. g.0) gated)
              (ap (λ g. g.1.0) gated)) in
      (released, (blamed, ((λ _. refl), (tt, refl))))

  is_thread-Previews :
      (thread : Option CommentThread) (id : Text)
      → is_thread (id_of thread) id ≡ true
      → Previews (some id) thread
  is_thread-Previews none id h = absurd (ground (arith, h))
  is_thread-Previews (some t) id h = sym (text_eq_sound t.id id h)

  pub shown-IsExclusive :
      (p : Option Text) (thread : Option CommentThread) (e : E)
      → e.mode ≡ comments
      → e.previewing ≡ p
      → IsExclusiveIn y Doc live_blame serialized comments e
      → IsExclusiveIn y Doc live_blame serialized comments
          (record (end_other_preview y Doc live_blame serialized p thread e) {
            thread = thread;
            coordinator_thread = id_of thread;
          })
  unfolding end_other_preview end_preview_of same_mode
  shown-IsExclusive none thread e now absent h =
      ended-IsExclusive none thread (id_of thread) e now absent h
  shown-IsExclusive (some id) thread e now there h =
      if-holds
        (λ (q : E).
          IsExclusiveIn y Doc live_blame serialized comments
            (record q { thread = thread; coordinator_thread = id_of thread }))
        (is_thread (id_of thread) id) e (end_preview y Doc live_blame serialized e)
        (λ same.
          let (gated, (blamed, (opened, (of_thread, rest)))) = h in
          (gated, (blamed, ((λ _. refl), (rw there (is_thread-Previews thread id same), rest)))))
        (λ _. ended-IsExclusive e.previewing thread (id_of thread) e now refl h)

  ended-mode :
      (p : Option Text) (e : E) → (end_preview_of y Doc live_blame serialized p e).mode ≡ e.mode
  unfolding end_preview_of
  ended-mode none e = refl
  ended-mode (some id) e = refl

  pub other-mode :
      (p : Option Text) (thread : Option CommentThread) (e : E)
      → (end_other_preview y Doc live_blame serialized p thread e).mode ≡ e.mode
  unfolding end_other_preview
  other-mode none thread e = refl
  other-mode (some id) thread e =
      if-holds (λ (q : E). q.mode ≡ e.mode) (is_thread (id_of thread) id) e _ (λ _. refl)
        (λ _. ended-mode e.previewing e)

  preview_collab-outbound :
      (preview : Preview y) (e : E)
      → (preview_collab y Doc live_blame serialized preview
          (set_outbound y Doc live_blame false e.suggester).collab).outbound_open
        ≡ false
  preview_collab-outbound no_anchor e = refl
  preview_collab-outbound unchanged e = refl
  preview_collab-outbound (changes u) e = receive-outbound y editor_side u other _

  pub start_suggestion_preview-IsExclusive :
      (preview : Preview y) (t : CommentThread) (e : E)
      → e.thread ≡ some t
      → IsExclusiveIn y Doc live_blame serialized comments e
      → IsExclusiveIn y Doc live_blame serialized comments
          (start_suggestion_preview y Doc live_blame serialized preview t.id e)
  unfolding start_suggestion_preview same_mode
  start_suggestion_preview-IsExclusive preview t e there (gated, (blamed, rest)) =
      if-holds (IsExclusiveIn y Doc live_blame serialized comments)
        (shows_preview y Doc live_blame serialized preview) _ e
        (λ _. (
          ap (λ gone. (e.suggester.destroyed, (e.suggester.enabled, gone)))
                (preview_collab-outbound preview e)
              ∙ ap (λ g. (g.0, (g.1.0, false))) gated,
          (blamed, ((λ _. refl), (rw there refl, refl))),
        ))
        (λ _. (gated, (blamed, rest)))
