-- ===== src/FeatureModes/Laws/Drafts.antt =====
-- Drafting again in suggest mode, after a suggestion was submitted or discarded.
use collab_editor.Prelude.{
  ◌≡◌, refl, sym, ap, ◌∙◌, true, false, List, Option, Text, if-holds, Bool-cases, inl, inr, arith,
}
use collab_editor.Yjs.{SharedDoc}
use collab_editor.Suggest.Engine.{SuggestEngine, enable, discard, commit, has_pending_changes}
use collab_editor.Blame.{BlameSegment}
use collab_editor.FeatureModes.{FeatureMode, suggest, same_mode, Editor}
use collab_editor.FeatureModes.Release.{
  gate, enable-gate, enable-idle, discard-gate, has_pending_changes-enabled, blame_state,
}
use collab_editor.FeatureModes.Exclusive.{IsExclusiveIn, IsExclusive, IsClosed, exclusive-IsClosed}
use collab_editor.FeatureModes.Handlers.{current, with_suggester}
use collab_editor.FeatureModes.Handlers.Suggesting.{
  committed_as, commit_pending_suggestion, enable_if_suggesting, handle_suggest_note_confirm,
  handle_suggest_discard,
}
use collab_editor.FeatureModes.Laws.{InMode-Ex, Ex-InMode, plain-IsExclusive}
use collab_editor.FeatureModes.Laws.Suggesting.{IsQuiet, commit-IsQuiet, committed_as-gate}

module _ (y : SharedDoc) (Doc : Type 0) (live_blame : Doc → List BlameSegment)
    (serialized : y.Doc → Text) where
  abbrev E : Type 0
  E = Editor y Doc live_blame

  abbrev Ex : E → Type 0
  Ex = IsExclusive y Doc live_blame serialized

  abbrev ExIn : FeatureMode → E → Type 0
  ExIn = IsExclusiveIn y Doc live_blame serialized

  -- Drafting again in suggest mode.
  drafting-IsExclusive :
      (s : SuggestEngine y) (e : E)
      → e.mode ≡ suggest
      → gate y s ≡ (false, (true, false))
      → blame_state y Doc live_blame serialized e.blamer ≡ (true, false)
      → IsClosed y Doc live_blame serialized e
      → Ex (with_suggester y Doc live_blame serialized s e)
  unfolding same_mode
  drafting-IsExclusive s e now gated blamed (a, (b, (c, (d, f)))) =
      let drafting = with_suggester y Doc live_blame serialized s e in
      InMode-Ex y Doc live_blame serialized suggest drafting (
        now,
        plain-IsExclusive y Doc live_blame serialized suggest drafting gated blamed
            (λ some_open. absurd (ground (arith, rw (a, b, c) at some_open))) d f,
      )

  pub handle_suggest_discard-IsExclusive :
      (e : E)
      → ExIn suggest e
      → e.mode ≡ suggest
      → Ex (handle_suggest_discard y Doc live_blame serialized e)
  unfolding handle_suggest_discard same_mode
  handle_suggest_discard-IsExclusive e h now =
      let (gated, (blamed, rest)) = h in
      let released =
        discard-gate y e.suggester (ap (λ g. g.1.0) gated) ∙ ap (λ g. (g.0, (false, true))) gated in
      drafting-IsExclusive
        (enable y
          (current y Doc live_blame serialized
            (with_suggester y Doc live_blame serialized (discard y e.suggester) e))
          (discard y e.suggester))
        (record e { suggest_pending = false }) now
        (enable-gate y _ (discard y e.suggester) (ap (λ g. g.0) released)
          (ap (λ g. g.1.0) released))
        blamed (exclusive-IsClosed y Doc live_blame serialized suggest e refl h)

  pub regated-IsExclusive :
      (s : SuggestEngine y) (e : E)
      → gate y s ≡ gate y e.suggester
      → Ex e
      → Ex (with_suggester y Doc live_blame serialized s e)
  regated-IsExclusive s e same (gated, rest) = (same ∙ gated, rest)

  enable_if_suggesting-IsExclusive :
      (e : E) → Ex e → Ex (enable_if_suggesting y Doc live_blame serialized e)
  unfolding enable_if_suggesting
  enable_if_suggesting-IsExclusive e h =
      let s = enable y (current y Doc live_blame serialized e) e.suggester in
      if-holds Ex (same_mode e.mode suggest) (with_suggester y Doc live_blame serialized s e) e
        (λ there.
          regated-IsExclusive s e (enable-idle y _ e.suggester (ap (λ g. g.1.0) h.0 ∙ there)) h)
        (λ _. h)

  drafts_again-IsExclusive :
      (e : E)
      → e.mode ≡ suggest
      → IsQuiet y Doc live_blame serialized e
      → Ex (enable_if_suggesting y Doc live_blame serialized e)
  unfolding enable_if_suggesting same_mode
  drafts_again-IsExclusive e now (gated, (blamed, closed)) =
      let s = enable y (current y Doc live_blame serialized e) e.suggester in
      if-holds Ex (same_mode e.mode suggest) (with_suggester y Doc live_blame serialized s e) e
        (λ _.
          drafting-IsExclusive s e now
            (enable-gate y _ e.suggester (ap (λ g. g.0) gated) (ap (λ g. g.1.0) gated)) blamed
            closed)
        (λ away. absurd (ground (arith, away, ap (λ m. same_mode m suggest) now)))

  commit-mode :
      (author_note : Option Text) (e : E)
      → (commit_pending_suggestion y Doc live_blame serialized author_note e).mode ≡ e.mode
  unfolding commit_pending_suggestion
  commit-mode author_note e =
      let done = commit y author_note (current y Doc live_blame serialized e) e.suggester in
      let (gates, (mode, closes)) = committed_as-gate y Doc live_blame serialized done.0 done.1 e in
      if-holds (λ (q : E). q.mode ≡ e.mode) _ e
        (committed_as y Doc live_blame serialized done.0 done.1 e) (λ _. refl) (λ _. mode)

  commit_idle :
      (author_note : Option Text) (e : E)
      → has_pending_changes y (current y Doc live_blame serialized e) e.suggester ≡ false
      → commit_pending_suggestion y Doc live_blame serialized author_note e ≡ e
  unfolding commit_pending_suggestion
  commit_idle author_note e idle =
      let done = commit y author_note (current y Doc live_blame serialized e) e.suggester in
      if-holds (λ (q : E). q ≡ e) _ e (committed_as y Doc live_blame serialized done.0 done.1 e)
        (λ _. refl) (λ waits. absurd (ground (arith, idle, waits)))

  pub handle_suggest_note_confirm-IsExclusive :
      (author_note : Option Text) (e : E)
      → Ex e
      → Ex (handle_suggest_note_confirm y Doc live_blame serialized author_note e)
  unfolding handle_suggest_note_confirm
  handle_suggest_note_confirm-IsExclusive author_note e h =
      let asked : E = record e { note_open = false } in
      elim (Bool-cases
        (has_pending_changes y (current y Doc live_blame serialized e) e.suggester)) [
          | inl waits ↦
              let there =
                sym (ap (λ g. g.1.0) h.0) ∙ has_pending_changes-enabled y _ e.suggester waits in
              let (now, hm) = Ex-InMode y Doc live_blame serialized suggest asked there h in
              drafts_again-IsExclusive
                (commit_pending_suggestion y Doc live_blame serialized author_note asked)
                (commit-mode author_note asked ∙ now)
                (commit-IsQuiet y Doc live_blame serialized author_note asked hm waits)
          | inr idle ↦
              rw (commit_idle author_note asked idle) (enable_if_suggesting-IsExclusive asked h)
        ]
