-- ===== src/FeatureModes/Laws/Suggesting.antt =====
-- The handlers of suggest mode.
use collab_editor.Prelude.{
  ◌≡◌, refl, ap, ◌∙◌, Bool, true, false, not, List, Option, none, Text, if◌then◌else◌, if-holds,
  Bool-cases, inl, inr, arith,
}
use collab_editor.Suggest.{Built, built, failed}
use collab_editor.Yjs.{SharedDoc}
use collab_editor.Suggest.Engine.{
  SuggestEngine, enable, disable, discard, commit, has_pending_changes,
}
use collab_editor.Blame.{BlameSegment}
use collab_editor.FeatureModes.{
  FeatureMode, no_mode, suggest, same_mode, Editor, activate_feature_mode,
}
use collab_editor.FeatureModes.Release.{
  gate, enable-gate, enable-idle, disable-gate, discard-gate, commit-gate, blame_state,
}
use collab_editor.FeatureModes.Leaving.{activate_feature_mode-cases}
use collab_editor.FeatureModes.Exclusive.{IsExclusiveIn, IsExclusive, IsClosed, exclusive-IsClosed}
use collab_editor.FeatureModes.Handlers.{current, with_suggester}
use collab_editor.FeatureModes.Handlers.Suggesting.{
  committed_as, start_suggesting, stop_suggesting, handle_suggest_toggle, commit_pending_suggestion,
}
use collab_editor.FeatureModes.Laws.{InMode-Ex, Ex-InMode, plain-IsExclusive}

module _ (y : SharedDoc) (Doc : Type 0) (live_blame : Doc → List BlameSegment)
    (serialized : y.Doc → Text) where
  abbrev E : Type 0
  E = Editor y Doc live_blame

  abbrev ExIn : FeatureMode → E → Type 0
  ExIn = IsExclusiveIn y Doc live_blame serialized

  abbrev Ex : E → Type 0
  Ex = IsExclusive y Doc live_blame serialized

  -- Nothing is drafted, blamed or open.
  abbrev pub IsQuiet : E → Type 0
  IsQuiet e =
      (gate y e.suggester ≡ (false, (false, true)))
      × ((blame_state y Doc live_blame serialized e.blamer ≡ (true, false))
          × IsClosed y Doc live_blame serialized e)

  stop_suggesting-IsExclusive :
      (e : E) → IsQuiet e → Ex (stop_suggesting y Doc live_blame serialized e)
  unfolding stop_suggesting same_mode
  stop_suggesting-IsExclusive e (gated, (blamed, (a, (b, (c, (d, f)))))) =
      plain-IsExclusive y Doc live_blame serialized no_mode
        (record e { mode = no_mode; suggest_pending = false; coordinator_suggest = false }) gated
        blamed (λ some_open. absurd (ground (arith, rw (a, b, c) at some_open))) d f

  -- What a commit of pending changes leaves, for the mode that it is done in.
  pub committed_as-gate :
      (s : SuggestEngine y) (answer : Built) (e : E)
      → (gate y (committed_as y Doc live_blame serialized s answer e).suggester ≡ gate y s)
        × (((committed_as y Doc live_blame serialized s answer e).mode ≡ e.mode)
            × (IsClosed y Doc live_blame serialized e
                → IsClosed y Doc live_blame serialized
                    (committed_as y Doc live_blame serialized s answer e)))
  unfolding committed_as
  committed_as-gate s (failed error) e = (refl, (refl, λ h. h))
  committed_as-gate s (built payload) e =
      if-holds
        (λ (q : E).
          (gate y q.suggester ≡ gate y s)
          × ((q.mode ≡ e.mode)
              × (IsClosed y Doc live_blame serialized e → IsClosed y Doc live_blame serialized q)))
        (e.takes payload) _ _ (λ _. (refl, (refl, λ h. h))) (λ _. (refl, (refl, λ h. h)))

  committed_as-blamer :
      (s : SuggestEngine y) (answer : Built) (e : E)
      → blame_state y Doc live_blame serialized
          (committed_as y Doc live_blame serialized s answer e).blamer
        ≡ blame_state y Doc live_blame serialized e.blamer
  unfolding committed_as
  committed_as-blamer s (failed error) e = refl
  committed_as-blamer s (built payload) e =
      if-holds
        (λ (q : E).
          blame_state y Doc live_blame serialized q.blamer
          ≡ blame_state y Doc live_blame serialized e.blamer)
        (e.takes payload) _ _ (λ _. refl) (λ _. refl)

  suggest-IsQuiet :
      (s : SuggestEngine y) (e : E)
      → gate y s ≡ (false, (false, true))
      → ExIn suggest e
      → IsQuiet (with_suggester y Doc live_blame serialized s e)
  unfolding same_mode
  suggest-IsQuiet s e released h =
      let (gated, (blamed, rest)) = h in
      (released, (blamed, exclusive-IsClosed y Doc live_blame serialized suggest e refl h))

  pub commit-IsQuiet :
      (author_note : Option Text) (e : E)
      → ExIn suggest e
      → has_pending_changes y (current y Doc live_blame serialized e) e.suggester ≡ true
      → IsQuiet (commit_pending_suggestion y Doc live_blame serialized author_note e)
  unfolding commit_pending_suggestion same_mode
  commit-IsQuiet author_note e h waits =
      let (gated, (blamed, rest)) = h in
      let done = commit y author_note (current y Doc live_blame serialized e) e.suggester in
      let (gates, (mode, closes)) = committed_as-gate done.0 done.1 e in
      if-holds IsQuiet _ e (committed_as y Doc live_blame serialized done.0 done.1 e)
        (λ idle. absurd (ground (arith, idle, waits)))
        (λ _. (
          gates
              ∙ commit-gate y author_note _ e.suggester waits
              ∙ ap (λ g. (g.0, (false, true))) gated,
          (
            committed_as-blamer done.0 done.1 e ∙ blamed,
            closes (exclusive-IsClosed y Doc live_blame serialized suggest e refl h),
          ),
        ))

  suggest_off-IsExclusive :
      (submits : Bool) (e : E)
      → ExIn suggest e
      → Ex (handle_suggest_toggle y Doc live_blame serialized false submits e)
  unfolding handle_suggest_toggle same_mode
  suggest_off-IsExclusive submits e h =
      let (gated, (blamed, rest)) = h in
      let drafts = ap (λ g. g.1.0) gated in
      let kept = ap (λ g. (g.0, (false, true))) gated in
      let quiet =
        if-holds IsQuiet (has_pending_changes y (current y Doc live_blame serialized e) e.suggester)
          (if submits
            then commit_pending_suggestion y Doc live_blame serialized none e
            else with_suggester y Doc live_blame serialized (discard y e.suggester) e)
          (with_suggester y Doc live_blame serialized (disable y e.suggester) e)
          (λ waits.
            if-holds IsQuiet submits _ _ (λ _. commit-IsQuiet none e h waits)
              (λ _.
                suggest-IsQuiet (discard y e.suggester) e (discard-gate y e.suggester drafts ∙ kept)
                  h))
          (λ _.
            suggest-IsQuiet (disable y e.suggester) e (disable-gate y e.suggester drafts ∙ kept)
              h) in
      stop_suggesting-IsExclusive _ quiet

  suggest_on-IsExclusive :
      (submits : Bool) (e : E)
      → same_mode e.mode suggest ≡ false
      → Ex e
      → Ex (handle_suggest_toggle y Doc live_blame serialized true submits e)
  unfolding handle_suggest_toggle start_suggesting same_mode
  suggest_on-IsExclusive submits e away h =
      let s = activate_feature_mode y Doc live_blame serialized suggest e in
      elim (activate_feature_mode-cases y Doc live_blame serialized suggest e h) [
        | inl (same, stays) ↦ absurd (ground (arith, same, away))
        | inr (now, (free, (blamed, (a, (b, (c, (d, f))))))) ↦
            let drafting = record s {
              suggester = enable y (current y Doc live_blame serialized s) s.suggester;
              coordinator_suggest = s.suggest_available;
            } in
            let gated = elim free as (λ _. gate y drafting.suggester ≡ (false, (true, false))) [
              | inl released ↦
                  enable-gate y _ s.suggester (ap (λ g. g.0) released) (ap (λ g. g.1.0) released)
              | inr (drafts, active) ↦ enable-idle y _ s.suggester (ap (λ g. g.1.0) active) ∙ active
            ] in
            InMode-Ex y Doc live_blame serialized suggest drafting (
              now,
              plain-IsExclusive y Doc live_blame serialized suggest drafting gated blamed
                  (λ some_open. absurd (ground (arith, rw (a, b, c) at some_open))) d f,
            )
      ]

  pub handle_suggest_toggle-IsExclusive :
      (submits : Bool) (e : E)
      → Ex e
      → Ex (
          handle_suggest_toggle y Doc live_blame serialized
            (not (same_mode e.mode suggest))
            submits
            e)
  handle_suggest_toggle-IsExclusive submits e h = elim (Bool-cases (same_mode e.mode suggest)) [
    | inl there ↦
        let (now, hm) = Ex-InMode y Doc live_blame serialized suggest e there h in
        toggled (same_mode e.mode suggest) true there (suggest_off-IsExclusive submits e hm)
    | inr away ↦
        toggled (same_mode e.mode suggest) false away (suggest_on-IsExclusive submits e away h)
  ]
    where
      toggled :
          (b d : Bool)
          → b ≡ d
          → Ex (handle_suggest_toggle y Doc live_blame serialized (not d) submits e)
          → Ex (handle_suggest_toggle y Doc live_blame serialized (not b) submits e)
      toggled b d same k = rw same k
