-- ===== src/FeatureModes/Exclusive.antt =====
-- When the modes of the editor exclude each other.
use collab_editor.Prelude.{
  ◌≡◌, refl, ap, ◌∙◌, ◌⊎◌, Bool, true, false, not, ◌||◌, List, Option, none, some, Text, Bool-cases,
  inl, inr, arith,
}
use collab_editor.Yjs.{SharedDoc}
use collab_editor.Suggest.Engine.{SuggestEngine}
use collab_editor.Blame.{BlameSegment}
use collab_editor.Comments.Poll.{CommentThread}
use collab_editor.FeatureModes.{
  FeatureMode, no_mode, blame, suggest, comments, same_mode, is_some, Editor,
}
use collab_editor.FeatureModes.Release.{gate, blame_state}

pub same_mode_sym : (a b : FeatureMode) → same_mode a b ≡ same_mode b a
unfolding same_mode
same_mode_sym no_mode no_mode = refl
same_mode_sym no_mode blame = refl
same_mode_sym no_mode suggest = refl
same_mode_sym no_mode comments = refl
same_mode_sym blame no_mode = refl
same_mode_sym blame blame = refl
same_mode_sym blame suggest = refl
same_mode_sym blame comments = refl
same_mode_sym suggest no_mode = refl
same_mode_sym suggest blame = refl
same_mode_sym suggest suggest = refl
same_mode_sym suggest comments = refl
same_mode_sym comments no_mode = refl
same_mode_sym comments blame = refl
same_mode_sym comments suggest = refl
same_mode_sym comments comments = refl

pub same_mode_suggest : (m : FeatureMode) → same_mode m suggest ≡ true → m ≡ suggest
unfolding same_mode
same_mode_suggest suggest h = refl
same_mode_suggest no_mode h = absurd (ground (arith, h))
same_mode_suggest blame h = absurd (ground (arith, h))
same_mode_suggest comments h = absurd (ground (arith, h))

pub same_mode_refl : (m : FeatureMode) → same_mode m m ≡ true
unfolding same_mode
same_mode_refl no_mode = refl
same_mode_refl blame = refl
same_mode_refl suggest = refl
same_mode_refl comments = refl

-- A preview is of the thread that is open.
abbrev pub Previews : Option Text → Option CommentThread → Type 0
Previews none thread = Unit
Previews (some id) none = ⊥
Previews (some id) (some t) = id ≡ t.id

pub Previews-none : (p : Option Text) → Previews p none → p ≡ none
Previews-none none h = refl
Previews-none (some id) h = absurd h

pub or3_false :
    (o : Option CommentThread) (a b : Bool)
    → (is_some o || a || b) ≡ false
    → (o ≡ none) × ((a ≡ false) × (b ≡ false))
or3_false none false false h = (refl, (refl, refl))
or3_false none false true h = absurd (ground (arith, h))
or3_false none true b h = absurd (ground (arith, h))
or3_false (some t) a b h = absurd (ground (arith, h))

module _ (y : SharedDoc) (Doc : Type 0) (live_blame : Doc → List BlameSegment)
    (serialized : y.Doc → Text) where
  -- In a mode: suggestions are drafted exactly in suggest mode, and edits go out exactly where
  -- nothing is drafted or previewed; blame is active exactly in its mode; a thread or a list is open
  -- in comments mode only; a preview is of the open thread, and while there is one, and only
  -- then, the decorations are muted.
  abbrev pub IsExclusiveIn : FeatureMode → Editor y Doc live_blame → Type 0
  IsExclusiveIn m e =
      (gate y e.suggester
        ≡ (false, (same_mode m suggest, not (same_mode m suggest || is_some e.previewing))))
      × ((blame_state y Doc live_blame serialized e.blamer ≡ (true, same_mode m blame))
          × ((((is_some e.thread || e.comments_list_open || e.suggestions_list_open) ≡ true)
                → same_mode m comments ≡ true)
              × (Previews e.previewing e.thread × (e.muted ≡ is_some e.previewing))))

  abbrev pub IsExclusive : Editor y Doc live_blame → Type 0
  IsExclusive e = IsExclusiveIn e.mode e

  -- The engine is released, or drafts already in the suggest mode that is entered.
  abbrev pub IsFree : FeatureMode → SuggestEngine y → Type 0
  IsFree m s =
      (gate y s ≡ (false, (false, true))) ⊎ ((m ≡ suggest) × (gate y s ≡ (false, (true, false))))

  abbrev pub IsClosed : Editor y Doc live_blame → Type 0
  IsClosed e =
      (e.thread ≡ none)
      × ((e.comments_list_open ≡ false)
          × ((e.suggestions_list_open ≡ false) × ((e.previewing ≡ none) × (e.muted ≡ false))))

  abbrev pub IsReleased : FeatureMode → Editor y Doc live_blame → Type 0
  IsReleased m e =
      (e.mode ≡ m)
      × (IsFree m e.suggester
          × ((blame_state y Doc live_blame serialized e.blamer ≡ (true, false)) × IsClosed e))

  -- Outside of comments mode everything is closed.
  pub exclusive-IsClosed :
      (m : FeatureMode) (e : Editor y Doc live_blame)
      → same_mode m comments ≡ false
      → IsExclusiveIn m e
      → IsClosed e
  exclusive-IsClosed m e out (gated, (blamed, (opened, (of_thread, muted)))) =
      let shut : (is_some e.thread || e.comments_list_open || e.suggestions_list_open) ≡ false =
        elim (Bool-cases (is_some e.thread || e.comments_list_open || e.suggestions_list_open)) [
          | inl some_open ↦ absurd (ground (arith, opened some_open, out))
          | inr none_open ↦ none_open
        ] in
      let (no_thread, (no_comments, no_suggestions)) = or3_false e.thread _ _ shut in
      let no_preview = Previews-none e.previewing (rw no_thread at of_thread) in
      (no_thread, (no_comments, (no_suggestions, (no_preview, muted ∙ ap is_some no_preview))))
