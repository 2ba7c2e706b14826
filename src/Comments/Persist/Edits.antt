-- ===== src/Comments/Persist/Edits.antt =====
-- The changes of a thread that lead to no request.
use collab_editor.Prelude.{
  ◌≡◌, refl, ◌∙◌, sym, inl, inr, true, false, List, [], ◌∷◌, any, Option, none, some, arith, Text,
  text_eq, text_eq_refl, Bool-cases,
}
use collab_editor.Interfaces.{
  Comment, Suggestion, SuggestionStatus, pending, accepted, rejected, not_applicable, ThreadStatus,
  opened, resolved,
}
use collab_editor.Comments.{StoredThread, Config}
use collab_editor.Comments.Threads.{map_comment, on_comment}
use collab_editor.Comments.Persist.Requests.{new_comments-no}
use collab_editor.Comments.Persist.{
  is_new, new_comments, decision_update, updates_of, decision_eq, status_eq,
}

any-map_comment :
    (config : Config) (k comment_id : Text) (change : Comment → Comment) (cs : List Comment)
    → ((c : Comment) → (change c).id ≡ c.id)
    → any (λ d. text_eq d.id k) (map_comment config comment_id change cs)
      ≡ any (λ d. text_eq d.id k) cs
unfolding map_comment
any-map_comment config k comment_id change [] h = refl
any-map_comment config k comment_id change (c ∷ cs) h =
    let rest = any-map_comment config k comment_id change cs h in
    elim (Bool-cases (text_eq c.id comment_id)) [
      | inl it ↦ rw it (rw (h c) (ground (arith, rest)))
      | inr other ↦ rw other (ground (arith, rest))
    ]

new_comments-subset :
    (old cs : List Comment)
    → ((c : Comment)
        → any (λ d. text_eq d.id c.id) cs ≡ true
        → any (λ d. text_eq d.id c.id) old ≡ true)
    → new_comments old cs ≡ []
unfolding new_comments is_new
new_comments-subset old [] h = refl
new_comments-subset old (c ∷ cs) h =
    let known = h c (rw (text_eq_refl c.id, any)) in
    let stale : is_new old c ≡ false = rw (known, is_new) in
    new_comments-no old cs c stale
    ∙ new_comments-subset old cs (λ d there. h d (ground (arith, there)))

decision_eq_refl : (a : SuggestionStatus) → decision_eq a a ≡ true
decision_eq_refl pending = refl
decision_eq_refl accepted = refl
decision_eq_refl rejected = refl
decision_eq_refl not_applicable = refl

decision_update_same : (key : Text) (s : Option Suggestion) → decision_update key s s ≡ []
unfolding decision_update
decision_update_same key none = refl
decision_update_same key (some s) = rw (decision_eq_refl s.status) (ground arith)

status_eq_refl : (a : ThreadStatus) → status_eq a a ≡ true
status_eq_refl opened = refl
status_eq_refl resolved = refl

-- A change of one comment of a thread that the server has, which keeps the comment's id, leads to no
-- request, be it an edit, a deletion or a reaction.
pub updates_of-on_comment :
    (config : Config) (key comment_id : Text) (change : Comment → Comment) (t : StoredThread)
    → ((c : Comment) → (change c).id ≡ c.id)
    → updates_of key t (on_comment config comment_id change t) ≡ []
unfolding updates_of
updates_of-on_comment config key comment_id change t h =
    let quiet =
      new_comments-subset t.comments (map_comment config comment_id change t.comments)
        (λ c there. sym (any-map_comment config c.id comment_id change t.comments h) ∙ there) in
    rw (quiet, status_eq_refl t.status, decision_update_same key t.suggestion)
