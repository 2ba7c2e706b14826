-- ===== src/Comments/Persist/Requests.antt =====
-- What the requests for a thread tell the server.
use collab_editor.Prelude.{
  ◌≡◌, refl, ap, ◌∙◌, sym, inl, inr, true, false, not, ◌&&◌, List, [], ◌∷◌, ◌++◌, append-nil,
  append_assoc, filter, any, map, Option, none, some, arith, Text, text_eq, text_eq_refl,
  if◌then◌else◌, Bool-cases,
}
use collab_editor.Prelude.Maps.{member}
use collab_editor.Interfaces.{
  Comment, Suggestion, SuggestionStatus, pending, ThreadStatus, opened, resolved,
}
use collab_editor.Comments.{StoredThread}
use collab_editor.Comments.Persist.{
  Request, create_request, reply_request, status_request, decision_request, delete_request, is_new,
  new_comments, status_update, decision_update, updates_of, decision_eq, status_eq, had_status,
}

-- What the server keeps of a thread: the comments' ids, the status and the suggestion's status.
pub record Copy : Type 0 where
  pub ids : List Text
  pub status : ThreadStatus
  pub decision : Option SuggestionStatus

abbrev pub copy_of : StoredThread → Copy
copy_of t = record {
  ids = map (λ c. c.id) t.comments;
  status = t.status;
  decision = (elim t.suggestion [ none ↦ none | some s ↦ some s.status ]);
}

-- The server's copy after an accepted request.
unfoldable pub told : Request → Copy → Copy
told (create_request _ _ _ _) copy = copy
told (reply_request _ c) copy = record copy { ids = copy.ids ++ c.id ∷ [] }
told (status_request _ status _) copy = record copy { status = status }
told (decision_request _ decision _ _) copy = record copy { decision = some decision }
told (delete_request _) copy = copy

unfoldable pub told_all : List Request → Copy → Copy
told_all [] copy = copy
told_all (r ∷ rs) copy = told_all rs (told r copy)

told_all-append :
    (rs ss : List Request) (copy : Copy) → told_all (rs ++ ss) copy ≡ told_all ss (told_all rs copy)
unfolding told_all
told_all-append [] ss copy = refl
told_all-append (r ∷ rs) ss copy = told_all-append rs ss (told r copy)

told_all-replies :
    (key : Text) (cs : List Comment) (copy : Copy)
    → told_all (map (reply_request key) cs) copy
      ≡ record copy { ids = copy.ids ++ map (λ c. c.id) cs }
unfolding told_all told
told_all-replies key [] copy = ap (λ x. record copy { ids = x }) (sym (append-nil copy.ids))
told_all-replies key (c ∷ cs) copy =
    told_all-replies key cs (record copy { ids = copy.ids ++ c.id ∷ [] })
    ∙ ap (λ x. record copy { ids = x }) (append_assoc copy.ids (c.id ∷ []) (map (λ d. d.id) cs))

-- The server's copy once all requests for a thread were accepted.
abbrev pub updated : Text → StoredThread → StoredThread → Copy
updated key prev stored = told_all (updates_of key prev stored) (copy_of prev)

status_eq_sound : (a b : ThreadStatus) → status_eq a b ≡ true → a ≡ b
status_eq_sound opened opened h = refl
status_eq_sound opened resolved h = ground (arith, h)
status_eq_sound resolved opened h = ground (arith, h)
status_eq_sound resolved resolved h = refl

told-status_update :
    (key : Text) (prev stored : StoredThread) (copy : Copy)
    → copy.status ≡ prev.status
    → told_all (status_update key prev stored) copy ≡ record copy { status = stored.status }
unfolding told_all told
told-status_update key prev stored copy h =
    elim (Bool-cases (status_eq prev.status stored.status)) [
      | inl same ↦ rw same (
          ap (λ x. record copy { status = x }) (h ∙ status_eq_sound prev.status stored.status same))
      | inr other ↦ rw other
    ]

abbrev decision_of : Option Suggestion → Option SuggestionStatus
decision_of none = none
decision_of (some s) = some s.status

member-append :
    (k : Text) (s t : List Text) → member k (s ++ t) ≡ (if member k s then true else member k t)
unfolding member
member-append k [] t = refl
member-append k (j ∷ s) t = ground (arith, member-append k s t)

any-member :
    (k : Text) (cs : List Comment) → any (λ c. text_eq c.id k) cs ≡ member k (map (λ c. c.id) cs)
unfolding member
any-member k [] = refl
any-member k (c ∷ cs) = ground (arith, any-member k cs)

new_comments-yes :
    (old cs : List Comment) (c : Comment)
    → is_new old c ≡ true
    → new_comments old (c ∷ cs) ≡ c ∷ new_comments old cs
unfolding new_comments
new_comments-yes old cs c h = rw (h, filter)

pub new_comments-no :
    (old cs : List Comment) (c : Comment)
    → is_new old c ≡ false
    → new_comments old (c ∷ cs) ≡ new_comments old cs
unfolding new_comments
new_comments-no old cs c h = rw (h, filter)

member-new_comments :
    (c : Comment) (old before after : List Comment)
    → c.deleted_at ≡ none
    → any (λ d. text_eq d.id c.id) old ≡ false
    → member c.id (map (λ d. d.id) (new_comments old (before ++ c ∷ after))) ≡ true
unfolding member is_new
member-new_comments c old [] after alive new =
    let fresh : is_new old c ≡ true = rw (new, is_new) (rw alive) in
    rw (new_comments-yes old after c fresh) (rw (text_eq_refl c.id))
member-new_comments c old (d ∷ before) after alive new =
    let rest = member-new_comments c old before after alive new in
    elim (Bool-cases (is_new old d)) [
      | inl fresh ↦ rw (new_comments-yes old (before ++ c ∷ after) d fresh) (ground (arith, rest))
      | inr stale ↦ rw (new_comments-no old (before ++ c ∷ after) d stale) rest
    ]

copy_updated :
    (key : Text) (prev stored : StoredThread)
    → updated key prev stored
      ≡ told_all (decision_update key prev.suggestion stored.suggestion) (record (copy_of prev) {
        ids =
            map (λ c. c.id) prev.comments
            ++ map (λ c. c.id) (new_comments prev.comments stored.comments);
        status = stored.status;
      })
unfolding updates_of
copy_updated key prev stored =
    let fresh = new_comments prev.comments stored.comments in
    let replies = map (reply_request key) fresh in
    let copy = record (copy_of prev) {
      ids = map (λ c. c.id) prev.comments ++ map (λ c. c.id) fresh;
    } in
    told_all-append replies _ (copy_of prev)
    ∙ ap (told_all _) (told_all-replies key fresh (copy_of prev))
    ∙ told_all-append (status_update key prev stored) _ copy
    ∙ ap (told_all _) (told-status_update key prev stored copy refl)

told_all-kept :
    (key : Text) (prev now : Option Suggestion) (copy : Copy)
    → ((told_all (decision_update key prev now) copy).ids ≡ copy.ids)
      × ((told_all (decision_update key prev now) copy).status ≡ copy.status)
unfolding told_all told decision_update
told_all-kept key prev none copy = (refl, refl)
told_all-kept key prev (some s) copy =
    elim (Bool-cases (not (decision_eq s.status pending) && not (had_status prev s.status))) [
      | inl sent ↦ rw sent (refl, refl)
      | inr quiet ↦ rw quiet (refl, refl)
    ]

-- Once the requests for a thread that the server has were accepted, the server has the thread's
-- status.
pub status-updated :
    (key : Text) (prev stored : StoredThread) → (updated key prev stored).status ≡ stored.status
status-updated key prev stored =
    ap (λ copy. copy.status) (copy_updated key prev stored)
    ∙ (told_all-kept key prev.suggestion stored.suggestion _).1

-- Once the requests for a thread that the server has were accepted, the server has every comment of
-- the thread that is not deleted.
pub ids-updated :
    (key : Text) (prev stored : StoredThread) (before after : List Comment) (c : Comment)
    → stored.comments ≡ before ++ c ∷ after
    → c.deleted_at ≡ none
    → member c.id (updated key prev stored).ids ≡ true
ids-updated key prev stored before after c split alive =
    let fresh = new_comments prev.comments stored.comments in
    let told =
      ap (λ copy. copy.ids) (copy_updated key prev stored)
      ∙ (told_all-kept key prev.suggestion stored.suggestion _).0 in
    let both = member-append c.id (map (λ d. d.id) prev.comments) (map (λ d. d.id) fresh) in
    elim (Bool-cases (any (λ d. text_eq d.id c.id) prev.comments)) [
      | inl old ↦ ap (member c.id) told ∙ both ∙ ground (arith, any-member c.id prev.comments, old)
      | inr new ↦
          let added : member c.id (map (λ d. d.id) fresh) ≡ true =
            rw split (member-new_comments c prev.comments before after alive new) in
          ap (member c.id) told ∙ both ∙ ground (arith, added)
    ]
