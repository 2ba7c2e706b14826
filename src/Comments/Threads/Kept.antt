-- ===== src/Comments/Threads/Kept.antt =====
-- What the comment engine has still to send after a call of it: changes and deletions.
use collab_editor.Prelude.{
  ◌≡◌, ◌≢◌, ◌∙◌, text_eq_sound, ◌⊎◌, inl, inr, Bool, true, false, not, ◌&&◌, Option, none, some,
  arith, Text, text_eq, text_eq_refl, if◌then◌else◌, Option-cases, Bool-cases,
}
use collab_editor.Prelude.Maps.{
  add, lookup, has, has-lookup, member, lookup-insert, lookup-erase, member-add,
}
use collab_editor.Interfaces.{CommentAnchor, Suggestion, SuggestionStatus, SuggestionPayload}
use collab_editor.Comments.{
  StoredThread, Config, CommentEngine, user_origin, observe, write, drop_key, mutate_thread, fits,
  Attempt, returned, size_error,
}
use collab_editor.Comments.Threads.{
  Stamp, create_thread, commit_suggestion, add_reply, resolve_thread, reopen_thread, delete_thread,
  edit_comment, delete_comment, add_reaction, remove_reaction, decide_suggestion, deleted_key,
  content_fits, note_fits, can_edit, can_delete, can_react, suggestion_of,
}

-- A thread that is there is dirty, or persisted as it is; of one that is not there nothing is
-- persisted, or its deletion is marked.
abbrev pub IsKept : Config → Text → CommentEngine → Type 0
IsKept config k e =
    ((lookup k e.ymap ≢ none)
      × ((member k e.dirty ≡ true) ⊎ (lookup k e.last_persisted ≡ lookup k e.ymap)))
    ⊎ ((lookup k e.ymap ≡ none)
        × ((member (deleted_key config k) e.dirty ≡ true) ⊎ (lookup k e.last_persisted ≡ none)))

-- A call of a method of the engine by the application.
pub data Call : Type 0 where
  creating : Stamp → CommentAnchor → Text → Text → Option Text → Option Suggestion → Call
  suggesting : Stamp → SuggestionPayload → Text → Text → Call
  replying : Stamp → Text → Text → Call
  resolving : Text → Text → Call
  reopening : Text → Call
  deleting : Text → Call
  editing : Text → Text → Text → Text → Call
  blanking : Text → Text → Text → Call
  reacting : Text → Text → Option Text → Text → Call
  unreacting : Text → Option Text → Text → Call
  deciding : Text → Text → SuggestionStatus → Option Text → Call

unfoldable pub after :
    {A : Type 0} → (A → CommentEngine) → CommentEngine → Attempt A → CommentEngine
after f e (returned a) = f a
after f e size_error = e

module _ (config : Config) where
  -- The engine after a call, whether the call returns or throws.
  unfoldable pub perform : Call → CommentEngine → CommentEngine
  perform (creating stamp anchor start_rel end_rel content suggestion) e =
      after (λ x. x) e (create_thread config stamp anchor start_rel end_rel content suggestion e)
  perform (suggesting stamp payload start_rel end_rel) e =
      after (λ x. x) e (commit_suggestion config stamp payload start_rel end_rel e)
  perform (replying stamp thread_id content) e =
      after (λ x. x.0) e (add_reply config stamp thread_id content e)
  perform (resolving now thread_id) e = resolve_thread config now thread_id e
  perform (reopening thread_id) e = reopen_thread config thread_id e
  perform (deleting thread_id) e = delete_thread config thread_id e
  perform (editing now thread_id comment_id content) e =
      after (λ x. x) e (edit_comment config now thread_id comment_id content e)
  perform (blanking now thread_id comment_id) e = delete_comment config now thread_id comment_id e
  perform (reacting now thread_id comment_id emoji) e =
      add_reaction config now thread_id comment_id emoji e
  perform (unreacting thread_id comment_id emoji) e =
      remove_reaction config thread_id comment_id emoji e
  perform (deciding now thread_id decision version) e =
      decide_suggestion config now thread_id decision version e

  write-IsKept :
      (key k : Text) (t : StoredThread) (e : CommentEngine)
      → IsKept config k e
      → IsKept config k (write config user_origin key t e)
  unfolding write
  write-IsKept key k t e h = ground (
    arith,
    h,
    lookup-insert key k t e.ymap,
    member-add key k e.dirty,
    member-add key (deleted_key config k) e.dirty,
  )

  mutate_thread-IsKept :
      (key k : Text) (f : StoredThread → Option StoredThread) (e : CommentEngine)
      → IsKept config k e
      → IsKept config k (mutate_thread config key f e)
  unfolding mutate_thread
  mutate_thread-IsKept key k f e h = elim (Option-cases (lookup key e.ymap)) [
    | inl absent ↦ rw (absent, mutate_thread, IsKept) h
    | inr (t, found) ↦ elim (Option-cases (f t)) [
      | inl same ↦ rw (found, mutate_thread, IsKept) (rw (same, IsKept) h)
      | inr (t', new) ↦
          rw (found, mutate_thread, IsKept) (rw (new, IsKept) (write-IsKept key k t' e h))
    ]
  ]

  -- The deleted thread is gone, and marked.
  delete_self-IsKept : (k : Text) (e : CommentEngine) → IsKept config k (delete_thread config k e)
  unfolding delete_thread drop_key observe
  delete_self-IsKept k e = elim (Bool-cases (has k e.ymap)) [
    | inl there ↦
        rw (there, IsKept)
          (ground (
            arith,
            lookup-erase k k e.ymap,
            text_eq_refl k,
            member-add (deleted_key config k) (deleted_key config k) (add k e.dirty),
            text_eq_refl (deleted_key config k),
          ))
    | inr absent ↦
        rw (absent, IsKept)
          (inr (
            ground (arith, has-lookup k e.ymap, absent),
            inl (
                member-add (deleted_key config k) (deleted_key config k) e.dirty
                ∙ rw (text_eq_refl (deleted_key config k))),
          ))
  ]

  delete_other-IsKept :
      (key k : Text) (e : CommentEngine)
      → text_eq key k ≡ false
      → IsKept config k e
      → IsKept config k (delete_thread config key e)
  unfolding delete_thread drop_key observe
  delete_other-IsKept key k e other h = elim (Bool-cases (has key e.ymap)) [
    | inl there ↦
        rw (there, IsKept)
          (ground (
            arith,
            h,
            other,
            lookup-erase key k e.ymap,
            member-add key k e.dirty,
            member-add key (deleted_key config k) e.dirty,
            member-add (deleted_key config key) k (add key e.dirty),
            member-add (deleted_key config key) (deleted_key config k) (add key e.dirty),
          ))
    | inr absent ↦
        rw (absent, IsKept)
          (ground (
            arith,
            h,
            member-add (deleted_key config key) k e.dirty,
            member-add (deleted_key config key) (deleted_key config k) e.dirty,
          ))
  ]

  delete_thread-IsKept :
      (key k : Text) (e : CommentEngine)
      → IsKept config k e
      → IsKept config k (delete_thread config key e)
  delete_thread-IsKept key k e h = elim (Bool-cases (text_eq key k)) [
    | inl self ↦ rw (text_eq_sound key k self) (delete_self-IsKept k e)
    | inr other ↦ delete_other-IsKept key k e other h
  ]

  create_thread-IsKept :
      (stamp : Stamp) (anchor : CommentAnchor) (a b : Text) (content : Option Text)
      (s : Option Suggestion) (k : Text) (e : CommentEngine)
      → IsKept config k e
      → IsKept config k (after (λ x. x) e (create_thread config stamp anchor a b content s e))
  unfolding create_thread after
  create_thread-IsKept stamp anchor a b content s k e h =
      elim (Bool-cases (content_fits config e content && note_fits config e s)) [
        | inl ok ↦ rw (ok, create_thread, IsKept) (write-IsKept stamp.thread_id k _ e h)
        | inr big ↦ rw (big, create_thread, IsKept) h
      ]

  add_reply-IsKept :
      (stamp : Stamp) (thread_id content k : Text) (e : CommentEngine)
      → IsKept config k e
      → IsKept config k (after (λ x. x.0) e (add_reply config stamp thread_id content e))
  unfolding add_reply after
  add_reply-IsKept stamp thread_id content k e h = elim (Bool-cases (fits e content)) [
    | inl ok ↦ elim (Option-cases (lookup thread_id e.ymap)) [
      | inl absent ↦ rw (ok, add_reply, IsKept) (rw (absent, IsKept) h)
      | inr (t, found) ↦
          rw (ok, add_reply, IsKept) (rw (found, IsKept) (write-IsKept thread_id k _ e h))
    ]
    | inr big ↦ rw (big, add_reply, IsKept) h
  ]

  edit_comment-IsKept :
      (now thread_id comment_id content k : Text) (e : CommentEngine)
      → IsKept config k e
      → IsKept config k (after (λ x. x) e (edit_comment config now thread_id comment_id content e))
  unfolding edit_comment after
  edit_comment-IsKept now thread_id comment_id content k e h =
      elim (Bool-cases (not (can_edit config e))) [
        | inl never ↦ rw (never, edit_comment, IsKept) h
        | inr may ↦ elim (Bool-cases (fits e content)) [
          | inl ok ↦
              rw (may, edit_comment, IsKept)
                (rw (ok, IsKept) (mutate_thread-IsKept thread_id k _ e h))
          | inr big ↦ rw (may, edit_comment, IsKept) (rw (big, IsKept) h)
        ]
      ]

  guarded-IsKept :
      (guard : Bool) (key k : Text) (f : StoredThread → Option StoredThread) (e : CommentEngine)
      → IsKept config k e
      → IsKept config k (if guard then e else mutate_thread config key f e)
  guarded-IsKept true key k f e h = h
  guarded-IsKept false key k f e h = mutate_thread-IsKept key k f e h

  -- No call, returning or throwing, makes the engine forget a change or a deletion: if a thread was
  -- dirty or persisted as it is, or was absent and never persisted or marked as deleted, before the
  -- call, then that is so after it.
  pub perform-IsKept :
      (call : Call) (k : Text) (e : CommentEngine)
      → IsKept config k e
      → IsKept config k (perform call e)
  unfolding perform commit_suggestion resolve_thread reopen_thread delete_comment add_reaction
      remove_reaction decide_suggestion
  perform-IsKept (creating stamp anchor a b content s) k e h =
      create_thread-IsKept stamp anchor a b content s k e h
  perform-IsKept (suggesting stamp payload a b) k e h =
      create_thread-IsKept stamp payload.anchor a b none (some (suggestion_of config payload)) k e h
  perform-IsKept (replying stamp thread_id content) k e h =
      add_reply-IsKept stamp thread_id content k e h
  perform-IsKept (resolving now thread_id) k e h = mutate_thread-IsKept thread_id k _ e h
  perform-IsKept (reopening thread_id) k e h = mutate_thread-IsKept thread_id k _ e h
  perform-IsKept (deleting thread_id) k e h = delete_thread-IsKept thread_id k e h
  perform-IsKept (editing now thread_id comment_id content) k e h =
      edit_comment-IsKept now thread_id comment_id content k e h
  perform-IsKept (blanking now thread_id comment_id) k e h =
      guarded-IsKept (not (can_delete config e)) thread_id k _ e h
  perform-IsKept (reacting now thread_id comment_id emoji) k e h =
      guarded-IsKept (not (can_react config e emoji)) thread_id k _ e h
  perform-IsKept (unreacting thread_id comment_id emoji) k e h =
      mutate_thread-IsKept thread_id k _ e h
  perform-IsKept (deciding now thread_id decision version) k e h =
      mutate_thread-IsKept thread_id k _ e h
