-- ===== src/Comments/Threads/Laws.antt =====
-- No change of a thread is forgotten: every thread is dirty, or persisted as it is.
use collab_editor.Prelude.{
  ◌≡◌, ◌⊎◌, inl, inr, true, none, some, arith, Text, text_eq, text_eq_iff, text_eq_refl,
  if◌then◌else◌, Option-cases, Bool-cases,
}
use collab_editor.Prelude.Maps.{lookup, erase, has, member, lookup-insert, lookup-erase, member-add}
use collab_editor.Comments.{
  StoredThread, Config, CommentEngine, Origin, user_origin, observe, write, drop_key, mutate_thread,
}
use collab_editor.Comments.Threads.{
  resolve_thread, reopen_thread, delete_thread, as_resolved, as_reopened, deleted_key,
}

-- The key has no thread, or is dirty, or its thread is the one that was persisted last.
abbrev pub IsTracked : Text → CommentEngine → Type 0
IsTracked k e =
    (lookup k e.ymap ≡ none)
    ⊎ (member k e.dirty ≡ true)
    ⊎ (lookup k e.last_persisted ≡ lookup k e.ymap)

module _ (config : Config) where
  pub lookup-write :
      (origin : Origin) (key k : Text) (t : StoredThread) (e : CommentEngine)
      → lookup k (write config origin key t e).ymap
        ≡ (if text_eq key k then some t else lookup k e.ymap)
  unfolding write
  lookup-write Origin.poll_origin key k t e = lookup-insert key k t e.ymap
  lookup-write Origin.user_origin key k t e = lookup-insert key k t e.ymap

  -- A mutation changes the thread that it names, and no other.
  pub lookup-mutate_thread :
      (key k : Text) (f : StoredThread → StoredThread) (e : CommentEngine)
      → lookup k (mutate_thread config key (λ t. some (f t)) e).ymap ≡ (
          if text_eq key k
          then (elim (lookup key e.ymap) [ none ↦ none | some t ↦ some (f t) ])
          else lookup k e.ymap)
  unfolding mutate_thread
  lookup-mutate_thread key k f e = elim (Option-cases (lookup key e.ymap)) [
    | inl absent ↦ ground (arith, text_eq_iff key k)
    | inr (t, found) ↦ rw (found, mutate_thread) (lookup-write user_origin key k (f t) e)
  ]

  observe-IsTracked :
      (origin : Origin) (key k : Text) (e : CommentEngine)
      → IsTracked k e
      → IsTracked k (observe config origin key e)
  unfolding observe
  observe-IsTracked Origin.poll_origin key k e h = h
  observe-IsTracked Origin.user_origin key k e h = ground (arith, h, member-add key k e.dirty)

  pub drop_key-IsTracked :
      (origin : Origin) (key k : Text) (e : CommentEngine)
      → IsTracked k e
      → IsTracked k (drop_key config origin key e)
  unfolding drop_key
  drop_key-IsTracked origin key k e h = elim (Bool-cases (has key e.ymap)) [
    | inl there ↦
        rw (there, drop_key, IsTracked)
          (observe-IsTracked origin key k (record e { ymap = erase key e.ymap })
            (ground (arith, h, lookup-erase key k e.ymap)))
    | inr absent ↦ rw (absent, drop_key, IsTracked) h
  ]

  pub delete_thread-IsTracked :
      (thread_id k : Text) (e : CommentEngine)
      → IsTracked k e
      → IsTracked k (delete_thread config thread_id e)
  unfolding delete_thread
  delete_thread-IsTracked thread_id k e h =
      let d = drop_key-IsTracked user_origin thread_id k e h in
      let more =
        member-add (deleted_key config thread_id) k
          (drop_key config user_origin thread_id e).dirty in
      ground (arith, d, more)

  -- Resolving a thread and reopening it leaves every thread as reopening it does.
  pub reopen_thread-resolve_thread :
      (now thread_id k : Text) (e : CommentEngine)
      → lookup k (reopen_thread config thread_id (resolve_thread config now thread_id e)).ymap
        ≡ lookup k (reopen_thread config thread_id e).ymap
  unfolding reopen_thread resolve_thread
  reopen_thread-resolve_thread now thread_id k e =
      let e1 = resolve_thread config now thread_id e in
      let a = lookup-mutate_thread thread_id k (as_reopened config) e1 in
      let b = lookup-mutate_thread thread_id k (as_reopened config) e in
      let c = lookup-mutate_thread thread_id k (as_resolved config now) e in
      let d = lookup-mutate_thread thread_id thread_id (as_resolved config now) e in
      let self = text_eq_refl thread_id in
      elim (Option-cases (lookup thread_id e.ymap)) [
        | inl absent ↦ ground (arith, a, b, c, d, self, absent)
        | inr (t, found) ↦ ground (arith, a, b, c, d, self, found)
      ]
