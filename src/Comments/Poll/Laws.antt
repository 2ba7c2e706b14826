-- ===== src/Comments/Poll/Laws.antt =====
-- Polling forgets no change of the map, and keeps a decision that is on its way to the server.
use collab_editor.Prelude.{
  ◌≡◌, ◌∙◌, inl, inr, Bool, true, false, List, [], ◌∷◌, Option, none, some, arith, Text,
  text_eq_refl, Option-cases, Bool-cases,
}
use collab_editor.Prelude.Maps.{
  lookup, has, member, remove, lookup-insert, member-add, member-remove,
}
use collab_editor.Interfaces.{Suggestion}
use collab_editor.Comments.{StoredThread, Config, CommentEngine, poll_origin, observe}
use collab_editor.Comments.Threads.Laws.{IsTracked, delete_thread-IsTracked, drop_key-IsTracked}
use collab_editor.Comments.Poll.{
  CommentThread, CommentChange, PollBody, keeps_decision, is_pending, locally_decided, wire_pending,
  wire_snapshot, is_deletion, local_suggestion, stored_of, insert_thread_from_wire, receive_thread,
  reconcile_change, reconcile_changes, poll_once, load_entries, collect_empty, is_empty_thread,
  load_from_spi,
}

abbrev merged : CommentThread → CommentEngine → StoredThread
merged thread e = record (wire_snapshot thread) {
  suggestion = local_suggestion (lookup thread.id e.ymap);
}

module _ (config : Config) where
  receive_thread-IsTracked :
      (thread : CommentThread) (k : Text) (e : CommentEngine)
      → IsTracked k e
      → IsTracked k (receive_thread config thread e)
  unfolding receive_thread insert_thread_from_wire observe stored_of
  receive_thread-IsTracked thread k e h = elim (Bool-cases (keeps_decision thread e)) [
    | inl kept ↦
        rw (kept, IsTracked)
          (ground (
            arith,
            h,
            lookup-insert thread.id k (merged thread e) e.ymap,
            lookup-insert thread.id k (wire_snapshot thread) e.last_persisted,
            member-add thread.id k (remove thread.id e.dirty),
            member-remove thread.id k e.dirty,
          ))
    | inr plain ↦
        rw (plain, IsTracked)
          (ground (
            arith,
            h,
            lookup-insert thread.id k (wire_snapshot thread) e.ymap,
            lookup-insert thread.id k (wire_snapshot thread) e.last_persisted,
            member-remove thread.id k e.dirty,
          ))
  ]

  module _ (detail_of : Text → Option CommentThread) where
    fetched-IsTracked :
        (id k : Text) (e : CommentEngine)
        → IsTracked k e
        → IsTracked k
            (elim (detail_of id) [ none ↦ e | some thread ↦ receive_thread config thread e ])
    fetched-IsTracked id k e h = elim (Option-cases (detail_of id)) [
      | inl absent ↦ rw (absent, IsTracked) h
      | inr (thread, found) ↦ rw (found, IsTracked) (receive_thread-IsTracked thread k e h)
    ]

    reconcile_changes-IsTracked :
        (changes : List CommentChange) (k : Text) (e : CommentEngine)
        → IsTracked k e
        → IsTracked k (reconcile_changes config detail_of changes e)
    unfolding reconcile_changes reconcile_change
    reconcile_changes-IsTracked [] k e h = h
    reconcile_changes-IsTracked (change ∷ changes) k e h =
        reconcile_changes-IsTracked changes k (reconcile_change config detail_of change e)
          (elim (Bool-cases (is_deletion config detail_of change.action)) [
            | inl gone ↦
                rw (gone, reconcile_change, IsTracked)
                  (drop_key-IsTracked config poll_origin change.thread_id k e h)
            | inr there ↦
                rw (there, reconcile_change, IsTracked) (fetched-IsTracked change.thread_id k e h)
          ])

    -- A poll makes the engine forget no change, whatever the server answers: a thread that is dirty
    -- or persisted as it is before the poll is so after it.
    pub poll_once-IsTracked :
        (unfocused : Bool) (now : Text) (answer : Option PollBody) (k : Text) (e : CommentEngine)
        → IsTracked k e
        → IsTracked k (poll_once config detail_of unfocused now answer e)
    unfolding poll_once
    poll_once-IsTracked unfocused now none k e h = h
    poll_once-IsTracked true now (some body) k e h = h
    poll_once-IsTracked false now (some body) k e h = reconcile_changes-IsTracked body.changes k _ h

    load_entries-IsTracked :
        (ids : List Text) (k : Text) (e : CommentEngine)
        → IsTracked k e
        → IsTracked k (load_entries config detail_of ids e)
    unfolding load_entries
    load_entries-IsTracked [] k e h = h
    load_entries-IsTracked (id ∷ ids) k e h = elim (Bool-cases (has id e.ymap)) [
      | inl there ↦ rw (there, load_entries) (load_entries-IsTracked ids k e h)
      | inr absent ↦
          rw (absent, load_entries) (load_entries-IsTracked ids k _ (fetched-IsTracked id k e h))
    ]

    collect_empty-IsTracked :
        (threads : List (Text × StoredThread)) (k : Text) (e : CommentEngine)
        → IsTracked k e
        → IsTracked k (collect_empty config detail_of threads e)
    unfolding collect_empty
    collect_empty-IsTracked [] k e h = h
    collect_empty-IsTracked ((id, t) ∷ rest) k e h =
        elim (Bool-cases (is_empty_thread config detail_of t)) [
          | inl empty ↦
              rw (empty, collect_empty)
                (collect_empty-IsTracked rest k _ (delete_thread-IsTracked config id k e h))
          | inr full ↦ rw (full, collect_empty) (collect_empty-IsTracked rest k e h)
        ]

    -- Loading the threads of the server makes the engine forget no change: a thread that is dirty
    -- or persisted as it is before is so after it.
    pub load_from_spi-IsTracked :
        (answer : Option (List Text)) (k : Text) (e : CommentEngine)
        → IsTracked k e
        → IsTracked k (load_from_spi config detail_of answer e)
    unfolding load_from_spi
    load_from_spi-IsTracked none k e h = h
    load_from_spi-IsTracked (some ids) k e h =
        collect_empty-IsTracked _ k _ (load_entries-IsTracked ids k e h)

  -- A decision that the user made stands when the server's copy of the thread arrives with the
  -- suggestion still pending, and the thread is dirty, so that the decision will be sent.
  pub receive_thread-decided :
      (thread : CommentThread) (t : StoredThread) (s : Suggestion) (e : CommentEngine)
      → lookup thread.id e.ymap ≡ some t
      → t.suggestion ≡ some s
      → is_pending s ≡ false
      → wire_pending thread ≡ true
      → (lookup thread.id (receive_thread config thread e).ymap
          ≡ some (record (wire_snapshot thread) { suggestion = some s }))
        × (member thread.id (receive_thread config thread e).dirty ≡ true)
  unfolding receive_thread insert_thread_from_wire observe stored_of keeps_decision
  receive_thread-decided thread t s e there suggested decided awaited =
      let local : locally_decided (lookup thread.id e.ymap) ≡ true =
        rw there (rw suggested (rw decided)) in
      let kept : keeps_decision thread e ≡ true = rw (local, keeps_decision) awaited in
      rw kept (
        lookup-insert thread.id thread.id (merged thread e) e.ymap
            ∙ rw (text_eq_refl thread.id) (rw there (rw suggested)),
        member-add thread.id thread.id (remove thread.id e.dirty) ∙ rw (text_eq_refl thread.id),
      )

  -- Any other copy from the server replaces the thread, and nothing of it waits to be sent.
  pub receive_thread_lem :
      (thread : CommentThread) (e : CommentEngine)
      → keeps_decision thread e ≡ false
      → (lookup thread.id (receive_thread config thread e).ymap ≡ some (wire_snapshot thread))
        × (member thread.id (receive_thread config thread e).dirty ≡ false)
  unfolding receive_thread insert_thread_from_wire observe stored_of
  receive_thread_lem thread e plain = rw plain (
    lookup-insert thread.id thread.id _ e.ymap ∙ rw (text_eq_refl thread.id),
    member-remove thread.id thread.id e.dirty ∙ rw (text_eq_refl thread.id),
  )
