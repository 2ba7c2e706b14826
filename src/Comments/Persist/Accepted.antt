-- ===== src/Comments/Persist/Accepted.antt =====
-- Where the server accepts every request, one run of the loop is enough.
use collab_editor.Prelude.{
  ◌≡◌, refl, ◌∙◌, inl, inr, true, List, [], ◌∷◌, ◌++◌, Text, starts_with, Option-cases, Bool-cases,
  List-cases,
}
use collab_editor.Prelude.Maps.{lookup}
use collab_editor.Comments.{CommentEngine}
use collab_editor.Comments.Persist.{
  Request, Reply, Run, accepts, send_all, settle, persist_key, persist_keys, requeue, persist,
  recorded, requests_of, deleted_prefix,
}

dirty-recorded : (key : Text) (e : CommentEngine) → (recorded key e).dirty ≡ e.dirty
unfolding recorded
dirty-recorded key e = elim (Bool-cases (starts_with deleted_prefix key)) [
  | inl gone ↦ rw (gone, recorded)
  | inr kept ↦ elim (Option-cases (lookup key e.ymap)) [
    | inl absent ↦ rw (kept, recorded) (rw absent)
    | inr (t, found) ↦ rw (kept, recorded) (rw found)
  ]
]

module _ (net : List Request → Request → Reply)
    (accepted : (sent : List Request) (r : Request) → accepts r (net sent r) ≡ true) where
  send_all_accepted : (sent rs : List Request) → (send_all net sent rs).1 ≡ true
  unfolding send_all
  send_all_accepted sent [] = refl
  send_all_accepted sent (r ∷ rs) =
      rw (accepted sent r, send_all) (send_all_accepted (sent ++ r ∷ []) rs)

  persist_keys_accepted :
      (keys : List Text) (run : Run)
      → run.failed ≡ []
      → run.engine.dirty ≡ []
      → ((persist_keys net keys run).failed ≡ []) × ((persist_keys net keys run).engine.dirty ≡ [])
  unfolding persist_keys persist_key settle
  persist_keys_accepted [] run failed dirty = (failed, dirty)
  persist_keys_accepted (key ∷ keys) run failed dirty =
      let answer = send_all net run.sent (requests_of key run.engine) in
      let all_sent = send_all_accepted run.sent (requests_of key run.engine) in
      let next =
        persist_keys_accepted keys (settle net key true (record run { sent = answer.0 })) failed
          (dirty-recorded key run.engine ∙ dirty) in
      rw (all_sent, persist_keys, persist_key) next

  -- Where the server accepts every request, a run of the loop leaves no key dirty.
  pub dirty-persist : (e : CommentEngine) → (persist net e).dirty ≡ []
  unfolding persist requeue
  dirty-persist e = elim (List-cases e.dirty) [
    | inl clean ↦ rw (clean, persist) clean
    | inr (key, keys, more) ↦
        let (failed, dirty) =
          persist_keys_accepted e.dirty
            (record { sent = []; engine = record e { dirty = [] }; failed = [] }) refl refl in
        rw (more, persist) (rw (failed, requeue) dirty)
  ]
