-- ===== src/Comments/Persist/Retries.antt =====
-- The attempts that the persistence loop makes for a key.
use collab_editor.Prelude.{
  ℕ, ◌+◌, ◌<◌, ◌≡◌, inl, inr, Bool, true, false, List, [], ◌∷◌, none, some, arith, leb, Text,
  starts_with, Option-cases, Bool-cases, List-cases,
}
use collab_editor.Prelude.Maps.{lookup, insert, erase, lookup-insert, lookup-erase}
use collab_editor.Comments.{CommentEngine, schedule_persist}
use collab_editor.Comments.Persist.{
  Request, Reply, Run, send_all, settle, persist_key, persist_keys, requeue, run_of, persist,
  recorded, requests_of, attempts_of, deleted_prefix,
}

-- Every key has been tried less than five times.
abbrev pub AreCapped : CommentEngine → Type 0
AreCapped e = (k : Text) → attempts_of k e < 5

abbrev count : Text → List (Text × ℕ) → ℕ
count k m = elim (lookup k m) [ none ↦ 0 | some n ↦ n ]

count-erase-le :
    (key k : Text) (n : ℕ) (m : List (Text × ℕ)) → count k m < n → count k (erase key m) < n
count-erase-le key k n m h = ground (arith, lookup-erase key k m)

count-insert-le :
    (key k : Text) (a n : ℕ) (m : List (Text × ℕ))
    → a < n
    → count k m < n
    → count k (insert key a m) < n
count-insert-le key k a n m lt h = ground (arith, lookup-insert key k a m)

pub retry_count-recorded :
    (key : Text) (e : CommentEngine) → (recorded key e).retry_count ≡ e.retry_count
unfolding recorded
retry_count-recorded key e = elim (Bool-cases (starts_with deleted_prefix key)) [
  | inl gone ↦ rw (gone, recorded)
  | inr kept ↦ elim (Option-cases (lookup key e.ymap)) [
    | inl absent ↦ rw (kept, recorded) (rw absent)
    | inr (t, found) ↦ rw (kept, recorded) (rw found)
  ]
]

module _ (net : List Request → Request → Reply) where
  settle-AreCapped :
      (key : Text) (ok : Bool) (run : Run)
      → AreCapped run.engine
      → AreCapped (settle net key ok run).engine
  unfolding settle
  settle-AreCapped key true run h k =
      rw (retry_count-recorded key run.engine, AreCapped)
        (count-erase-le key k 5 run.engine.retry_count (h k))
  settle-AreCapped key false run h k = elim (Bool-cases (leb 5 (attempts_of key run.engine + 1))) [
    | inl full ↦ rw (full, settle) (count-erase-le key k 5 run.engine.retry_count (h k))
    | inr more ↦
        rw (more, settle)
          (count-insert-le key k _ 5 run.engine.retry_count (ground (arith, more)) (h k))
  ]

  persist_keys-AreCapped :
      (keys : List Text) (run : Run)
      → AreCapped run.engine
      → AreCapped (persist_keys net keys run).engine
  unfolding persist_keys persist_key
  persist_keys-AreCapped [] run h = h
  persist_keys-AreCapped (key ∷ keys) run h =
      let answer = send_all net run.sent (requests_of key run.engine) in
      persist_keys-AreCapped keys (persist_key net key run)
        (settle-AreCapped key answer.1 (record run { sent = answer.0 }) h)

  requeue-AreCapped : (run : Run) → AreCapped run.engine → AreCapped (requeue net run)
  unfolding requeue schedule_persist
  requeue-AreCapped run h = elim (List-cases run.failed) [
    | inl none_failed ↦ rw (none_failed, requeue, AreCapped) h
    | inr (key, keys, some_failed) ↦ rw (some_failed, requeue, AreCapped) h
  ]

  -- A run of the persistence loop keeps the count of failed attempts of every key below five: the
  -- fifth failure gives the key up.
  pub persist-AreCapped : (e : CommentEngine) → AreCapped e → AreCapped (persist net e)
  unfolding persist
  persist-AreCapped e h = elim (List-cases e.dirty) [
    | inl clean ↦ rw (clean, persist, AreCapped) h
    | inr (key, keys, more) ↦
        rw (more, persist, AreCapped)
          (requeue-AreCapped (run_of net e) (persist_keys-AreCapped e.dirty _ h))
  ]
