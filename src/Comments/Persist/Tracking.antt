-- ===== src/Comments/Persist/Tracking.antt =====
-- The turns of the persistence loop of `CommentEngine`, for the thread of one key and for the others.
use collab_editor.Prelude.{
  ℕ, ◌+◌, ◌<◌, ◌∙◌, ◌≡◌, refl, ap, ◌⊎◌, inl, inr, Bool, true, false, List, [], ◌∷◌, ◌++◌, drop,
  none, arith, leb, Text, text_eq, text_eq_iff, text_eq_refl, text_eq_sound, starts_with,
  append_drop_of_starts_with, if◌then◌else◌, Option-cases, Bool-cases, List-cases,
}
use collab_editor.Prelude.Maps.{lookup, erase, member, add, lookup-insert, lookup-erase, member-add}
use collab_editor.Comments.{CommentEngine, schedule_persist}
use collab_editor.Comments.Persist.Taken.{WereTaken, asked_all, send_all-WereTaken}
use collab_editor.Comments.Persist.Retries.{retry_count-recorded}
use collab_editor.Comments.Persist.{
  Request, Reply, Run, send_all, settle, persist_key, persist_keys, requeue, run_of, persist,
  recorded, requests_of, attempts_of, add_all, deleted_prefix,
}

member-append :
    (k j : Text) (s : List Text)
    → member k (s ++ j ∷ []) ≡ (if text_eq j k then true else member k s)
unfolding member
member-append k j [] = refl
member-append k j (i ∷ s) = ground (arith, member-append k j s, text_eq_iff i k, text_eq_iff j k)

member-add_all :
    (k : Text) (keys s : List Text) (net : List Request → Request → Reply)
    → member k (add_all net keys s) ≡ (if member k keys then true else member k s)
unfolding member
member-add_all k [] s net = refl
member-add_all k (j ∷ keys) s net =
    ground (arith, member-add_all k keys (add j s) net, member-add j k s, text_eq_iff j k)

-- The key has no thread, or its thread is the one that was persisted last.
abbrev IsSettled : Text → CommentEngine → Type 0
IsSettled k e = (lookup k e.ymap ≡ none) ⊎ (lookup k e.last_persisted ≡ lookup k e.ymap)

recorded-IsSettled :
    (k : Text) (e : CommentEngine)
    → starts_with deleted_prefix k ≡ false
    → IsSettled k (recorded k e)
unfolding recorded
recorded-IsSettled k e kept = elim (Option-cases (lookup k e.ymap)) [
  | inl absent ↦ rw (kept, recorded, IsSettled) (rw (absent, IsSettled) (inl absent))
  | inr (t, found) ↦
      rw (kept, recorded, IsSettled)
        (rw (found, IsSettled)
          (ground (arith, lookup-insert k k t e.last_persisted, text_eq_refl k)))
]

not_deleting :
    (k key : Text)
    → text_eq key (deleted_prefix ++ k) ≡ false
    → starts_with deleted_prefix key ≡ true
    → text_eq (drop 12 key) k ≡ false
not_deleting k key other gone =
    let whole = append_drop_of_starts_with deleted_prefix key gone in
    ground (arith, text_eq_iff (drop 12 key) k, text_eq_iff key (deleted_prefix ++ k))

lookup-recorded :
    (k key : Text) (e : CommentEngine)
    → text_eq key k ≡ false
    → text_eq key (deleted_prefix ++ k) ≡ false
    → lookup k (recorded key e).last_persisted ≡ lookup k e.last_persisted
unfolding recorded
lookup-recorded k key e other alive = elim (Bool-cases (starts_with deleted_prefix key)) [
  | inl gone ↦
      rw (gone, recorded)
        (ground
          (arith, lookup-erase (drop 12 key) k e.last_persisted, not_deleting k key alive gone))
  | inr kept ↦ elim (Option-cases (lookup key e.ymap)) [
    | inl absent ↦ rw (kept, recorded) (rw absent)
    | inr (t, found) ↦
        rw (kept, recorded) (rw found (ground (arith, lookup-insert key k t e.last_persisted)))
  ]
]

ymap-recorded : (key : Text) (e : CommentEngine) → (recorded key e).ymap ≡ e.ymap
unfolding recorded
ymap-recorded key e = elim (Bool-cases (starts_with deleted_prefix key)) [
  | inl gone ↦ rw (gone, recorded)
  | inr kept ↦ elim (Option-cases (lookup key e.ymap)) [
    | inl absent ↦ rw (kept, recorded) (rw absent)
    | inr (t, found) ↦ rw (kept, recorded) (rw found)
  ]
]

count-erase_self : (k : Text) (m : List (Text × ℕ)) → lookup k (erase k m) ≡ none
count-erase_self k m = ground (arith, lookup-erase k k m, text_eq_refl k)

-- The requests of another key than the thread's, or of its deletion, stay as they are.
requests_of-recorded :
    (k key : Text) (e : CommentEngine)
    → text_eq key k ≡ false
    → text_eq key (deleted_prefix ++ k) ≡ false
    → requests_of k (recorded key e) ≡ requests_of k e
unfolding requests_of
requests_of-recorded k key e other alive =
    rw (ymap-recorded key e, lookup-recorded k key e other alive)

module _ (net : List Request → Request → Reply) where
  -- All requests for the key were sent and taken, and its thread, if any, is the one that was
  -- persisted last.
  abbrev pub IsPersisted : Text → List Request → List Request → CommentEngine → Type 0
  IsPersisted k rs sent e = WereTaken net rs sent × IsSettled k e

  -- The key is to be queued again, or has attempts left and is either still to come, with its
  -- requests, or persisted.
  abbrev IsServed : Text → List Request → List Text → Run → Type 0
  IsServed k rs keys run =
      (member k run.failed ≡ true)
      ⊎ ((attempts_of k run.engine < 4)
          × (((member k keys ≡ true) × (requests_of k run.engine ≡ rs))
              ⊎ IsPersisted k rs run.sent run.engine))

  -- The turn for the key itself.
  settle_self :
      (k : Text) (rs : List Request) (keys : List Text) (ok : Bool) (run : Run)
      → starts_with deleted_prefix k ≡ false
      → ((member k run.failed ≡ true)
          ⊎ ((attempts_of k run.engine < 4) × ((ok ≡ true) → WereTaken net rs run.sent)))
      → IsServed k rs keys (settle net k ok run)
  unfolding settle
  settle_self k rs keys true run kept (inl failed) = inl failed
  settle_self k rs keys true run kept (inr (few, taken)) = inr (
    rw (count-erase_self k (recorded k run.engine).retry_count, attempts_of) (ground arith),
    inr (taken refl, recorded-IsSettled k run.engine kept),
  )
  settle_self k rs keys false run kept h =
      elim (Bool-cases (leb 5 (attempts_of k run.engine + 1))) [
        | inl full ↦ elim h [
          | inl failed ↦ rw (full, settle) (inl failed)
          | inr (few, taken) ↦ absurd (ground (arith, full, few))
        ]
        | inr more ↦ rw (more, settle) (inl (rw (member-append k k run.failed, text_eq_refl k)))
      ]

  -- The turn for another key.
  settle_other :
      (k key : Text) (rs : List Request) (keys : List Text) (ok : Bool) (run : Run)
      → text_eq key k ≡ false
      → text_eq key (deleted_prefix ++ k) ≡ false
      → IsServed k rs keys run
      → IsServed k rs keys (settle net key ok run)
  unfolding settle requests_of
  settle_other k key rs keys true run other alive (inl failed) = inl failed
  settle_other k key rs keys true run other alive (inr (few, rest)) =
      let count = lookup-erase key k run.engine.retry_count in
      inr (
        rw (retry_count-recorded key run.engine, attempts_of) (ground (arith, count, few, other)),
        elim rest [
          | inl (waits, same) ↦
              inl (waits, requests_of-recorded k key run.engine other alive ∙ same)
          | inr (taken, settled) ↦ inr (
            taken,
            rw (ymap-recorded key run.engine, IsSettled)
                (rw (lookup-recorded k key run.engine other alive) settled),
          )
        ],
      )
  settle_other k key rs keys false run other alive h =
      elim (Bool-cases (leb 5 (attempts_of key run.engine + 1))) [
        | inl full ↦ elim h [
          | inl failed ↦ rw (full, settle) (inl failed)
          | inr (few, rest) ↦
              rw (full, settle, attempts_of)
                (inr (ground (arith, lookup-erase key k run.engine.retry_count, few, other), rest))
        ]
        | inr more ↦ elim h [
          | inl failed ↦
              rw (more, settle) (inl (ground (arith, member-append k key run.failed, failed)))
          | inr (few, rest) ↦
              rw (more, settle, attempts_of)
                (inr (
                  ground (
                    arith,
                    lookup-insert key k (attempts_of key run.engine + 1) run.engine.retry_count,
                    few,
                    other,
                  ),
                  rest,
                ))
        ]
      ]

  persist_key-IsServed :
      (k key : Text) (rs : List Request) (keys : List Text) (run : Run)
      → starts_with deleted_prefix k ≡ false
      → text_eq key (deleted_prefix ++ k) ≡ false
      → IsServed k rs (key ∷ keys) run
      → IsServed k rs keys (persist_key net key run)
  unfolding persist_key member
  persist_key-IsServed k key rs keys run kept alive h =
      let answer = send_all net run.sent (requests_of key run.engine) in
      let asked = record run { sent = answer.0 } in
      elim (Bool-cases (text_eq key k)) [
        | inl self ↦
            let own = send_all net run.sent (requests_of k run.engine) in
            rw (text_eq_sound key k self) (
              settle_self k rs keys own.1 (record run { sent = own.0 }) kept
                (elim h [
                  | inl failed ↦ inl failed
                  | inr (few, inl (waits, same)) ↦ inr (few, λ ok. asked_all net k rs run same ok)
                  | inr (few, inr (taken, settled)) ↦ inr (
                    few,
                    λ ok. send_all-WereTaken net rs run.sent (requests_of k run.engine) taken,
                  )
                ]))
        | inr other ↦ settle_other k key rs keys answer.1 asked other alive (elim h [
          | inl failed ↦ inl failed
          | inr (few, inl (waits, same)) ↦ inr (few, inl (ground (arith, waits, other), same))
          | inr (few, inr (taken, settled)) ↦ inr (
            few,
            inr (send_all-WereTaken net rs run.sent (requests_of key run.engine) taken, settled),
          )
        ])
      ]

  persist_keys-IsServed :
      (k : Text) (rs : List Request) (keys : List Text) (run : Run)
      → starts_with deleted_prefix k ≡ false
      → member (deleted_prefix ++ k) keys ≡ false
      → IsServed k rs keys run
      → IsServed k rs [] (persist_keys net keys run)
  unfolding persist_keys member
  persist_keys-IsServed k rs [] run kept alive h = h
  persist_keys-IsServed k rs (key ∷ keys) run kept alive h =
      elim (Bool-cases (text_eq key (deleted_prefix ++ k))) [
        | inl gone ↦ absurd (ground (arith, alive, gone))
        | inr still ↦
            persist_keys-IsServed k rs keys (persist_key net key run) kept
              (ground (arith, alive, still)) (persist_key-IsServed k key rs keys run kept still h)
      ]

  requeue-cases :
      (k : Text) (rs : List Request) (run : Run)
      → IsServed k rs [] run
      → (member k (requeue net run).dirty ≡ true) ⊎ IsPersisted k rs run.sent (requeue net run)
  unfolding requeue schedule_persist member
  requeue-cases k rs run h = elim (List-cases run.failed) [
    | inl clean ↦ elim h [
      | inl failed ↦
          let no : false ≡ true = rw (clean, member) at failed in absurd (ground (arith, no))
      | inr (few, inl (waits, same)) ↦ absurd (ground (arith, waits))
      | inr (few, inr done) ↦ rw (clean, requeue) (inr done)
    ]
    | inr (key, keys, some_failed) ↦ elim h [
      | inl failed ↦
          rw (some_failed, requeue)
            (inl (
              member-add_all k (key ∷ keys) run.engine.dirty net
              ∙ ground (arith, rw some_failed at failed)))
      | inr (few, inl (waits, same)) ↦ absurd (ground (arith, waits))
      | inr (few, inr done) ↦ rw (some_failed, requeue) (inr done)
    ]
  ]

  persist-requeue :
      (e : CommentEngine) (key : Text) (keys : List Text)
      → e.dirty ≡ key ∷ keys
      → persist net e ≡ requeue net (run_of net e)
  unfolding persist
  persist-requeue e key keys more =
      rw (more, persist)
        (ap
          (λ x. requeue net (
            persist_keys net x
              (record { sent = []; engine = record e { dirty = [] }; failed = [] })))
          more)

  -- A dirty thread is after a run of the loop dirty again, or it is recorded as persisted as it is and
  -- every request that the loop had for it was sent and taken by the server, each with a status of success or, for a
  -- create, with 409; if fewer than four attempts for it have failed, its key is no deletion mark, and
  -- no deletion of it is waiting.
  pub persist-IsPersisted :
      (k : Text) (e : CommentEngine)
      → starts_with deleted_prefix k ≡ false
      → member (deleted_prefix ++ k) e.dirty ≡ false
      → attempts_of k e < 4
      → member k e.dirty ≡ true
      → (member k (persist net e).dirty ≡ true)
        ⊎ IsPersisted k (requests_of k e) (run_of net e).sent (persist net e)
  unfolding requests_of member
  persist-IsPersisted k e kept alive few waits = elim (List-cases e.dirty) [
    | inl clean ↦ let no : false ≡ true = rw (clean, member) at waits in absurd (ground (arith, no))
    | inr (key, keys, more) ↦ rw (persist-requeue e key keys more) (
        requeue-cases k (requests_of k e) (run_of net e) (
          persist_keys-IsServed k (requests_of k e) e.dirty
            (record { sent = []; engine = record e { dirty = [] }; failed = [] }) kept alive
            (inr (few, inl (waits, refl)))))
  ]
