-- ===== src/Comments/Persist/Taken.antt =====
-- The requests of the persistence loop of `CommentEngine` and the answers of the server to them.
use collab_editor.Prelude.{
  ◌≤◌, ◌∙◌, ◌≡◌, ap, sym, append-nil, append_assoc, ◌⊎◌, inl, inr, true, false, List, [], ◌∷◌, ◌++◌,
  arith, Text, Bool-cases,
}
use collab_editor.Comments.Persist.{
  Request, Reply, network_error, responded, create_request, reply_request, status_request,
  decision_request, delete_request, accepts, Run, send_all, requests_of,
}

-- The server took the request: it answered with a status of success, or to a create that it has the
-- thread already.
abbrev pub IsTaken : Request → Reply → Type 0
IsTaken r network_error = ⊥
IsTaken (create_request _ _ _ _) (responded code) = ((200 ≤ code) × (code ≤ 299)) ⊎ (code ≡ 409)
IsTaken (reply_request _ _) (responded code) = (200 ≤ code) × (code ≤ 299)
IsTaken (status_request _ _ _) (responded code) = (200 ≤ code) × (code ≤ 299)
IsTaken (decision_request _ _ _ _) (responded code) = (200 ≤ code) × (code ≤ 299)
IsTaken (delete_request _) (responded code) = (200 ≤ code) × (code ≤ 299)

accepts-IsTaken : (r : Request) (reply : Reply) → accepts r reply ≡ true → IsTaken r reply
unfolding accepts
accepts-IsTaken r network_error h = absurd (ground (arith, h))
accepts-IsTaken (create_request _ _ _ _) (responded code) h = ground (arith, h)
accepts-IsTaken (reply_request _ _) (responded code) h = ground (arith, h)
accepts-IsTaken (status_request _ _ _) (responded code) h = ground (arith, h)
accepts-IsTaken (decision_request _ _ _ _) (responded code) h = ground (arith, h)
accepts-IsTaken (delete_request _) (responded code) h = ground (arith, h)

module _ (net : List Request → Request → Reply) where
  -- The requests are sent one after the other behind those before, and each is taken.
  abbrev pub AreTaken : List Request → List Request → Type 0
  AreTaken sent [] = Unit
  AreTaken sent (r ∷ rs) = IsTaken r (net sent r) × AreTaken (sent ++ r ∷ []) rs

  send_all-AreTaken : (sent rs : List Request) → (send_all net sent rs).1 ≡ true → AreTaken sent rs
  unfolding send_all
  send_all-AreTaken sent [] h = tt
  send_all-AreTaken sent (r ∷ rs) h = elim (Bool-cases (accepts r (net sent r))) [
    | inl taken ↦ (
      accepts-IsTaken r (net sent r) taken,
      send_all-AreTaken (sent ++ r ∷ []) rs (rw (taken, send_all) at h),
    )
    | inr refused ↦
        let no : false ≡ true = rw (refused, send_all) at h in absurd (ground (arith, no))
  ]

  send_all-append :
      (sent rs : List Request)
      → (send_all net sent rs).1 ≡ true
      → (send_all net sent rs).0 ≡ sent ++ (rs ++ [])
  unfolding send_all
  send_all-append sent [] h = sym (append-nil sent)
  send_all-append sent (r ∷ rs) h = elim (Bool-cases (accepts r (net sent r))) [
    | inl taken ↦
        rw (taken, send_all)
          (send_all-append (sent ++ r ∷ []) rs (rw (taken, send_all) at h)
            ∙ append_assoc sent (r ∷ []) (rs ++ []))
    | inr refused ↦
        let no : false ≡ true = rw (refused, send_all) at h in absurd (ground (arith, no))
  ]

  -- The requests are among those that were sent, one after the other, and each was taken.
  abbrev pub WereTaken : List Request → List Request → Type 0
  WereTaken rs sent =
      (before after : List Request) × ((sent ≡ before ++ (rs ++ after)) × AreTaken before rs)

  WereTaken-append :
      (rs sent : List Request) (r : Request) → WereTaken rs sent → WereTaken rs (sent ++ r ∷ [])
  WereTaken-append rs sent r (before, after, (same, taken)) = (
    before,
    after ++ r ∷ [],
    (
      ap (λ x. x ++ r ∷ []) same
          ∙ append_assoc before (rs ++ after) (r ∷ [])
          ∙ ap (λ x. before ++ x) (append_assoc rs after (r ∷ [])),
      taken,
    ),
  )

  pub send_all-WereTaken :
      (rs sent qs : List Request) → WereTaken rs sent → WereTaken rs (send_all net sent qs).0
  unfolding send_all
  send_all-WereTaken rs sent [] h = h
  send_all-WereTaken rs sent (r ∷ qs) h = elim (Bool-cases (accepts r (net sent r))) [
    | inl taken ↦
        rw (taken, send_all)
          (send_all-WereTaken rs (sent ++ r ∷ []) qs (WereTaken-append rs sent r h))
    | inr refused ↦ rw (refused, send_all) (WereTaken-append rs sent r h)
  ]

  pub asked_all :
      (k : Text) (rs : List Request) (run : Run)
      → requests_of k run.engine ≡ rs
      → (send_all net run.sent (requests_of k run.engine)).1 ≡ true
      → WereTaken rs (send_all net run.sent (requests_of k run.engine)).0
  asked_all k rs run same ok = (
    run.sent,
    [],
    (
      send_all-append run.sent (requests_of k run.engine) ok ∙ ap (λ x. run.sent ++ (x ++ [])) same,
      rw same at (send_all-AreTaken run.sent (requests_of k run.engine) ok),
    ),
  )
