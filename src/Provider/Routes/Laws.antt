-- ===== src/Provider/Routes/Laws.antt =====
-- Every answer of the provider's routes.
use collab_editor.Prelude.{
  ℕ, ◌≡◌, refl, ◌⊎◌, inl, inr, Bool, true, false, ◌||◌, [], ◌∷◌, Option, none, some, Text, List,
  Bool-cases, arith,
}
use collab_editor.Yjs.{SharedText}
use collab_editor.Blame.Versions.{VersionEntry}
use collab_editor.Provider.Types.{VersionListEntry, CreateVersionRequest, StoreResponse}
use collab_editor.Provider.Processor.{
  Result, ok, thrown, UpdatePayload, Provider, Codec, State, Action, and_then, process_store,
}
use collab_editor.Provider.Routes.{
  Body, health, content, documents, versions, version_entry, full_version, mappings, Response,
  Route, get_health, get_documents, post_load, post_updates, get_versions, post_version,
  get_version_detail, get_clients, post_clients, answer_of, respond, with_path, found_or,
  respond_found, answer_store, store_status, respond_store, with_version, registered, answer,
  handle,
}

module _ (y : SharedText) (codec : Codec y.Doc) (provider : Provider) (time : Text → Option ℕ) where
  abbrev pub is_missing : Option Text → Bool
  is_missing none = true
  is_missing (some []) = true
  is_missing (some (c ∷ s)) = false

  -- A route that lacks the path or the version that it needs.
  unfoldable pub lacks_query : Route → Bool
  lacks_query get_health = false
  lacks_query get_documents = false
  lacks_query (post_load path) = is_missing path
  lacks_query (post_updates path updates) = is_missing path
  lacks_query (get_versions path) = is_missing path
  lacks_query (post_version path req) = is_missing path
  lacks_query (get_version_detail path version) = is_missing path || is_missing version
  lacks_query (get_clients path) = is_missing path
  lacks_query (post_clients path sent) = is_missing path

  abbrev pub success_of : Route → ℕ
  success_of (post_updates path updates) = 202
  success_of (post_version path req) = 201
  success_of _ = 200

  -- Only a version can be missing.
  abbrev pub IsMissing : Route → Response → Type 0
  IsMissing (get_version_detail path version) r = r.status ≡ 404
  IsMissing _ r = ⊥

  abbrev pub IsFair : Route → Response → Type 0
  IsFair route r = (r.status ≡ success_of route) ⊎ ((r.status ≡ 500) ⊎ IsMissing route r)

  -- What is said of an answer y codec provider time of a handler: it is a refusal, or it is fair.
  abbrev pub IsAnswer :
      Bool → Route → State y codec provider → Response × State y codec provider → Type 0
  IsAnswer true route s a = (a.0.status ≡ 400) × (a.1 ≡ s)
  IsAnswer false route s a = IsFair route a.0

  answer_of-status :
      {A : Type 0} (status : ℕ) (body : A → Body) (a : Result A)
      → ((answer_of y codec provider time status body a).status ≡ status)
        ⊎ ((answer_of y codec provider time status body a).status ≡ 500)
  unfolding answer_of
  answer_of-status status body (thrown e) = inr refl
  answer_of-status status body (ok a) = inl refl

  respond-IsFair :
      {A : Type 0} (route : Route) (body : A → Body) (action : Action y codec provider A)
      (s : State y codec provider)
      → IsFair route (respond y codec provider time (success_of route) body action s).0
  unfolding respond
  respond-IsFair route body action s =
      elim (answer_of-status (success_of route) body (action s).0) [
        | inl e ↦ inl e
        | inr e ↦ inr (inl e)
      ]

  -- The processor reports no update as failed.
  abbrev IsWhole : Result StoreResponse → Type 0
  IsWhole (thrown e) = Unit
  IsWhole (ok resp) = resp.failed ≡ none

  and_then-IsWhole :
      {A : Type 0} (m : Action y codec provider A) (f : A → Action y codec provider StoreResponse)
      (s : State y codec provider)
      → ((a : A) (s1 : State y codec provider) → IsWhole (f a s1).0)
      → IsWhole (and_then y codec provider m f s).0
  unfolding and_then
  and_then-IsWhole m f s h = passed (m s).0 (m s).1 f h
    where
      passed :
          {A : Type 0} (a : Result A) (s1 : State y codec provider)
          (f : A → Action y codec provider StoreResponse)
          → ((v : A) (s2 : State y codec provider) → IsWhole (f v s2).0)
          → IsWhole
              (elim a as (λ _. Result StoreResponse × State y codec provider) [
                | thrown e ↦ (thrown e, s1)
                | ok v ↦ f v s1
              ]).0
      passed (thrown e) s1 f h = tt
      passed (ok v) s1 f h = h v s1

  process_store-IsWhole :
      (id : Text) (us : List UpdatePayload) (s : State y codec provider)
      → IsWhole (process_store y codec provider id us s).0
  unfolding process_store
  process_store-IsWhole id [] s = refl
  process_store-IsWhole id (u ∷ us) s = and_then-IsWhole _ _ s (λ doc s1.
      and_then-IsWhole _ _ s1 (λ done s2.
        and_then-IsWhole _ _ s2
          (λ c s3. and_then-IsWhole _ _ s3 (λ a s4. and_then-IsWhole _ _ s4 (λ b s5. refl)))))

  answer_store-IsFair :
      (path : Option Text) (updates : Option (List UpdatePayload)) (a : Result StoreResponse)
      → IsWhole a
      → IsFair (post_updates path updates) (answer_store y codec provider time a)
  unfolding answer_store store_status
  answer_store-IsFair path updates (thrown e) h = inr (inl refl)
  answer_store-IsFair path updates (ok resp) h = inl (rw h refl)

  with_path-IsAnswer :
      (route : Route) (path : Option Text)
      (handler : Text → State y codec provider → Response × State y codec provider)
      (s : State y codec provider)
      → ((id : Text) → IsFair route (handler id s).0)
      → IsAnswer (is_missing path) route s (with_path y codec provider time path handler s)
  unfolding with_path
  with_path-IsAnswer route none handler s fair = (refl, refl)
  with_path-IsAnswer route (some []) handler s fair = (refl, refl)
  with_path-IsAnswer route (some (c ∷ path)) handler s fair = fair (c ∷ path)

  found_or-IsFair :
      (path version : Option Text) (message : Text) (a : Result (Option VersionEntry))
      → IsFair
          (get_version_detail path version)
          (found_or y codec provider time 200 full_version 404 message a)
  unfolding found_or
  found_or-IsFair path version message (thrown e) = inr (inl refl)
  found_or-IsFair path version message (ok none) = inr (inr refl)
  found_or-IsFair path version message (ok (some v)) = inl refl

  created-IsFair :
      (path : Option Text) (req : CreateVersionRequest) (message : Text)
      (a : Result (Option VersionListEntry))
      → IsFair
          (post_version path req)
          (found_or y codec provider time 201 version_entry 500 message a)
  unfolding found_or
  created-IsFair path req message (thrown e) = inr (inl refl)
  created-IsFair path req message (ok none) = inr (inl refl)
  created-IsFair path req message (ok (some v)) = inl refl

  answer-IsAnswer :
      (route : Route) (s : State y codec provider)
      → IsAnswer (lacks_query route) route s (answer y codec provider time route s)
  unfolding answer lacks_query with_path with_version respond_found respond_store
  answer-IsAnswer get_health s = respond-IsFair get_health health _ s
  answer-IsAnswer get_documents s = respond-IsFair get_documents documents _ s
  answer-IsAnswer (post_load path) s =
      with_path-IsAnswer (post_load path) path _ s
        (λ id. respond-IsFair (post_load path) content _ s)
  answer-IsAnswer (post_updates path updates) s =
      with_path-IsAnswer (post_updates path updates) path _ s
        (λ id. answer_store-IsFair path updates _ (process_store-IsWhole id _ s))
  answer-IsAnswer (get_versions path) s =
      with_path-IsAnswer (get_versions path) path _ s
        (λ id. respond-IsFair (get_versions path) versions _ s)
  answer-IsAnswer (post_version path req) s =
      with_path-IsAnswer (post_version path req) path _ s (λ id. created-IsFair path req _ _)
  answer-IsAnswer (get_version_detail none version) s = (refl, refl)
  answer-IsAnswer (get_version_detail (some []) version) s = (refl, refl)
  answer-IsAnswer (get_version_detail (some (c ∷ path)) none) s = (refl, refl)
  answer-IsAnswer (get_version_detail (some (c ∷ path)) (some [])) s = (refl, refl)
  answer-IsAnswer (get_version_detail (some (c ∷ path)) (some (d ∷ version))) s =
      found_or-IsFair (some (c ∷ path)) (some (d ∷ version)) _ _
  answer-IsAnswer (get_clients path) s =
      with_path-IsAnswer (get_clients path) path _ s
        (λ id. respond-IsFair (get_clients path) mappings _ s)
  answer-IsAnswer (post_clients path sent) s =
      with_path-IsAnswer (post_clients path sent) path _ s
        (λ id. respond-IsFair (post_clients path sent) _ _ s)

  -- A handler that the router has for a route answers a request without the path or the version
  -- that it needs with 400 and leaves the cache and the provider as they are; any other request it
  -- answers with the status of its route, with 500 or, if it is for a version, with 404. The status
  -- for updates is 202, never 207, since the processor reports no partial failure.
  pub handle_lem :
      (route : Route) (handler : State y codec provider → Response × State y codec provider)
      (s : State y codec provider)
      → handle y codec provider time route ≡ some handler
      → IsAnswer (lacks_query route) route s (handler s)
  unfolding handle
  handle_lem route handler s h = elim (Bool-cases (registered y codec provider time route)) [
    | inl e ↦
        let found : some (answer y codec provider time route) ≡ some handler = rw e at h in
        let same : answer y codec provider time route ≡ handler = cc in
        rw same at (answer-IsAnswer route s)
    | inr e ↦ let missing : none ≡ some handler = rw e at h in absurd (ground (arith, missing))
  ]
