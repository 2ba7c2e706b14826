-- ===== src/Provider/Routes.antt =====
-- The routes of handler.ts: a missing path is a bad request, and what the processor throws an
-- internal error. The routes of versions and clients are registered only for providers that have
-- these. The queries for documents and mappings take JSON that was read by express.
pub mod Laws
use collab_editor.Prelude.{
  ℕ, ◌≡◌, refl, ◌⊎◌, inl, inr, Bool, true, false, ◌||◌, Bool-cases, if◌then◌else◌, length, ltb,
  List, [], ◌∷◌, Option, none, some, Text, text,
}
use collab_editor.Yjs.{SharedText}
use collab_editor.Blame.Versions.{VersionEntry}
use collab_editor.Provider.Types.{
  VersionListEntry, CreateVersionRequest, ClientUserMapping, FailedUpdate, StoreResponse,
}
use collab_editor.Provider.Versions.{
  process_list_versions, process_create_version, process_get_version, process_get_client_mappings,
  process_store_client_mappings,
}
use collab_editor.Provider.Processor.{
  Result, ok, thrown, ContentResult, UpdatePayload, HealthResponse, DocumentListEntry, Provider,
  Codec, State, Action, process_load, process_store, process_health, process_list,
}

-- The bodies of the answers.
pub data Body : Type 0 where
  error : Text → Body
  health : HealthResponse → Body
  content : ContentResult → Body
  store_response : StoreResponse → Body
  stored : ℕ → Body
  documents : List DocumentListEntry → Body
  versions : List VersionListEntry → Body
  version_entry : VersionListEntry → Body
  full_version : VersionEntry → Body
  mappings : List ClientUserMapping → Body

pub record Response : Type 0 where
  pub status : ℕ
  pub body : Body

-- A request to one of the routes; a missing list of updates is the empty list.
pub data Route : Type 0 where
  get_health get_documents : Route
  post_load : Option Text → Route
  post_updates : Option Text → Option (List UpdatePayload) → Route
  get_versions : Option Text → Route
  post_version : Option Text → CreateVersionRequest → Route
  get_version_detail : Option Text → Option Text → Route
  get_clients : Option Text → Route
  post_clients : Option Text → Option (List ClientUserMapping) → Route

module _ (y : SharedText) (codec : Codec y.Doc) (provider : Provider) (time : Text → Option ℕ) where
  -- `try { res.status(status).json(…) } catch (err) { res.status(500).json({ error }) }`
  unfoldable pub answer_of : {A : Type 0} → ℕ → (A → Body) → Result A → Response
  answer_of status body (thrown e) = record { status = 500; body = error e }
  answer_of status body (ok a) = record { status = status; body = body a }

  unfoldable pub respond :
      {A : Type 0}
      → ℕ
      → (A → Body)
      → Action y codec provider A
      → State y codec provider
      → Response × State y codec provider
  respond status body action s = let (a, s1) = action s in (answer_of status body a, s1)

  -- `resp.failed && resp.failed.length > 0 ? 207 : 202`
  abbrev pub failed_of : Option (List FailedUpdate) → List FailedUpdate
  failed_of none = []
  failed_of (some failed) = failed

  unfoldable pub store_status : StoreResponse → ℕ
  store_status resp = if ltb 0 (length (failed_of resp.failed)) then 207 else 202

  unfoldable pub answer_store : Result StoreResponse → Response
  answer_store (thrown e) = record { status = 500; body = error e }
  answer_store (ok resp) = record { status = store_status resp; body = store_response resp }

  unfoldable pub respond_store :
      Action y codec provider StoreResponse
      → State y codec provider
      → Response × State y codec provider
  respond_store action s = let (a, s1) = action s in (answer_store a, s1)

  unfoldable pub with_path :
      Option Text
      → (Text → State y codec provider → Response × State y codec provider)
      → State y codec provider
      → Response × State y codec provider
  with_path none handler s =
      (record { status = 400; body = error (text "missing 'path' query parameter") }, s)
  with_path (some []) handler s =
      (record { status = 400; body = error (text "missing 'path' query parameter") }, s)
  with_path (some (c ∷ path)) handler s = handler (c ∷ path) s

  -- The answer for a result that may be missing.
  unfoldable pub found_or : {A : Type 0} → ℕ → (A → Body) → ℕ → Text → Result (Option A) → Response
  found_or status body missing message (thrown e) = record { status = 500; body = error e }
  found_or status body missing message (ok none) = record { status = missing; body = error message }
  found_or status body missing message (ok (some a)) = record { status = status; body = body a }

  unfoldable pub respond_found :
      {A : Type 0}
      → ℕ
      → (A → Body)
      → ℕ
      → Text
      → Action y codec provider (Option A)
      → State y codec provider
      → Response × State y codec provider
  respond_found status body missing message action s =
      let (a, s1) = action s in (found_or status body missing message a, s1)

  unfoldable pub with_version :
      Option Text
      → (Text → State y codec provider → Response × State y codec provider)
      → State y codec provider
      → Response × State y codec provider
  with_version none handler s =
      (record { status = 400; body = error (text "missing 'version' query parameter") }, s)
  with_version (some []) handler s =
      (record { status = 400; body = error (text "missing 'version' query parameter") }, s)
  with_version (some (c ∷ version)) handler s = handler (c ∷ version) s

  abbrev pub has_method {ℓ} : {A : Type ℓ} → Option A → Bool
  has_method none = false
  has_method (some method) = true

  -- Whether the route was registered.
  unfoldable pub registered : Route → Bool
  registered (get_versions path) = has_method provider.list_versions
  registered (post_version path req) = has_method provider.list_versions
  registered (get_version_detail path version) = has_method provider.list_versions
  registered (get_clients path) = has_method provider.get_client_mappings
  registered (post_clients path sent) = has_method provider.get_client_mappings
  registered _ = true

  abbrev pub mappings_of : Option (List ClientUserMapping) → List ClientUserMapping
  mappings_of none = []
  mappings_of (some sent) = sent

  abbrev pub updates_of : Option (List UpdatePayload) → List UpdatePayload
  updates_of none = []
  updates_of (some us) = us

  -- The handler of a route.
  unfoldable pub answer : Route → State y codec provider → Response × State y codec provider
  answer get_health = respond 200 health (process_health y codec provider)
  answer get_documents = respond 200 documents (process_list y codec provider)
  answer (post_load path) =
      with_path path (λ id. respond 200 content (process_load y codec provider id))
  answer (post_updates path updates) =
      with_path path (λ id. respond_store (process_store y codec provider id (updates_of updates)))
  answer (get_versions path) =
      with_path path (λ id. respond 200 versions (process_list_versions y codec provider id))
  answer (post_version path req) = with_path path (λ id.
      respond_found 201 version_entry 500 (text "version creation not supported")
        (process_create_version y codec provider id req))
  answer (get_version_detail path version) = with_path path (λ id.
      with_version version (λ version_id.
        respond_found 200 full_version 404 (text "version not found")
          (process_get_version y codec provider time id version_id)))
  answer (get_clients path) =
      with_path path (λ id. respond 200 mappings (process_get_client_mappings y codec provider id))
  answer (post_clients path sent) = with_path path (λ id.
      respond 200 (λ _. stored (length (mappings_of sent)))
        (process_store_client_mappings y codec provider id (mappings_of sent)))

  -- The handler that the router has for a route.
  unfoldable pub handle :
      Route → Option (State y codec provider → Response × State y codec provider)
  handle route = if registered route then some (answer route) else none
