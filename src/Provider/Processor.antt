-- ===== src/Provider/Processor.antt =====
-- `ProviderProcessor` of provider.ts and the Yjs helpers of engine.ts. Each operation passes on the
-- processor's state and the provider's, and may throw.
pub mod Laws
use collab_editor.Prelude.{
  ℕ, zero, suc, ◌+◌, Bool, true, false, not, ◌&&◌, List, [], ◌∷◌, length, Option, none, some, Text,
  text, ltb, ◌==◌, if◌then◌else◌,
}
use collab_editor.Prelude.Maps.{lookup, insert}
use collab_editor.Yjs.{SharedText}
use collab_editor.Blame.Versions.{VersionEntry}
use collab_editor.Provider.Types.{
  VersionListEntry, CreateVersionRequest, ClientUserMapping, StoreResponse,
}
use collab_editor.Provider.Cache.{DocCache, new_doc_cache, get, set, clear}

pub data Result (A : Type 0) : Type 0 where
  ok : A → Result A
  thrown : Text → Result A

pub record ContentResult : Type 0 where
  pub content : Text
  pub mime_type : Text

pub record HealthResponse : Type 0 where
  pub status : Text
  pub storage : Option Text

pub record DocumentListEntry : Type 0 where
  pub name : Text
  pub size : ℕ
  pub mime_type : Text

-- A stored update; only its base64 data matters here.
pub record UpdatePayload : Type 0 where
  pub sequence : ℕ
  pub data_base64 : Text
  pub client_id : ℕ

-- The provider, which a user of the SDK implements, with a state of its own. A method that is
-- optional there is optional here.
pub record Provider : Type 1 where
  pub Store : Type 0
  pub read_content : Text → Store → Result ContentResult × Store
  pub write_content : Option (Text → Text → Text → Store → Result (Unit {0}) × Store)
  pub store_raw_updates : Option (Text → List UpdatePayload → Store → Result (Unit {0}) × Store)
  pub on_health : Option (Store → Result HealthResponse × Store)
  pub list_documents : Option (Store → Result (List DocumentListEntry) × Store)
  pub list_versions : Option (Text → Store → Result (List VersionListEntry) × Store)
  pub create_version :
      Option (Text → CreateVersionRequest → Store → Result VersionListEntry × Store)
  pub get_version : Option (Text → Text → Store → Result (Option VersionEntry) × Store)
  pub get_client_mappings : Option (Text → Store → Result (List ClientUserMapping) × Store)
  pub store_client_mappings :
      Option (Text → List ClientUserMapping → Store → Result (Unit {0}) × Store)

-- lib0's decoder, base64 and `Y.applyUpdate`.
pub record Codec (Doc : Type 0) : Type 0 where
  pub empty_doc : Doc
  pub from_base64 : Text → List ℕ
  pub read_var_uint : List ℕ → Result (ℕ × List ℕ)
  pub read_var_uint8_array : List ℕ → Result (List ℕ)
  pub apply_update : List ℕ → Doc → Result Doc

module _ (y : SharedText) (codec : Codec y.Doc) (provider : Provider) where
  open y use {Doc, to_string}
  open provider use {Store, read_content}

  -- Only a sync message of the kind "update" carries one.
  unfoldable pub extract_yjs_update : List ℕ → Result (Option (List ℕ))
  extract_yjs_update bytes =
      if ltb (length bytes) 2 then ok none else (elim (codec.read_var_uint bytes) [
        | thrown e ↦ thrown e
        | ok (message_type, rest) ↦
            if not (message_type == 0) then ok none else (elim (codec.read_var_uint rest) [
              | thrown e ↦ thrown e
              | ok (sync_type, body) ↦
                  if not (sync_type == 2)
                  then ok none
                  else (elim (codec.read_var_uint8_array body) [
                    | thrown e ↦ thrown e
                    | ok u ↦ ok (some u)
                  ])
            ])
      ])

  -- The document, and whether an update was applied.
  unfoldable pub apply_base64_update : Doc → Text → Result (Doc × Bool)
  apply_base64_update doc base64_data = elim (extract_yjs_update (codec.from_base64 base64_data)) [
    | thrown e ↦ thrown e
    | ok none ↦ ok (doc, false)
    | ok (some u) ↦ elim (codec.apply_update u doc) [ thrown e ↦ thrown e | ok d ↦ ok (d, true) ]
  ]

  unfoldable pub create_doc_with_content : Text → Doc
  create_doc_with_content [] = codec.empty_doc
  create_doc_with_content (c ∷ s) = y.insert 0 (c ∷ s) codec.empty_doc

  -- The cache of the processor, and the provider's state.
  pub record State : Type 0 where
    pub docs : DocCache Doc
    pub store : Store

  abbrev pub Action : Type 0 → Type 0
  Action A = State → Result A × State

  unfoldable pub and_then : {A B : Type 0} → Action A → (A → Action B) → Action B
  and_then m f s = let (a, s1) = m s in elim a [ thrown e ↦ (thrown e, s1) | ok v ↦ f v s1 ]

  abbrev pub give : {A : Type 0} → A → Action A
  give a s = (ok a, s)

  abbrev pub ask : {A : Type 0} → (Store → Result A × Store) → Action A
  ask f s = let answer = f s.store in (answer.0, record s { store = answer.1 })

  unfoldable pub cached : Text → Action (Option Doc)
  cached id s = (ok (lookup id s.docs.cache), record s { docs = get Doc id s.docs })

  unfoldable pub keep : Text → Doc → Action (Unit {0})
  keep id doc s = (ok tt, record s { docs = set Doc id doc s.docs })

  unfoldable pub process_load : Text → Action ContentResult
  process_load id = and_then (ask (read_content id)) (λ c. and_then (cached id) (λ doc. elim doc [
    | some d ↦ give c
    | none ↦ and_then (keep id (create_doc_with_content c.content)) (λ _. give c)
  ]))

  unfoldable pub open_doc : Text → Action Doc
  open_doc id = and_then (cached id) (λ doc. elim doc [
    | some d ↦ give d
    | none ↦
        and_then (ask (read_content id))
          (λ c. let d = create_doc_with_content c.content in and_then (keep id d) (λ _. give d))
  ])

  -- The document in the cache is the one that is updated.
  unfoldable pub refresh : Text → Doc → Action (Unit {0})
  refresh id doc s =
      (ok tt, record s { docs = record s.docs { cache = insert id doc s.docs.cache } })

  unfoldable pub apply_updates : Text → List UpdatePayload → Doc → ℕ → Action (Doc × ℕ)
  apply_updates id [] doc applied = give (doc, applied)
  apply_updates id (u ∷ us) doc applied = elim (apply_base64_update doc u.data_base64) [
    | thrown e ↦ λ s. (thrown e, s)
    | ok (d, counts) ↦
        and_then (refresh id d)
          (λ _. apply_updates id us d (if counts then applied + 1 else applied))
  ]

  unfoldable pub optionally : {A : Type 0} → Option A → (A → Action (Unit {0})) → Action (Unit {0})
  optionally none f = give tt
  optionally (some a) f = f a

  -- Only the number of updates is given.
  abbrev pub stored_updates : ℕ → StoreResponse
  stored_updates n = record {
    stored = n;
    duplicates_ignored = none;
    failed = none;
    version_created = none;
  }

  unfoldable pub process_store : Text → List UpdatePayload → Action StoreResponse
  process_store id [] = give (stored_updates 0)
  process_store id (u ∷ us) = and_then (open_doc id) (λ doc.
      and_then (apply_updates id (u ∷ us) doc 0) (λ done. and_then (ask (read_content id)) (λ c.
        and_then (optionally provider.store_raw_updates (λ f. ask (f id (u ∷ us)))) (λ _.
          and_then
            (optionally provider.write_content (λ f. ask (f id (to_string done.0) c.mime_type)))
            (λ _. give (stored_updates done.1))))))

  unfoldable pub process_health : Action HealthResponse
  process_health = elim provider.on_health [
    | none ↦ give (record { status = text "ok"; storage = none })
    | some f ↦ ask f
  ]

  unfoldable pub process_list : Action (List DocumentListEntry)
  process_list = elim provider.list_documents [ none ↦ give [] | some f ↦ ask f ]

  unfoldable pub clear_cache : State → State
  clear_cache s = record s { docs = clear Doc s.docs }
