-- ===== src/Provider/Versions.antt =====
-- The versions and the client mappings of `ProviderProcessor`, of provider.ts. When a date is, is a
-- parameter: `new Date(s).getTime()`, `none` for NaN, with which no comparison holds. A version that
-- the provider returns is a value here; the code sets the blame in the provider's object.
pub mod Laws
use collab_editor.Prelude.{
  ℕ, Bool, true, false, List, [], ◌∷◌, Option, none, some, Text, leb, if◌then◌else◌,
}
use collab_editor.Yjs.{SharedText}
use collab_editor.Blame.{BlameSegment}
use collab_editor.Blame.Versions.{VersionEntry, compute_blame_from_versions}
use collab_editor.Provider.Types.{VersionListEntry, CreateVersionRequest, ClientUserMapping}
use collab_editor.Provider.Processor.{
  Result, ok, thrown, Provider, Codec, State, Action, and_then, give, ask, optionally,
}

module _ (time : Text → Option ℕ) where
  -- `a <= b` on times
  abbrev pub not_after : Option ℕ → Option ℕ → Bool
  not_after none t = false
  not_after (some s) none = false
  not_after (some s) (some t) = leb s t

  unfoldable pub up_to : Option ℕ → List VersionListEntry → List VersionListEntry
  up_to t [] = []
  up_to t (v ∷ versions) =
      let rest = up_to t versions in if not_after (time v.created_at) t then v ∷ rest else rest

  -- The sort is stable; an entry goes before those of its time that came behind it.
  unfoldable pub insert_version : VersionListEntry → List VersionListEntry → List VersionListEntry
  insert_version v [] = v ∷ []
  insert_version v (w ∷ versions) =
      let rest = insert_version v versions in
      if not_after (time v.created_at) (time w.created_at) then v ∷ w ∷ versions else w ∷ rest

  unfoldable pub sort_versions : List VersionListEntry → List VersionListEntry
  sort_versions [] = []
  sort_versions (v ∷ versions) = insert_version v (sort_versions versions)

abbrev pub lacks_blame : Option (List BlameSegment) → Bool
lacks_blame none = true
lacks_blame (some []) = true
lacks_blame (some (s ∷ segments)) = false

-- No blame is set where no version of the chain was found.
unfoldable pub with_blame : VersionEntry → List VersionEntry → VersionEntry
with_blame entry [] = entry
with_blame entry (v ∷ versions) = record entry {
  blame = some (compute_blame_from_versions (v ∷ versions));
}

-- `if (full) fullVersions.push(full)`
abbrev pub push_found : Option VersionEntry → List VersionEntry → List VersionEntry
push_found none versions = versions
push_found (some v) versions = v ∷ versions

module _ (y : SharedText) (codec : Codec y.Doc) (provider : Provider) where
  open provider use {Store}

  unfoldable pub process_list_versions : Text → Action y codec provider (List VersionListEntry)
  process_list_versions id = elim provider.list_versions [
    | none ↦ give y codec provider []
    | some f ↦ ask y codec provider (f id)
  ]

  unfoldable pub process_create_version :
      Text → CreateVersionRequest → Action y codec provider (Option VersionListEntry)
  process_create_version id req = elim provider.create_version [
    | none ↦ give y codec provider none
    | some f ↦
        and_then y codec provider (ask y codec provider (f id req))
          (λ entry. give y codec provider (some entry))
  ]

  unfoldable pub fetch_all :
      (Text → Store → Result (Option VersionEntry) × Store)
      → List VersionListEntry
      → Action y codec provider (List VersionEntry)
  fetch_all get [] = give y codec provider []
  fetch_all get (v ∷ versions) =
      and_then y codec provider (ask y codec provider (get v.id)) (λ full.
        and_then y codec provider (fetch_all get versions)
          (λ rest. give y codec provider (push_found full rest)))

  unfoldable pub blame_version :
      (Text → Option ℕ)
      → (Text → Store → Result (Option VersionEntry) × Store)
      → VersionEntry
      → List VersionListEntry
      → Action y codec provider (Option VersionEntry)
  blame_version time get entry all =
      and_then y codec provider
        (fetch_all get (sort_versions time (up_to time (time entry.created_at) all)))
        (λ full. give y codec provider (some (with_blame entry full)))

  -- What is done with the version that `getVersion` found.
  unfoldable pub version_found :
      (Text → Option ℕ)
      → (Text → Store → Result (Option VersionEntry) × Store)
      → Option (Store → Result (List VersionListEntry) × Store)
      → Option VersionEntry
      → Action y codec provider (Option VersionEntry)
  version_found time get list none = give y codec provider none
  version_found time get none (some entry) = give y codec provider (some entry)
  version_found time get (some list) (some entry) =
      if lacks_blame entry.blame
      then and_then y codec provider (ask y codec provider list) (blame_version time get entry)
      else give y codec provider (some entry)

  -- With the methods `getVersion` and `listVersions` of the provider.
  unfoldable pub get_version_with :
      (Text → Option ℕ)
      → Option (Text → Text → Store → Result (Option VersionEntry) × Store)
      → Option (Text → Store → Result (List VersionListEntry) × Store)
      → Text
      → Text
      → Action y codec provider (Option VersionEntry)
  get_version_with time none list id version_id = give y codec provider none
  get_version_with time (some get) list id version_id =
      and_then y codec provider (ask y codec provider (get id version_id))
        (version_found time (get id) (elim list [ none ↦ none | some f ↦ some (f id) ]))

  unfoldable pub process_get_version :
      (Text → Option ℕ) → Text → Text → Action y codec provider (Option VersionEntry)
  process_get_version time = get_version_with time provider.get_version provider.list_versions

  unfoldable pub process_get_client_mappings :
      Text → Action y codec provider (List ClientUserMapping)
  process_get_client_mappings id = elim provider.get_client_mappings [
    | none ↦ give y codec provider []
    | some f ↦ ask y codec provider (f id)
  ]

  unfoldable pub process_store_client_mappings :
      Text → List ClientUserMapping → Action y codec provider (Unit {0})
  process_store_client_mappings id mappings =
      optionally y codec provider provider.store_client_mappings
        (λ f. ask y codec provider (f id mappings))
