-- ===== src/Tests/ProviderTests.antt =====
-- A provider that keeps one document.
use collab_editor.Prelude.{
  ℕ, List, length, Option, ◌∷◌, ◌≡◌, refl, [], some, none, arith, Text, text, text_eq,
}
use collab_editor.Prelude.Maps.{lookup}
use collab_editor.Provider.Cache.Recency.{lookup-set-get}
use collab_editor.Provider.Cache.{DocCache, get, new_doc_cache, set}
use collab_editor.Blame.{BlameSegment}
use collab_editor.Blame.Versions.{VersionEntry, manual}
use collab_editor.Provider.Processor.{Provider, Codec, State, Result, ok, ContentResult}
use collab_editor.Provider.Types.{VersionListEntry}
use collab_editor.Provider.Versions.{process_get_version}
use collab_editor.Provider.Versions.Laws.{IsBlameOf, process_get_version-IsBlameOf}
use collab_editor.Provider.Routes.{post_load, registered, answer, handle}
use collab_editor.Provider.Routes.Laws.{lacks_query, handle_lem}
use collab_editor.Tests.Models.{plain_text}

abbrev note_content : ContentResult
note_content = record { content = text "hello"; mime_type = text "text/plain" }

abbrev provider : Provider
provider = record {
  Store = Text;
  read_content = λ id store. (ok note_content, store);
  write_content = none;
  store_raw_updates = none;
  on_health = none;
  list_documents = none;
  list_versions = none;
  create_version = none;
  get_version = none;
  get_client_mappings = none;
  store_client_mappings = none;
}

abbrev codec : Codec Text
codec = record {
  empty_doc = [];
  from_base64 = λ s. s;
  read_var_uint = λ bytes. ok (0, bytes);
  read_var_uint8_array = λ bytes. ok bytes;
  apply_update = λ u doc. ok u;
}

abbrev state : State plain_text codec provider
state = record { docs = new_doc_cache Text 2; store = text "db" }

abbrev never : Text → Option ℕ
never date = none

handle_lem_example :
    ((answer plain_text codec provider never (post_load none) state).0.status ≡ 400)
    × ((answer plain_text codec provider never (post_load none) state).1 ≡ state)
unfolding handle registered lacks_query
handle_lem_example =
    handle_lem plain_text codec provider never (post_load none)
      (answer plain_text codec provider never (post_load none)) state refl

-- An archive of two versions, the later one first.
abbrev summary : Text → VersionListEntry
summary id = record {
  id = id;
  created_at = id;
  type = manual;
  label = none;
  creator = some (text "ann");
  mime_type = none;
}

abbrev full_version_of : Text → VersionEntry
full_version_of id = record {
  id = id;
  created_at = id;
  type = manual;
  label = none;
  creator = some (text "ann");
  content = some (text "one line");
  mime_type = none;
  blame = none;
}

abbrev versions_of : Text → Text → Result (List VersionListEntry) × Text
versions_of id store = (ok (summary (text "bb") ∷ summary (text "a") ∷ []), store)

abbrev version_of : Text → Text → Text → Result (Option VersionEntry) × Text
version_of id version_id store = (ok (some (full_version_of version_id)), store)

abbrev archive : Provider
archive = record provider {
  Store = Text;
  list_versions = some versions_of;
  get_version = some version_of;
}

-- A date is as late as its text is long.
abbrev by_length : Text → Option ℕ
by_length date = some (length date)

abbrev archive_state : State plain_text codec archive
archive_state = record { docs = new_doc_cache Text 2; store = text "db" }

process_get_version-IsBlameOf_example :
    (segments : List BlameSegment) × (process_get_version plain_text codec archive by_length
        (text "doc")
        (text "bb")
        archive_state
      ≡ (ok (some (record (full_version_of (text "bb")) { blame = some segments })), archive_state))
    × IsBlameOf (full_version_of (text "bb")) segments
process_get_version-IsBlameOf_example =
    process_get_version-IsBlameOf plain_text codec archive by_length 2 version_of versions_of
      (λ id. some (full_version_of id)) [] (summary (text "a") ∷ []) (summary (text "bb"))
      (full_version_of (text "bb")) (text "doc") archive_state refl refl (λ id store. refl)
      (λ store. refl) refl refl refl refl tt ((λ e. ground (arith, e)), tt)

abbrev two_docs : DocCache Text
two_docs = record {
  cache = (text "a", text "x") ∷ (text "b", text "y") ∷ [];
  max_size = 2;
  destroyed = [];
}

lookup-set-get_example :
    lookup (text "a") (set Text (text "c") (text "z") (get Text (text "a") two_docs)).cache
    ≡ some (text "x")
unfolding lookup text_eq
lookup-set-get_example =
    lookup-set-get Text (text "a") (text "c") (text "x") (text "z") two_docs refl refl (omega arith)
