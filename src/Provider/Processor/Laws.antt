-- ===== src/Provider/Processor/Laws.antt =====
-- What loading and storing guarantee.
use collab_editor.Prelude.{
  ℕ, ◌+◌, ◌≤◌, ◌≡◌, refl, ◌∙◌, ◌⊎◌, inl, inr, List, [], ◌∷◌, length, Option, none, some, arith,
  Text, text_eq_refl, if◌then◌else◌, Option-cases,
}
use collab_editor.Prelude.Maps.{lookup, insert, lookup-insert}
use collab_editor.Yjs.{SharedText}
use collab_editor.Provider.Cache.{get, lookup-set, lookup-get}
use collab_editor.Provider.Processor.{
  Result, ok, thrown, ContentResult, UpdatePayload, Provider, Codec, State, process_load, and_then,
  cached, keep, create_doc_with_content, apply_updates, apply_base64_update, refresh,
}

module _ (y : SharedText) (codec : Codec y.Doc) (provider : Provider) where
  -- The cached document, or one with the content that was read.
  abbrev pub doc_or : Option y.Doc → Text → y.Doc
  doc_or none content = create_doc_with_content y codec provider content
  doc_or (some d) content = d

  -- Where the provider reads a content, loading answers with it and leaves a document in the cache:
  -- the one that was there, or else one with that content.
  pub process_load_lem :
      (id : Text) (c : ContentResult) (store : provider.Store) (s : State y codec provider)
      → provider.read_content id s.store ≡ (ok c, store)
      → ((process_load y codec provider id s).0 ≡ ok c)
        × (lookup id (process_load y codec provider id s).1.docs.cache
            ≡ some (doc_or (lookup id s.docs.cache) c.content))
  unfolding process_load and_then cached keep lookup
  process_load_lem id c store s read = elim (Option-cases (lookup id s.docs.cache)) [
    | inl absent ↦
        rw (read, process_load, and_then)
          (rw (absent, cached) (refl, lookup-set y.Doc id _ (get y.Doc id s.docs)))
    | inr (d, found) ↦
        rw (read, process_load, and_then)
          (rw (found, cached) (refl, lookup-get y.Doc id id s.docs ∙ found))
  ]

  Result-cases :
      {A : Type 0} (a : Result A) → ((e : Text) × (a ≡ thrown e)) ⊎ ((v : A) × (a ≡ ok v))
  Result-cases (thrown e) = inl (e, refl)
  Result-cases (ok v) = inr (v, refl)

  -- After the updates were applied, the cached document is the one that they lead to, and no more of
  -- them are counted than there are.
  pub apply_updates_lem :
      (id : Text) (us : List UpdatePayload) (doc d : y.Doc) (applied n : ℕ)
      (s : State y codec provider)
      → lookup id s.docs.cache ≡ some doc
      → (apply_updates y codec provider id us doc applied s).0 ≡ ok (d, n)
      → (lookup id (apply_updates y codec provider id us doc applied s).1.docs.cache ≡ some d)
        × ((applied ≤ n) × (n ≤ applied + length us))
  unfolding apply_updates and_then refresh
  apply_updates_lem id [] doc d applied n s there h = ground (arith, there, h)
  apply_updates_lem id (u ∷ us) doc d applied n s there h =
      elim (Result-cases (apply_base64_update y codec provider doc u.data_base64)) [
        | inl (e, failed) ↦ let nothing = rw (failed, apply_updates) at h in ground (arith, nothing)
        | inr ((d1, counts), done) ↦
            let h1 = rw (done, apply_updates) at h in
            let s1 = record s { docs = record s.docs { cache = insert id d1 s.docs.cache } } in
            let kept = lookup-insert id id d1 s.docs.cache ∙ rw (text_eq_refl id) in
            let next = if counts then applied + 1 else applied in
            let (found, (low, high)) = apply_updates_lem id us d1 d next n s1 kept h1 in
            rw (done, apply_updates) (found, ground (arith, low, high))
      ]
