-- ===== src/Provider/Cache.antt =====
-- `DocCache` of engine.ts: the documents in order of their last use, up to a maximum.
pub mod Recency
use collab_editor.Prelude.{
  ℕ, ◌+◌, ◌≤◌, ◌<◌, ◌≡◌, ◌∙◌, inl, inr, true, List, [], ◌∷◌, ◌++◌, length, none, some, arith, leb,
  Text, text_eq_iff, text_eq_refl, if◌then◌else◌, Bool-cases, Option-cases, List-cases, map,
}
use collab_editor.Prelude.Maps.{lookup, insert, erase, has, lookup-insert, lookup-erase, has-lookup}

module _ (D : Type 0) where
  -- The cache, and the documents that were destroyed.
  pub record DocCache : Type 0 where
    pub cache : List (Text × D)
    pub max_size : ℕ
    pub destroyed : List D

  abbrev pub new_doc_cache : ℕ → DocCache
  new_doc_cache max_size = record { cache = []; max_size = max_size; destroyed = [] }

  abbrev pub size : DocCache → ℕ
  size c = length c.cache

  -- `_cache.delete(id); _cache.set(id, doc)`: the entry moves to the end.
  abbrev pub moved : Text → D → List (Text × D) → List (Text × D)
  moved id doc m = insert id doc (erase id m)

  -- The cache after `get`; the document is the one that `lookup` finds before.
  unfoldable pub get : Text → DocCache → DocCache
  get id c = elim (lookup id c.cache) [
    | none ↦ c
    | some doc ↦ record c { cache = moved id doc c.cache }
  ]

  -- The document is destroyed that has not been used for longest.
  unfoldable pub evict : DocCache → DocCache
  evict c = elim c.cache [
    | [] ↦ c
    | entry ∷ rest ↦ record c {
      cache = erase entry.0 (entry ∷ rest);
      destroyed = c.destroyed ++ entry.1 ∷ [];
    }
  ]

  unfoldable pub set : Text → D → DocCache → DocCache
  set id doc c =
      if has id c.cache
      then record c { cache = moved id doc c.cache }
      else (let c1 = if leb c.max_size (length c.cache) then evict c else c in
          record c1 { cache = insert id doc c1.cache })

  unfoldable pub delete : Text → DocCache → DocCache
  delete id c = elim (lookup id c.cache) [
    | none ↦ record c { cache = erase id c.cache }
    | some doc ↦ record c { cache = erase id c.cache; destroyed = c.destroyed ++ doc ∷ [] }
  ]

  unfoldable pub clear : DocCache → DocCache
  clear c = record c { cache = []; destroyed = c.destroyed ++ map (λ entry. entry.1) c.cache }

  pub length-insert-le :
      (k : Text) (d : D) (m : List (Text × D)) → length (insert k d m) ≤ length m + 1
  unfolding insert
  length-insert-le k d [] = omega arith
  length-insert-le k d ((j, w) ∷ m) = ground (arith, length-insert-le k d m)

  length-erase-le : (k : Text) (m : List (Text × D)) → length (erase k m) ≤ length m
  unfolding erase
  length-erase-le k [] = omega arith
  length-erase-le k ((j, w) ∷ m) = ground (arith, length-erase-le k m)

  length-erase-lt :
      (k : Text) (m : List (Text × D)) → has k m ≡ true → length (erase k m) < length m
  unfolding erase has
  length-erase-lt k [] h = ground (arith, h)
  length-erase-lt k ((j, w) ∷ m) h = ground (arith, h, length-erase-le k m, length-erase-lt k m)

  has_of_lookup : (k : Text) (d : D) (m : List (Text × D)) → lookup k m ≡ some d → has k m ≡ true
  has_of_lookup k d m h = has-lookup k m ∙ rw h

  size-moved-le :
      (k : Text) (d : D) (m : List (Text × D)) → has k m ≡ true → length (moved k d m) ≤ length m
  size-moved-le k d m h = omega (arith, length-insert-le k d (erase k m), length-erase-lt k m h)

  abbrev pub IsBounded : DocCache → Type 0
  IsBounded c = (length c.cache ≤ c.max_size) × (1 ≤ c.max_size)

  pub get-IsBounded : (id : Text) (c : DocCache) → IsBounded c → IsBounded (get id c)
  unfolding get
  get-IsBounded id c h = elim (Option-cases (lookup id c.cache)) [
    | inl absent ↦ rw (absent, get, IsBounded) h
    | inr (doc, found) ↦
        rw (found, get, IsBounded)
          (omega (arith, size-moved-le id doc c.cache (has_of_lookup id doc c.cache found)))
  ]

  size-evict : (c : DocCache) → 1 ≤ length c.cache → length (evict c).cache < length c.cache
  unfolding evict has
  size-evict c h = elim (List-cases c.cache) [
    | inl empty ↦ ground (arith, h, empty)
    | inr ((j, w), rest, full) ↦
        let front : has j ((j, w) ∷ rest) ≡ true = rw (text_eq_refl j, has) in
        rw (full, evict) (length-erase-lt j ((j, w) ∷ rest) front)
  ]

  max_size-evict : (c : DocCache) → (evict c).max_size ≡ c.max_size
  unfolding evict
  max_size-evict c = elim (List-cases c.cache) [
    | inl empty ↦ rw (empty, evict)
    | inr (entry, rest, full) ↦ rw (full, evict)
  ]

  -- Setting a document keeps a cache with room for one at least within its maximum.
  pub set-IsBounded : (id : Text) (doc : D) (c : DocCache) → IsBounded c → IsBounded (set id doc c)
  unfolding set
  set-IsBounded id doc c h = elim (Bool-cases (has id c.cache)) [
    | inl there ↦ rw (there, set, IsBounded) (omega (arith, h, size-moved-le id doc c.cache there))
    | inr absent ↦ elim (Bool-cases (leb c.max_size (length c.cache))) [
      | inl full ↦
          let smaller = size-evict c (ground (arith, h, full)) in
          rw (absent, set, IsBounded)
            (rw (full, IsBounded)
              (rw (max_size-evict c)
                (omega (arith, smaller, length-insert-le id doc (evict c).cache))))
      | inr room ↦
          rw (absent, set, IsBounded)
            (rw (room, IsBounded) (ground (arith, h, room, length-insert-le id doc c.cache)))
    ]
  ]

  -- A document that was set is the one that is found.
  pub lookup-set : (id : Text) (doc : D) (c : DocCache) → lookup id (set id doc c).cache ≡ some doc
  unfolding set
  lookup-set id doc c = elim (Bool-cases (has id c.cache)) [
    | inl there ↦
        rw (there, set) (lookup-insert id id doc (erase id c.cache) ∙ rw (text_eq_refl id))
    | inr absent ↦ rw (absent, set) (lookup-insert id id doc _ ∙ rw (text_eq_refl id))
  ]

  -- A use of a document changes none of the documents.
  pub lookup-get : (id k : Text) (c : DocCache) → lookup k (get id c).cache ≡ lookup k c.cache
  unfolding get
  lookup-get id k c = elim (Option-cases (lookup id c.cache)) [
    | inl absent ↦ rw (absent, get)
    | inr (doc, found) ↦
        rw (found, get)
          (ground (
            arith,
            lookup-insert id k doc (erase id c.cache),
            lookup-erase id k c.cache,
            text_eq_iff id k,
            found,
          ))
  ]
