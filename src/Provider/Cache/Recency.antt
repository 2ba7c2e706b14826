-- ===== src/Provider/Cache/Recency.antt =====
-- The document that is evicted is not the one that was used last.
use collab_editor.Prelude.{
  ◌≤◌, ◌≡◌, ◌∙◌, inl, inr, false, List, [], ◌∷◌, length, none, some, arith, leb, Text, text_eq,
  text_eq_refl, Bool-cases, Option-cases,
}
use collab_editor.Prelude.Maps.{lookup, insert, erase, has, lookup-insert, lookup-erase}
use collab_editor.Provider.Cache.{DocCache, get, evict, set, moved, lookup-get}

module _ (D : Type 0) where
  lookup-moved-other :
      (id k : Text) (doc : D) (m : List (Text × D))
      → text_eq k id ≡ false
      → lookup id (moved D k doc m) ≡ lookup id m
  lookup-moved-other id k doc m other =
      ground (arith, lookup-insert k id doc (erase k m), lookup-erase k id m, other)

  -- The first entry of a list without the key stays the first when the key is written.
  lookup-evict-moved :
      (id : Text) (d : D) (m : List (Text × D)) (c : DocCache D)
      → c.cache ≡ insert id d m
      → lookup id m ≡ none
      → 2 ≤ length (insert id d m)
      → lookup id (evict D c).cache ≡ some d
  unfolding evict insert lookup
  lookup-evict-moved id d [] c h absent long = let few : 2 ≤ 1 = long in ground (arith, few)
  lookup-evict-moved id d ((j, w) ∷ rest) c h absent long = elim (Bool-cases (text_eq j id)) [
    | inl same ↦ let nothing = rw (same, lookup) at absent in ground (arith, nothing)
    | inr other ↦
        let front : c.cache ≡ (j, w) ∷ insert id d rest = h ∙ rw (other, insert) in
        let after = lookup-erase j id ((j, w) ∷ insert id d rest) in
        let there = lookup-insert id id d rest in
        rw (front, evict) (after ∙ rw other (there ∙ rw (text_eq_refl id)))
  ]

  lookup-evict-get :
      (id : Text) (d : D) (c : DocCache D)
      → lookup id c.cache ≡ some d
      → 2 ≤ length (get D id c).cache
      → lookup id (evict D (get D id c)).cache ≡ some d
  unfolding get
  lookup-evict-get id d c found long =
      let same : (get D id c).cache ≡ moved D id d c.cache = rw (found, get) in
      let gone : lookup id (erase id c.cache) ≡ none =
        lookup-erase id id c.cache ∙ rw (text_eq_refl id) in
      let size = rw same at long in
      lookup-evict-moved id d (erase id c.cache) (get D id c) same gone size

  max_size-get : (id : Text) (c : DocCache D) → (get D id c).max_size ≡ c.max_size
  unfolding get
  max_size-get id c = elim (Option-cases (lookup id c.cache)) [
    | inl absent ↦ rw (absent, get)
    | inr (doc, found) ↦ rw (found, get)
  ]

  -- The document that was used last is still cached after another one is set, in a cache with room
  -- for two at least.
  pub lookup-set-get :
      (id k : Text) (d doc : D) (c : DocCache D)
      → lookup id c.cache ≡ some d
      → text_eq k id ≡ false
      → 2 ≤ c.max_size
      → lookup id (set D k doc (get D id c)).cache ≡ some d
  unfolding set
  lookup-set-get id k d doc c found other room =
      let e = get D id c in
      let kept : lookup id e.cache ≡ some d = lookup-get D id id c ∙ found in
      elim (Bool-cases (has k e.cache)) [
        | inl there ↦ rw (there, set) (lookup-moved-other id k doc e.cache other ∙ kept)
        | inr absent ↦ elim (Bool-cases (leb e.max_size (length e.cache))) [
          | inl full ↦
              rw (absent, set)
                (rw full (
                  lookup-insert k id doc (evict D e).cache
                  ∙ rw other (
                      lookup-evict-get id d c found
                        (ground (arith, full, room, max_size-get id c)))))
          | inr fits ↦ rw (absent, set) (rw fits (lookup-insert k id doc e.cache ∙ rw other kept))
        ]
      ]
