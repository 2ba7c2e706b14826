-- ===== src/Provider/Versions/Laws.antt =====
-- The blame of a version is over its own content.
use collab_editor.Prelude.{
  ℕ, ◌<◌, ◌≡◌, ◌≢◌, refl, ap, ap₂, ◌∙◌, ◌⊎◌, inl, inr, true, false, List, [], ◌∷◌, ◌++◌, length,
  Option, some, Text, leb, Bool-cases, Option-cases, arith, All,
}
use collab_editor.Yjs.{SharedText}
use collab_editor.Blame.{BlameSegment}
use collab_editor.Blame.Tiling.{Tiles, NoneEmpty}
use collab_editor.Blame.Versions.{VersionEntry, or_else, last_of, compute_blame_from_versions}
use collab_editor.Blame.Versions.Segments.{compute_blame_from_versions_lem}
use collab_editor.Provider.Types.{VersionListEntry}
use collab_editor.Provider.Processor.{Result, ok, Provider, Codec, State, Action, and_then, ask}
use collab_editor.Provider.Versions.{
  not_after, up_to, insert_version, sort_versions, lacks_blame, with_blame, push_found, fetch_all,
  blame_version, version_found, get_version_with, process_get_version,
}

abbrev EndsWith {ℓ} : {A : Type ℓ} → A → List A → Type ℓ
EndsWith {A = A} v xs = (ys : List A) × (xs ≡ ys ++ v ∷ [])

EndsWith-cons {ℓ} : {A : Type ℓ} (x v : A) (xs : List A) → EndsWith v xs → EndsWith v (x ∷ xs)
EndsWith-cons x v xs (ys, e) = (x ∷ ys, ap (λ zs. x ∷ zs) e)

-- Earlier than a time, and at another time.
module _ (time : Text → Option ℕ) (t : ℕ) where
  abbrev IsEarlier : VersionListEntry → Type 0
  IsEarlier u = (s : ℕ) × (time u.created_at ≡ some s) × (s < t)

  abbrev pub IsOther : VersionListEntry → Type 0
  IsOther u = time u.created_at ≢ some t

  insert_version-All :
      (u : VersionListEntry) (versions : List VersionListEntry)
      → IsEarlier u
      → All IsEarlier versions
      → All IsEarlier (insert_version time u versions)
  unfolding insert_version
  insert_version-All u [] h hs = (h, tt)
  insert_version-All u (w ∷ versions) h (hw, hs) =
      elim (Bool-cases (not_after time (time u.created_at) (time w.created_at))) [
        | inl e ↦ rw e (h, (hw, hs))
        | inr e ↦ rw e (hw, insert_version-All u versions h hs)
      ]

  -- An entry goes behind all that are earlier.
  insert_version-last :
      (v : VersionListEntry) (versions : List VersionListEntry)
      → time v.created_at ≡ some t
      → All IsEarlier versions
      → EndsWith v (insert_version time v versions)
  unfolding insert_version
  insert_version-last v [] timed hs = ([], refl)
  insert_version-last v (w ∷ versions) timed ((s, e, less), hs) =
      let later : leb t s ≡ false = ground (arith, less) in
      rw (timed, e, later) (EndsWith-cons w v _ (insert_version-last v versions timed hs))

  -- An earlier entry does not go behind the last one.
  insert_version-before :
      (u v : VersionListEntry) (versions : List VersionListEntry)
      → time v.created_at ≡ some t
      → IsEarlier u
      → EndsWith v (insert_version time u (versions ++ v ∷ []))
  unfolding insert_version
  insert_version-before u v [] timed (s, e, less) =
      let earlier : leb s t ≡ true = ground (arith, less) in rw (timed, e, earlier) (u ∷ [], refl)
  insert_version-before u v (w ∷ versions) timed h =
      elim (Bool-cases (not_after time (time u.created_at) (time w.created_at))) [
        | inl e ↦ rw e (u ∷ w ∷ versions, refl)
        | inr e ↦ rw e (EndsWith-cons w v _ (insert_version-before u v versions timed h))
      ]

  not_after-cases :
      (u : VersionListEntry)
      → IsOther u
      → (not_after time (time u.created_at) (some t) ≡ false)
        ⊎ ((not_after time (time u.created_at) (some t) ≡ true) × IsEarlier u)
  not_after-cases u other = elim (Option-cases (time u.created_at)) [
    | inl e ↦ inl (rw e refl)
    | inr (s, e) ↦ elim (Bool-cases (leb s t)) [
      | inr late ↦ inl (rw e late)
      | inl below ↦ inr (rw e below, (s, e, ground (arith, below, other, e)))
    ]
  ]

  sort_versions-All :
      (versions : List VersionListEntry)
      → All IsOther versions
      → All IsEarlier (sort_versions time (up_to time (some t) versions))
  unfolding up_to sort_versions
  sort_versions-All [] hs = tt
  sort_versions-All (u ∷ versions) (h, hs) = elim (not_after-cases u h) [
    | inl e ↦ rw e (sort_versions-All versions hs)
    | inr (e, earlier) ↦ rw e (insert_version-All u _ earlier (sort_versions-All versions hs))
  ]

  -- The chain of a version ends with it, if no other version has its time.
  sort_versions-last :
      (before after : List VersionListEntry) (v : VersionListEntry)
      → time v.created_at ≡ some t
      → All IsOther before
      → All IsOther after
      → EndsWith v (sort_versions time (up_to time (some t) (before ++ v ∷ after)))
  unfolding up_to sort_versions
  sort_versions-last [] after v timed hb ha =
      let now : not_after time (time v.created_at) (some t) ≡ true = rw timed (ground arith) in
      rw now (insert_version-last v _ timed (sort_versions-All after ha))
  sort_versions-last (u ∷ before) after v timed (h, hb) ha =
      let (ys, chain) = sort_versions-last before after v timed hb ha in
      elim (not_after-cases u h) [
        | inl e ↦ rw e (ys, chain)
        | inr (e, earlier) ↦ rw (e, chain) (insert_version-before u v ys timed earlier)
      ]

last_of-append :
    (z : VersionEntry) (zs : List VersionEntry) (e : VersionEntry) → last_of z (zs ++ e ∷ []) ≡ e
unfolding last_of
last_of-append z [] e = refl
last_of-append z (w ∷ zs) e = last_of-append w zs e

abbrev pub IsBlameOf : VersionEntry → List BlameSegment → Type 0
IsBlameOf e segments = Tiles 0 segments (length (or_else e.content [])) × NoneEmpty segments

with_blame-last :
    (entry e : VersionEntry) (zs : List VersionEntry)
    → (segments : List BlameSegment) × (with_blame entry (zs ++ e ∷ [])
        ≡ record entry { blame = some segments })
      × IsBlameOf e segments
unfolding with_blame last_of
with_blame-last entry e [] =
    let (tiles, authors, nonempty) = compute_blame_from_versions_lem e [] in
    (compute_blame_from_versions (e ∷ []), refl, (tiles, nonempty))
with_blame-last entry e (z ∷ zs) =
    let (tiles, authors, nonempty) = compute_blame_from_versions_lem z (zs ++ e ∷ []) in
    (
      compute_blame_from_versions (z ∷ zs ++ e ∷ []),
      refl,
      (rw (last_of-append z zs e) at tiles, nonempty),
    )

unfoldable collect : (Text → Option VersionEntry) → List VersionListEntry → List VersionEntry
collect full [] = []
collect full (v ∷ versions) = push_found (full v.id) (collect full versions)

collect-last :
    (full : Text → Option VersionEntry) (versions : List VersionListEntry) (v : VersionListEntry)
    (e : VersionEntry)
    → full v.id ≡ some e
    → EndsWith e (collect full (versions ++ v ∷ []))
unfolding collect
collect-last full [] v e h = rw h ([], refl)
collect-last full (u ∷ versions) v e h =
    let (zs, chain) = collect-last full versions v e h in
    elim (Option-cases (full u.id)) [
      | inl missing ↦ rw missing (zs, chain)
      | inr (w, found) ↦ rw found (EndsWith-cons w e _ (zs, chain))
    ]

module _ (y : SharedText) (codec : Codec y.Doc) (provider : Provider) where
  open provider use {Store}

  and_then-ok :
      {A B : Type 0} (m : Action y codec provider A) (f : A → Action y codec provider B) (a : A)
      (s r : State y codec provider)
      → m s ≡ (ok a, r)
      → and_then y codec provider m f s ≡ f a r
  unfolding and_then
  and_then-ok m f a s r e = rw (and_then, e) (ap (λ q. f a q.1) e)

  -- A method of the provider that leaves its state as it is.
  ask-ok :
      {A : Type 0} (f : Store → Result A × Store) (a : A) (s : State y codec provider)
      → f s.store ≡ (ok a, s.store)
      → ask y codec provider f s ≡ (ok a, s)
  ask-ok f a s e = rw e refl

  fetch_all_lem :
      (get : Text → Store → Result (Option VersionEntry) × Store)
      (full : Text → Option VersionEntry) (versions : List VersionListEntry)
      (s : State y codec provider)
      → ((version_id : Text) (store : Store) → get version_id store ≡ (ok (full version_id), store))
      → fetch_all y codec provider get versions s ≡ (ok (collect full versions), s)
  unfolding fetch_all collect
  fetch_all_lem get full [] s archived = refl
  fetch_all_lem get full (v ∷ versions) s archived =
      and_then-ok _ _ (full v.id) s s (ask-ok (get v.id) (full v.id) s (archived v.id s.store))
      ∙ and_then-ok _ _ (collect full versions) s s (fetch_all_lem get full versions s archived)

  get_version_with-IsBlameOf :
      (time : Text → Option ℕ) (t : ℕ)
      (get : Text → Text → Store → Result (Option VersionEntry) × Store)
      (list : Text → Store → Result (List VersionListEntry) × Store)
      (full : Text → Option VersionEntry) (before after : List VersionListEntry)
      (v : VersionListEntry) (entry : VersionEntry) (id : Text) (s : State y codec provider)
      → ((version_id : Text) (store : Store)
          → get id version_id store ≡ (ok (full version_id), store))
      → ((store : Store) → list id store ≡ (ok (before ++ v ∷ after), store))
      → full v.id ≡ some entry
      → entry.created_at ≡ v.created_at
      → lacks_blame entry.blame ≡ true
      → time v.created_at ≡ some t
      → All (IsOther time t) before
      → All (IsOther time t) after
      → (segments : List BlameSegment) × (get_version_with y codec provider time
            (some get)
            (some list)
            id
            v.id
            s
          ≡ (ok (some (record entry { blame = some segments })), s))
        × IsBlameOf entry segments
  unfolding get_version_with version_found blame_version
  get_version_with-IsBlameOf time t get list full before after v entry id s archived listed found
        dated lacks timed hb ha =
      let (ys, chain) = sort_versions-last time t before after v timed hb ha in
      let (zs, fetched) = collect-last full ys v entry found in
      let (segments, blamed, holds) = with_blame-last entry entry zs in
      let all : fetch_all y codec provider (get id) (ys ++ v ∷ []) s ≡ (ok (zs ++ entry ∷ []), s) =
        fetch_all_lem (get id) full (ys ++ v ∷ []) s archived ∙ ap (λ vs. (ok vs, s)) fetched in
      let listing = before ++ v ∷ after in
      let in_order : sort_versions time (up_to time (time entry.created_at) listing)
          ≡ ys ++ v ∷ [] =
        ap (λ limit. sort_versions time (up_to time limit listing)) (ap time dated ∙ timed)
        ∙ chain in
      let answer : version_found y codec provider time (get id) (some (list id)) (some entry) s
          ≡ (ok (some (with_blame entry (zs ++ entry ∷ []))), s) =
        rw lacks (
          and_then-ok _ _ listing s s (ask-ok (list id) listing s (listed s.store))
          ∙ and_then-ok _ _ (zs ++ entry ∷ []) s s
              (ap (λ vs. fetch_all y codec provider (get id) vs s) in_order ∙ all)) in
      (
        segments,
        and_then-ok _ _ (some entry) s s (
              ask-ok (get id v.id) (some entry) s
                (archived v.id s.store ∙ ap (λ found. (ok found, s.store)) found))
            ∙ answer
            ∙ ap (λ e. (ok (some e), s)) blamed,
        holds,
      )

  -- Where the provider has an archive of versions, from which it lists and returns them, and a version
  -- without blame is listed timed a time of its own, then a request for it is answered with the version
  -- and a blame that tiles its content with segments that are not empty.
  pub process_get_version-IsBlameOf :
      (time : Text → Option ℕ) (t : ℕ)
      (get : Text → Text → Store → Result (Option VersionEntry) × Store)
      (list : Text → Store → Result (List VersionListEntry) × Store)
      (full : Text → Option VersionEntry) (before after : List VersionListEntry)
      (v : VersionListEntry) (entry : VersionEntry) (id : Text) (s : State y codec provider)
      → provider.get_version ≡ some get
      → provider.list_versions ≡ some list
      → ((version_id : Text) (store : Store)
          → get id version_id store ≡ (ok (full version_id), store))
      → ((store : Store) → list id store ≡ (ok (before ++ v ∷ after), store))
      → full v.id ≡ some entry
      → entry.created_at ≡ v.created_at
      → lacks_blame entry.blame ≡ true
      → time v.created_at ≡ some t
      → All (IsOther time t) before
      → All (IsOther time t) after
      → (segments : List BlameSegment) × (process_get_version y codec provider time id v.id s
          ≡ (ok (some (record entry { blame = some segments })), s))
        × IsBlameOf entry segments
  unfolding process_get_version
  process_get_version-IsBlameOf time t get list full before after v entry id s has_get has_list
        archived listed found dated lacks timed hb ha =
      let (segments, answer, holds) =
        get_version_with-IsBlameOf time t get list full before after v entry id s archived listed
          found dated lacks timed hb ha in
      (
        segments,
        ap₂ (λ g l. get_version_with y codec provider time g l id v.id s) has_get has_list ∙ answer,
        holds,
      )
