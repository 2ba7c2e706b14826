-- ===== src/PositionMap/Keys/Loops.antt =====
-- Sorting keys, and what the loops over sorted keys find.
use collab_editor.Prelude.{
  ℕ, ◌≤◌, ◌<◌, ◌≡◌, ◌≢◌, refl, ◌∙◌, Bool, true, false, List, [], ◌∷◌, ◌++◌, reverse, none, some,
  ltb, leb, ◌==◌, if◌then◌else◌, Bool-cases, inl, inr, All, All-append, arith,
}
use mathlib.Core.List.{reverse-cons}
use collab_editor.PositionMap.{insert_key, sort_keys, first_key, last_key}

abbrev pub elem : ℕ → List ℕ → Bool
elem k [] = false
elem k (j ∷ ks) = if j == k then true else elem k ks

abbrev pub Ascending : List ℕ → Type 0
Ascending [] = Unit
Ascending (k ∷ ks) = All (λ j. k ≤ j) ks × Ascending ks

abbrev pub Descending : List ℕ → Type 0
Descending [] = Unit
Descending (k ∷ ks) = All (λ j. j ≤ k) ks × Descending ks

elem-insert_key : (k j : ℕ) (ks : List ℕ) → elem j (insert_key k ks) ≡ elem j (k ∷ ks)
unfolding insert_key
elem-insert_key k j [] = refl
elem-insert_key k j (i ∷ ks) = ground (arith, elem-insert_key k j ks)

pub elem-sort_keys : (j : ℕ) (ks : List ℕ) → elem j (sort_keys ks) ≡ elem j ks
unfolding sort_keys
elem-sort_keys j [] = refl
elem-sort_keys j (k ∷ ks) = ground (arith, elem-insert_key k j (sort_keys ks), elem-sort_keys j ks)

All-insert_key :
    (b k : ℕ) (ks : List ℕ) → b ≤ k → All (λ j. b ≤ j) ks → All (λ j. b ≤ j) (insert_key k ks)
unfolding insert_key
All-insert_key b k [] h hs = (h, tt)
All-insert_key b k (i ∷ ks) h hs = elim (Bool-cases (leb k i)) [
  | inl here ↦ rw (insert_key, here) (h, hs)
  | inr later ↦ rw (insert_key, later) (hs.0, All-insert_key b k ks h hs.1)
]

All-wider : (a b : ℕ) (ks : List ℕ) → a ≤ b → All (λ j. b ≤ j) ks → All (λ j. a ≤ j) ks
All-wider a b [] h hs = tt
All-wider a b (k ∷ ks) h hs = (omega (arith, hs.0, h), All-wider a b ks h hs.1)

insert_key-Ascending : (k : ℕ) (ks : List ℕ) → Ascending ks → Ascending (insert_key k ks)
unfolding insert_key
insert_key-Ascending k [] h = (tt, tt)
insert_key-Ascending k (i ∷ ks) h = elim (Bool-cases (leb k i)) [
  | inl here ↦
      let le : k ≤ i = ground arith in rw (insert_key, here) ((le, All-wider k i ks le h.0), h)
  | inr later ↦
      rw (insert_key, later)
        (All-insert_key i k ks (ground arith) h.0, insert_key-Ascending k ks h.1)
]

pub sort_keys-Ascending : (ks : List ℕ) → Ascending (sort_keys ks)
unfolding sort_keys
sort_keys-Ascending [] = tt
sort_keys-Ascending (k ∷ ks) = insert_key-Ascending k (sort_keys ks) (sort_keys-Ascending ks)

All-elem : (b : ℕ) (ks : List ℕ) (j : ℕ) → All (λ j. b ≤ j) ks → elem j ks ≡ true → b ≤ j
All-elem b [] j hs h = absurd (ground (arith, h))
All-elem b (k ∷ ks) j hs h = elim (Bool-cases (k == j)) [
  | inl same ↦ ground (arith, hs.0)
  | inr other ↦ All-elem b ks j hs.1 (rw other at h)
]

All-elem_up : (b : ℕ) (ks : List ℕ) (j : ℕ) → All (λ j. j ≤ b) ks → elem j ks ≡ true → j ≤ b
All-elem_up b [] j hs h = absurd (ground (arith, h))
All-elem_up b (k ∷ ks) j hs h = elim (Bool-cases (k == j)) [
  | inl same ↦ ground (arith, hs.0)
  | inr other ↦ All-elem_up b ks j hs.1 (rw other at h)
]

-- What the forward loop finds on ascending keys: the least key from `start`, if it is before `end`.
pub first_key_found :
    (start end k : ℕ) (ks : List ℕ)
    → Ascending ks
    → first_key start end ks ≡ some k
    → (start ≤ k)
      × ((k < end) × ((elem k ks ≡ true) × ((j : ℕ) → start ≤ j → elem j ks ≡ true → k ≤ j)))
unfolding first_key
first_key_found start end k [] asc h = absurd (ground (arith, h))
first_key_found start end k (i ∷ ks) asc h = elim (Bool-cases (ltb i start)) [
  | inl below ↦
      let (a, (b, (c, d))) = first_key_found start end k ks asc.1 (rw (first_key, below) at h) in
      (
        a,
        (
          b,
          (
            ground (arith, c),
            λ j from e. elim (Bool-cases (i == j)) [
              | inl same ↦ ground (arith, below, from)
              | inr other ↦ d j from (rw other at e)
            ],
          ),
        ),
      )
  | inr inside ↦ elim (Bool-cases (leb end i)) [
    | inl beyond ↦ absurd (ground (arith, rw (first_key, inside, beyond) at h))
    | inr before ↦
        let e : i ≡ k = ground (arith, rw (first_key, inside, before) at h) in
        (
          ground arith,
          (
            ground arith,
            (
              ground arith,
              λ j from f. elim (Bool-cases (i == j)) [
                | inl same ↦ ground (arith, e)
                | inr other ↦ let le = All-elem i ks j asc.0 (rw other at f) in omega (arith, le, e)
              ],
            ),
          ),
        )
  ]
]

pub first_key-none :
    (start end j : ℕ) (ks : List ℕ)
    → Ascending ks
    → first_key start end ks ≡ none
    → start ≤ j
    → j < end
    → elem j ks ≡ false
unfolding first_key
first_key-none start end j [] asc h from to = refl
first_key-none start end j (i ∷ ks) asc h from to = elim (Bool-cases (ltb i start)) [
  | inl below ↦
      let rest = first_key-none start end j ks asc.1 (rw (first_key, below) at h) from to in
      ground (arith, rest, below)
  | inr inside ↦ elim (Bool-cases (leb end i)) [
    | inl beyond ↦ elim (Bool-cases (elem j (i ∷ ks))) [
      | inr out ↦ out
      | inl e ↦
          let le = All-elem i (i ∷ ks) j (omega arith, asc.0) e in ground (arith, le, beyond, to)
    ]
    | inr before ↦ absurd (ground (arith, rw (first_key, inside, before) at h))
  ]
]

-- What the backward loop finds on descending keys: the greatest key up to `last`.
pub last_key_found :
    (from_key last k : ℕ) (ks : List ℕ)
    → Descending ks
    → last_key from_key last ks ≡ some k
    → (from_key ≤ k)
      × ((k ≤ last) × ((elem k ks ≡ true) × ((j : ℕ) → j ≤ last → elem j ks ≡ true → j ≤ k)))
unfolding last_key
last_key_found from_key last k [] desc h = absurd (ground (arith, h))
last_key_found from_key last k (i ∷ ks) desc h = elim (Bool-cases (ltb last i)) [
  | inl above ↦
      let (a, (b, (c, d))) = last_key_found from_key last k ks desc.1 (rw (last_key, above) at h) in
      (
        a,
        (
          b,
          (
            ground (arith, c),
            λ j to e. elim (Bool-cases (i == j)) [
              | inl same ↦ ground (arith, above, to)
              | inr other ↦ d j to (rw other at e)
            ],
          ),
        ),
      )
  | inr inside ↦ elim (Bool-cases (ltb i from_key)) [
    | inl beyond ↦ absurd (ground (arith, rw (last_key, inside, beyond) at h))
    | inr behind ↦
        let e : i ≡ k = ground (arith, rw (last_key, inside, behind) at h) in
        (
          ground arith,
          (
            ground arith,
            (
              ground arith,
              λ j to f. elim (Bool-cases (i == j)) [
                | inl same ↦ ground (arith, e)
                | inr other ↦
                    let le = All-elem_up i ks j desc.0 (rw other at f) in omega (arith, le, e)
              ],
            ),
          ),
        )
  ]
]

append-Descending :
    (k : ℕ) (ks : List ℕ) → Descending ks → All (λ j. k ≤ j) ks → Descending (ks ++ k ∷ [])
append-Descending k [] desc h = (tt, tt)
append-Descending k (i ∷ ks) desc h =
    (All-append (λ j. j ≤ i) ks (k ∷ []) desc.0 (h.0, tt), append-Descending k ks desc.1 h.1)

All-reverse : (k : ℕ) (ks : List ℕ) → All (λ j. k ≤ j) ks → All (λ j. k ≤ j) (reverse ks)
All-reverse k [] h = tt
All-reverse k (i ∷ ks) h =
    rw (reverse-cons i ks)
      (All-append (λ j. k ≤ j) (reverse ks) (i ∷ []) (All-reverse k ks h.1) (h.0, tt))

pub reverse-Descending : (ks : List ℕ) → Ascending ks → Descending (reverse ks)
reverse-Descending [] asc = tt
reverse-Descending (k ∷ ks) asc =
    rw (reverse-cons k ks)
      (append-Descending k (reverse ks) (reverse-Descending ks asc.1) (All-reverse k ks asc.0))

elem-append : (j k : ℕ) (ks : List ℕ) → elem j (ks ++ k ∷ []) ≡ elem j (k ∷ ks)
elem-append j k [] = refl
elem-append j k (i ∷ ks) = ground (arith, elem-append j k ks)

pub elem-reverse : (j : ℕ) (ks : List ℕ) → elem j (reverse ks) ≡ elem j ks
elem-reverse j [] = refl
elem-reverse j (k ∷ ks) =
    rw (reverse-cons k ks) (elem-append j k (reverse ks) ∙ ground (arith, elem-reverse j ks))

-- The backward loop finds a key where there is one.
pub last_key_some :
    (from_key last j : ℕ) (ks : List ℕ)
    → Descending ks
    → from_key ≤ j
    → j ≤ last
    → elem j ks ≡ true
    → last_key from_key last ks ≢ none
unfolding last_key
last_key_some from_key last j [] desc a b e h = ground (arith, e)
last_key_some from_key last j (i ∷ ks) desc a b e h = elim (Bool-cases (ltb last i)) [
  | inl above ↦
      last_key_some from_key last j ks desc.1 a b (ground (arith, e, above))
        (rw (last_key, above) at h)
  | inr inside ↦ elim (Bool-cases (ltb i from_key)) [
    | inl beyond ↦
        let le = All-elem_up i (i ∷ ks) j (omega arith, desc.0) e in ground (arith, le, beyond)
    | inr behind ↦ ground (arith, rw (last_key, inside, behind) at h)
  ]
]
