-- ===== src/PositionMap/Entries.antt =====
-- What the map that `buildPositionMap` builds has in it.
use collab_editor.Prelude.{
  ℕ, zero, suc, ◌+◌, ◌≤◌, ◌<◌, ◌≡◌, refl, sym, ap, ◌∙◌, ◌⊎◌, inl, inr, true, false, List, [], ◌∷◌,
  ◌++◌, length, drop, get_or, All, All-append, get_or-append_right, get_or-append_left, get_or-drop,
  append_assoc, append-nil, none, some, Text, index_of, ◌==◌, Bool-cases, Option-cases, arith,
}
use collab_editor.Prelude.Search.{index_of_found}
use collab_editor.PositionMap.{
  TextNode, Positions, get, set, index_from, set_run, visit, build_position_map,
}

abbrev Below : ℕ → Positions → Type 0
Below b m = All (λ e. e.0 < b) m

-- The entries of a run, and of the nodes from a cursor on.
abbrev pub run : ℕ → ℕ → ℕ → Positions
run idx pos zero = []
run idx pos (suc n) = (idx, pos) ∷ run (suc idx) (suc pos) n

abbrev pub entries : Text → List TextNode → ℕ → Positions
entries y [] cursor = []
entries y (node ∷ nodes) cursor = elim (length node.text == 0) [
  | true ↦ entries y nodes cursor
  | false ↦ elim (index_from y node.text cursor) [
    | none ↦ entries y nodes cursor
    | some idx ↦ run idx node.pos (length node.text) ++ entries y nodes (idx + length node.text)
  ]
]

set_new : (k p : ℕ) (m : Positions) → Below k m → set k p m ≡ m ++ (k, p) ∷ []
unfolding set
set_new k p [] h = refl
set_new k p ((j, q) ∷ m) h =
    let other : (j == k) ≡ false = ground (arith, h.0) in
    rw (set, other) (ap ((j, q) ∷◌) (set_new k p m h.1))

Below-wider : (a b : ℕ) (m : Positions) → a ≤ b → Below a m → Below b m
Below-wider a b [] h hs = tt
Below-wider a b (e ∷ m) h hs = (omega (arith, hs.0, h), Below-wider a b m h hs.1)

set_run_new :
    (n idx pos : ℕ) (m : Positions) → Below idx m → set_run idx pos n m ≡ m ++ run idx pos n
unfolding set_run
set_run_new zero idx pos m h = sym (append-nil m)
set_run_new (suc n) idx pos m h =
    let below : Below (suc idx) (m ++ (idx, pos) ∷ []) =
      All-append (λ e. e.0 < suc idx) m ((idx, pos) ∷ [])
        (Below-wider idx (suc idx) m (omega arith) h) (omega arith, tt) in
    rw (set_new idx pos m h) (
      set_run_new n (suc idx) (suc pos) (m ++ (idx, pos) ∷ []) below
      ∙ append_assoc m ((idx, pos) ∷ []) (run (suc idx) (suc pos) n))

run-Below : (n idx pos : ℕ) → Below (idx + n) (run idx pos n)
run-Below zero idx pos = tt
run-Below (suc n) idx pos = (
  omega arith,
  Below-wider (suc idx + n) (idx + suc n) (run (suc idx) (suc pos) n) (omega arith)
      (run-Below n (suc idx) (suc pos)),
)

-- Where a node's text is found: not before the cursor, and the source reads as the node there.
pub index_from_found :
    (y needle : Text) (cursor idx : ℕ)
    → index_from y needle cursor ≡ some idx
    → (cursor ≤ idx) × ((i : ℕ) → i < length needle → get_or y (idx + i) 0 ≡ get_or needle i 0)
unfolding index_from
index_from_found y needle cursor idx h = elim (Option-cases (index_of needle (drop cursor y))) [
  | inl gone ↦ absurd (ground (arith, rw (index_from, gone) at h))
  | inr (i, found) ↦
      let e : cursor + i ≡ idx = ground (arith, rw (index_from, found) at h) in
      let (a, b, (split, size)) = index_of_found needle (drop cursor y) i found in
      (
        omega (arith, e),
        λ j lt.
            ap (λ (k : ℕ). get_or y k 0) (omega (arith, e, size))
            ∙ sym (get_or-drop cursor y (length a + j) 0)
            ∙ ap (λ (s : Text). get_or s (length a + j) 0) split
            ∙ get_or-append_right a (needle ++ b) j 0
            ∙ get_or-append_left needle b j 0 lt,
      )
]

visit-entries :
    (y : Text) (nodes : List TextNode) (cursor : ℕ) (m : Positions)
    → Below cursor m
    → visit y nodes cursor m ≡ m ++ entries y nodes cursor
unfolding visit
visit-entries y [] cursor m h = sym (append-nil m)
visit-entries y (node ∷ nodes) cursor m h = elim (Bool-cases (length node.text == 0)) [
  | inl empty ↦ rw (visit, entries, empty) (visit-entries y nodes cursor m h)
  | inr full ↦ elim (Option-cases (index_from y node.text cursor)) [
    | inl gone ↦ rw (visit, entries, full, gone) (visit-entries y nodes cursor m h)
    | inr (idx, found) ↦
        let n = length node.text in
        let after = (index_from_found y node.text cursor idx found).0 in
        let below = Below-wider cursor idx m after h in
        let all : Below (idx + n) (m ++ run idx node.pos n) =
          All-append (λ e. e.0 < idx + n) m (run idx node.pos n)
            (Below-wider idx (idx + n) m (omega arith) below) (run-Below n idx node.pos) in
        rw (visit, entries, full, found, set_run_new n idx node.pos m below)
          (visit-entries y nodes (idx + n) (m ++ run idx node.pos n) all
            ∙ append_assoc m (run idx node.pos n) (entries y nodes (idx + n)))
  ]
]

pub build_position_map-entries :
    (doc : List TextNode) (y : Text) → build_position_map doc y ≡ entries y doc 0
unfolding build_position_map
build_position_map-entries doc y = visit-entries y doc 0 [] tt

-- A node of the document has, at that position, the code unit that the source has at that offset.
abbrev pub Shows : Text → ℕ → ℕ → List TextNode → Type 0
Shows y k p [] = ⊥
Shows y k p (node ∷ nodes) =
    ((i : ℕ) × ((p ≡ node.pos + i)
        × ((i < length node.text) × (get_or y k 0 ≡ get_or node.text i 0))))
    ⊎ Shows y k p nodes

All-run :
    (P : ℕ × ℕ → Type 0) (n idx pos : ℕ)
    → ((i : ℕ) → i < n → P (idx + i, pos + i))
    → All P (run idx pos n)
All-run P zero idx pos h = tt
All-run P (suc n) idx pos h =
    let e : idx + 0 ≡ idx = omega arith in
    let f : pos + 0 ≡ pos = omega arith in
    (
      rw (e, f) at (h 0 (omega arith)),
      All-run P n (suc idx) (suc pos) (λ i lt.
          let e' : idx + suc i ≡ suc idx + i = omega arith in
          let f' : pos + suc i ≡ suc pos + i = omega arith in
          rw (e', f') at (h (suc i) (omega (arith, lt)))),
    )

All-convert : (P Q : ℕ × ℕ → Type 0) (m : Positions) → ((e : ℕ × ℕ) → P e → Q e) → All P m → All Q m
All-convert P Q [] f h = tt
All-convert P Q (e ∷ m) f h = (f e h.0, All-convert P Q m f h.1)

entries-Shows :
    (y : Text) (nodes : List TextNode) (cursor : ℕ)
    → All (λ e. Shows y e.0 e.1 nodes) (entries y nodes cursor)
entries-Shows y [] cursor = tt
entries-Shows y (node ∷ nodes) cursor =
    let later : (c : ℕ) → All (λ e. Shows y e.0 e.1 (node ∷ nodes)) (entries y nodes c) = λ c.
      All-convert (λ e. Shows y e.0 e.1 nodes) (λ e. Shows y e.0 e.1 (node ∷ nodes))
        (entries y nodes c) (λ e s. inr s) (entries-Shows y nodes c) in
    elim (Bool-cases (length node.text == 0)) [
      | inl empty ↦ rw (entries, empty) (later cursor)
      | inr full ↦ elim (Option-cases (index_from y node.text cursor)) [
        | inl gone ↦ rw (entries, full, gone) (later cursor)
        | inr (idx, found) ↦
            let n = length node.text in
            let reads = (index_from_found y node.text cursor idx found).1 in
            rw (entries, full, found)
              (All-append (λ e. Shows y e.0 e.1 (node ∷ nodes)) (run idx node.pos n)
                (entries y nodes (idx + n))
                (All-run (λ e. Shows y e.0 e.1 (node ∷ nodes)) n idx node.pos
                  (λ i lt. inl (i, (refl, (lt, reads i lt)))))
                (later (idx + n)))
      ]
    ]

pub get-All : (P : ℕ × ℕ → Type 0) (k p : ℕ) (m : Positions) → get k m ≡ some p → All P m → P (k, p)
unfolding get
get-All P k p [] h hs = absurd (ground (arith, h))
get-All P k p ((j, q) ∷ m) h hs = elim (Bool-cases (j == k)) [
  | inl same ↦
      let e : j ≡ k = ground arith in
      let f : q ≡ p = ground (arith, rw (get, same) at h) in rw (e, f) at hs.0
  | inr other ↦ get-All P k p m (rw (get, other) at h) hs.1
]

-- Each mapped offset of the source stands for a position at which some text node of the document
-- has the code unit that the source has there.
pub build_position_map-Shows :
    (doc : List TextNode) (y : Text) (k p : ℕ)
    → get k (build_position_map doc y) ≡ some p
    → Shows y k p doc
build_position_map-Shows doc y k p h =
    get-All (λ e. Shows y e.0 e.1 doc) k p (entries y doc 0)
      (rw (build_position_map-entries doc y) at h) (entries-Shows y doc 0)
