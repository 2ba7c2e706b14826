-- ===== src/PositionMap/Order.antt =====
-- The order of the map.
use collab_editor.Prelude.{
  ℕ, zero, suc, ◌+◌, ◌≤◌, ◌<◌, ◌≡◌, inl, inr, false, List, [], ◌∷◌, ◌++◌, length, some, Text, ◌==◌,
  Bool-cases, Option-cases, arith,
}
use collab_editor.PositionMap.{TextNode, Positions, get, index_from, build_position_map}
use collab_editor.PositionMap.Entries.{run, entries, build_position_map-entries, index_from_found}

-- The text nodes lie one behind the other, as they do in a ProseMirror document.
abbrev pub IsOrdered : ℕ → List TextNode → Type 0
IsOrdered b [] = Unit
IsOrdered b (node ∷ nodes) = (b ≤ node.pos) × IsOrdered (node.pos + length node.text) nodes

-- Offsets and positions rise together, from a least offset and a least position.
abbrev pub Rises : ℕ → ℕ → Positions → Type 0
Rises a b [] = Unit
Rises a b ((k, p) ∷ m) = (a ≤ k) × ((b ≤ p) × Rises (suc k) (suc p) m)

Rises-wider : (a b c d : ℕ) (m : Positions) → a ≤ c → b ≤ d → Rises c d m → Rises a b m
Rises-wider a b c d [] h k r = tt
Rises-wider a b c d ((i, p) ∷ m) h k r = (omega (arith, r.0, h), (omega (arith, r.1.0, k), r.1.1))

run-Rises :
    (n a b idx pos : ℕ) (m : Positions)
    → a ≤ idx
    → b ≤ pos
    → Rises (idx + n) (pos + n) m
    → Rises a b (run idx pos n ++ m)
run-Rises zero a b idx pos m h k r =
    Rises-wider a b (idx + 0) (pos + 0) m (omega (arith, h)) (omega (arith, k)) r
run-Rises (suc n) a b idx pos m h k r =
    let e : idx + suc n ≡ suc idx + n = omega arith in
    let f : pos + suc n ≡ suc pos + n = omega arith in
    (
      h,
      (
        k,
        run-Rises n (suc idx) (suc pos) (suc idx) (suc pos) m (omega arith) (omega arith)
            (rw (e, f) at r),
      ),
    )

pub entries-Rises :
    (y : Text) (nodes : List TextNode) (cursor b : ℕ)
    → IsOrdered b nodes
    → Rises cursor b (entries y nodes cursor)
entries-Rises y [] cursor b h = tt
entries-Rises y (node ∷ nodes) cursor b h =
    let n = length node.text in
    let skip : Rises cursor b (entries y nodes cursor) =
      Rises-wider cursor b cursor (node.pos + n) (entries y nodes cursor) (omega arith)
        (omega (arith, h.0)) (entries-Rises y nodes cursor (node.pos + n) h.1) in
    elim (Bool-cases (length node.text == 0)) [
      | inl empty ↦ rw (entries, empty) skip
      | inr full ↦ elim (Option-cases (index_from y node.text cursor)) [
        | inl gone ↦ rw (entries, full, gone) skip
        | inr (idx, found) ↦
            rw (entries, full, found)
              (run-Rises n cursor b idx node.pos (entries y nodes (idx + n))
                ((index_from_found y node.text cursor idx found).0) h.0
                (entries-Rises y nodes (idx + n) (node.pos + n) h.1))
      ]
    ]

pub get-Rises : (a b k p : ℕ) (m : Positions) → Rises a b m → get k m ≡ some p → (a ≤ k) × (b ≤ p)
unfolding get
get-Rises a b k p [] r h = absurd (ground (arith, h))
get-Rises a b k p ((j, q) ∷ m) r h = elim (Bool-cases (j == k)) [
  | inl same ↦
      let f : q ≡ p = ground (arith, rw (get, same) at h) in
      (ground (arith, r.0), omega (arith, r.1.0, f))
  | inr other ↦
      let (c, d) = get-Rises (suc j) (suc q) k p m r.1.1 (rw (get, other) at h) in
      (omega (arith, c, r.0), omega (arith, d, r.1.0))
]

pub later-Rises :
    (a b j k p q : ℕ) (m : Positions)
    → Rises a b m
    → get j m ≡ some p
    → get k m ≡ some q
    → j < k
    → p < q
unfolding get
later-Rises a b j k p q [] r h g lt = absurd (ground (arith, h))
later-Rises a b j k p q ((i, s) ∷ m) r h g lt = elim (Bool-cases (i == k)) [
  | inl same_k ↦
      let other_j : (i == j) ≡ false = ground (arith, same_k, lt) in
      let low = get-Rises (suc i) (suc s) j p m r.1.1 (rw (get, other_j) at h) in
      absurd (ground (arith, same_k, lt, low.0))
  | inr other_k ↦
      let g' = rw (get, other_k) at g in
      elim (Bool-cases (i == j)) [
        | inl same_j ↦
            let e : s ≡ p = ground (arith, rw (get, same_j) at h) in
            let high = get-Rises (suc i) (suc s) k q m r.1.1 g' in omega (arith, high.1, e)
        | inr other_j ↦ later-Rises (suc i) (suc s) j k p q m r.1.1 (rw (get, other_j) at h) g' lt
      ]
]

-- In a document whose text nodes lie one behind the other, a later offset of the source has a later
-- position.
pub build_position_map_rises :
    (doc : List TextNode) (y : Text) (j k p q : ℕ)
    → IsOrdered 0 doc
    → get j (build_position_map doc y) ≡ some p
    → get k (build_position_map doc y) ≡ some q
    → j < k
    → p < q
build_position_map_rises doc y j k p q h g1 g2 lt =
    let e = build_position_map-entries doc y in
    later-Rises 0 0 j k p q (entries y doc 0) (entries-Rises y doc 0 0 h) (rw e at g1) (rw e at g2)
      lt
