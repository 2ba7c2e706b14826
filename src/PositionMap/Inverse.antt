-- ===== src/PositionMap/Inverse.antt =====
-- `pmRangeToYText` as the inverse of `snapRange`.
use collab_editor.Prelude.{
  ℕ, suc, ◌+◌, ◌≤◌, ◌≡◌, refl, sym, ap, ◌∙◌, inl, inr, true, false, List, [], ◌∷◌, length, Option,
  none, some, Text, ltb, leb, ◌==◌, Bool-cases, arith,
}
use collab_editor.PositionMap.{
  TextNode, Positions, get, build_position_map, insert_entry, sort_entries, scan_entries,
  pm_range_to_ytext, snap_range,
}
use collab_editor.PositionMap.Entries.{build_position_map-entries}
use collab_editor.PositionMap.Snap.{Ends, snap_range-SnapsTo}
use collab_editor.PositionMap.Order.{IsOrdered, Rises, get-Rises, later-Rises, entries-Rises}

-- The sort finds the entries in order.
sort_entries_sorted : (a b : ℕ) (m : Positions) → Rises a b m → sort_entries m ≡ m
unfolding sort_entries insert_entry
sort_entries_sorted a b [] r = refl
sort_entries_sorted a b (e ∷ []) r = refl
sort_entries_sorted a b (e ∷ f ∷ m) r =
    let first : leb e.0 f.0 ≡ true = ground (arith, r.1.1.0) in
    rw (sort_entries_sorted (suc e.0) (suc e.1) (f ∷ m) r.1.1) (rw (insert_entry, first))

scan_beyond :
    (from to a b : ℕ) (m : Positions) (found : Option (ℕ × ℕ))
    → Rises a b m
    → to ≤ b
    → scan_entries from to m found ≡ found
unfolding scan_entries
scan_beyond from to a b [] found r h = refl
scan_beyond from to a b ((k, p) ∷ m) found r h =
    let stop : leb to p ≡ true = ground (arith, r.1.0, h) in rw (scan_entries, stop)

scan_last :
    (from to a b s x l p : ℕ) (m : Positions)
    → Rises a b m
    → from ≤ b
    → get l m ≡ some p
    → to ≡ p + 1
    → scan_entries from to m (some (s, x)) ≡ some (s, l)
unfolding scan_entries get
scan_last from to a b s x l p [] r h g e = absurd (ground (arith, g))
scan_last from to a b s x l p ((j, q) ∷ m) r h g e = elim (Bool-cases (j == l)) [
  | inl same ↦
      let f : q ≡ p = ground (arith, rw (get, same) at g) in
      let jl : j ≡ l = ground arith in
      let go : leb to q ≡ false = ground (arith, e, f) in
      let inside : ltb q from ≡ false = ground (arith, h, r.1.0) in
      rw (scan_entries, go, inside)
        (scan_beyond from to (suc j) (suc q) m (some (s, j)) r.1.1 (omega (arith, e, f))
          ∙ ap (λ (k : ℕ). some (s, k)) jl)
  | inr other ↦
      let g' = rw (get, other) at g in
      let later = get-Rises (suc j) (suc q) l p m r.1.1 g' in
      let go : leb to q ≡ false = ground (arith, e, later.1) in
      let inside : ltb q from ≡ false = ground (arith, h, r.1.0) in
      rw (scan_entries, go, inside)
        (scan_last from to (suc j) (suc q) s j l p m r.1.1 (omega (arith, h, r.1.0)) g' e)
]

scan_ends :
    (from to a b k l p : ℕ) (m : Positions)
    → Rises a b m
    → get k m ≡ some from
    → get l m ≡ some p
    → k ≤ l
    → to ≡ p + 1
    → scan_entries from to m none ≡ some (k, l)
unfolding scan_entries get
scan_ends from to a b k l p [] r g1 g2 le e = absurd (ground (arith, g1))
scan_ends from to a b k l p ((j, q) ∷ m) r g1 g2 le e = elim (Bool-cases (j == k)) [
  | inl same ↦
      let f : q ≡ from = ground (arith, rw (get, same) at g1) in
      let jk : j ≡ k = ground arith in
      let inside : ltb q from ≡ false = ground (arith, f) in
      elim (Bool-cases (j == l)) [
        | inl alone ↦
            let f' : q ≡ p = ground (arith, rw (get, alone) at g2) in
            let jl : j ≡ l = ground arith in
            let go : leb to q ≡ false = ground (arith, e, f') in
            rw (scan_entries, go, inside)
              (scan_beyond from to (suc j) (suc q) m (some (j, j)) r.1.1 (omega (arith, e, f'))
                ∙ ap (λ (i : ℕ). some (i, j)) jk
                ∙ ap (λ (i : ℕ). some (k, i)) jl)
        | inr more ↦
            let g' = rw (get, more) at g2 in
            let later = get-Rises (suc j) (suc q) l p m r.1.1 g' in
            let go : leb to q ≡ false = ground (arith, e, later.1) in
            rw (scan_entries, go, inside)
              (scan_last from to (suc j) (suc q) j j l p m r.1.1 (omega (arith, f)) g' e
                ∙ ap (λ (i : ℕ). some (i, l)) jk)
      ]
  | inr other ↦
      let g1' = rw (get, other) at g1 in
      let first = get-Rises (suc j) (suc q) k from m r.1.1 g1' in
      let not_l : (j == l) ≡ false = ground (arith, first.0, le) in
      let g2' = rw (get, not_l) at g2 in
      let later = get-Rises (suc j) (suc q) l p m r.1.1 g2' in
      let go : leb to q ≡ false = ground (arith, e, later.1) in
      let below : ltb q from ≡ true = ground (arith, first.1) in
      rw (scan_entries, go, below) (scan_ends from to (suc j) (suc q) k l p m r.1.1 g1' g2' le e)
]

nonempty : (k p : ℕ) (m : Positions) → get k m ≡ some p → (length m == 0) ≡ false
unfolding get
nonempty k p [] h = absurd (ground (arith, h))
nonempty k p (e ∷ m) h = ground arith

range_nonempty :
    (a b from to k l p : ℕ) (m : Positions)
    → Rises a b m
    → get k m ≡ some from
    → get l m ≡ some p
    → k ≤ l
    → to ≡ p + 1
    → leb to from ≡ false
range_nonempty a b from to k l p m r g1 g2 le e = elim (Bool-cases (k == l)) [
  | inl same ↦
      let kl : k ≡ l = ground arith in
      let at_l : get l m ≡ some from = rw kl at g1 in ground (arith, sym at_l ∙ g2, e)
  | inr other ↦
      let lt = later-Rises a b k l from p m r g1 g2 (ground (arith, le)) in ground (arith, lt, e)
]

-- Where the text nodes lie one behind the other, `pmRangeToYText` takes the positions that
-- `snapRange` gives for a range back to the mapped part of that range: from its first mapped offset
-- to behind its last one.
pub pm_range_to_ytext-snap_range :
    (doc : List TextNode) (y : Text) (start end from to : ℕ)
    → IsOrdered 0 doc
    → snap_range start end (build_position_map doc y) ≡ some (from, to)
    → (ends : Ends start end from to (build_position_map doc y)) × (pm_range_to_ytext doc y from to
        ≡ some (ends.first, ends.last + 1))
unfolding pm_range_to_ytext
pm_range_to_ytext-snap_range doc y start end from to h e =
    let m = build_position_map doc y in
    let ends : Ends start end from to m = rw e at (snap_range-SnapsTo start end m) in
    let r : Rises 0 0 m = rw (build_position_map-entries doc y) (entries-Rises y doc 0 0 h) in
    let in_order = ends.in_order.1.0 in
    let some_range =
      range_nonempty 0 0 from to ends.first ends.last ends.last_pos m r ends.get_first ends.get_last
        in_order ends.to_behind in
    let scan =
      scan_ends from to 0 0 ends.first ends.last ends.last_pos m r ends.get_first ends.get_last
        in_order ends.to_behind in
    (
      ends,
      rw (some_range, nonempty ends.first from m ends.get_first, sort_entries_sorted 0 0 m r)
          (rw scan),
    )
