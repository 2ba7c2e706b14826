-- ===== src/PositionMap/Snap.antt =====
-- What `snapRange` answers, on any map.
use collab_editor.Prelude.{
  ℕ, ◌+◌, ◌-◌, ◌≤◌, ◌<◌, ◌≡◌, refl, true, false, [], ◌∷◌, length, reverse, Option, none, some, leb,
  ◌==◌, Bool-cases, Option-cases, inl, inr, arith,
}
use collab_editor.PositionMap.{
  Positions, get, keys_of, sorted_keys, first_key, last_key, snap_start, snap_end, snap_range,
}
use collab_editor.PositionMap.Keys.Loops.{elem}
use collab_editor.PositionMap.Keys.{
  get-elem, elem-get, first_sorted_key, no_sorted_key, last_sorted_key, last_sorted_key_some,
}

-- The least and the greatest mapped offset of a range, and their positions.
pub record Ends (start end from to : ℕ) (m : Positions) : Type 0 where
  pub first : ℕ
  pub last : ℕ
  pub last_pos : ℕ
  pub in_order : (start ≤ first) × ((first ≤ last) × (last < end))
  pub get_first : get first m ≡ some from
  pub get_last : get last m ≡ some last_pos
  pub to_behind : to ≡ last_pos + 1
  pub within : (j p : ℕ) → start ≤ j → j < end → get j m ≡ some p → (first ≤ j) × (j ≤ last)

-- A range without mapped offsets has no answer, any other the positions of its ends.
abbrev pub SnapsTo : ℕ → ℕ → Positions → Option (ℕ × ℕ) → Type 0
SnapsTo start end m none = (j : ℕ) → start ≤ j → j < end → get j m ≡ none
SnapsTo start end m (some (from, to)) = Ends start end from to m

-- The start that is snapped to.
abbrev Starts : ℕ → ℕ → Positions → Option ℕ → Type 0
Starts start end m none = (j : ℕ) → start ≤ j → j < end → get j m ≡ none
Starts start end m (some k) =
    (start ≤ k)
    × ((k < end)
        × (((p : ℕ) × (get k m ≡ some p)) × ((j p : ℕ) → start ≤ j → get j m ≡ some p → k ≤ j)))

get_absent : (j : ℕ) (m : Positions) → elem j (keys_of m) ≡ false → get j m ≡ none
get_absent j m h = elim (Option-cases (get j m)) [
  | inl absent ↦ absent
  | inr (p, e) ↦ ground (arith, elem-get j p m e, h)
]

snap_start-Starts :
    (start end : ℕ) (m : Positions) → start < end → Starts start end m (snap_start start end m)
unfolding snap_start
snap_start-Starts start end m lt = elim (Option-cases (get start m)) [
  | inr (p, here) ↦ rw (snap_start, here) (omega arith, (lt, ((p, here), λ j q from e. from)))
  | inl absent ↦ elim (Option-cases (first_key start end (sorted_keys m))) [
    | inl nowhere ↦
        rw (snap_start, absent, nowhere)
          (λ j from to. get_absent j m (no_sorted_key start end j m nowhere from to))
    | inr (k, found) ↦
        let (a, (b, (c, d))) = first_sorted_key start end k m found in
        rw (snap_start, absent, found)
          (a, (b, (get-elem k m c, λ j p from e. d j from (elem-get j p m e))))
  ]
]

-- The end, behind a start that is mapped.
abbrev Stops : ℕ → ℕ → Positions → Option ℕ → Type 0
Stops from_key end m none = ⊥
Stops from_key end m (some k) =
    (from_key ≤ k)
    × ((k < end)
        × (((p : ℕ) × (get k m ≡ some p)) × ((j p : ℕ) → j < end → get j m ≡ some p → j ≤ k)))

snap_end-Stops :
    (from_key end p : ℕ) (m : Positions)
    → from_key < end
    → get from_key m ≡ some p
    → Stops from_key end m (snap_end from_key end m)
unfolding snap_end
snap_end-Stops from_key end p m lt mapped = elim (Option-cases (get (end - 1) m)) [
  | inr (q, here) ↦
      rw (snap_end, here)
        (omega (arith, lt), (omega (arith, lt), ((q, here), λ j r to e. omega (arith, to))))
  | inl absent ↦ elim (Option-cases (last_key from_key (end - 1) (reverse (sorted_keys m)))) [
    | inl nowhere ↦ absurd (
        last_sorted_key_some from_key (end - 1) from_key m (omega arith) (omega (arith, lt))
          (elem-get from_key p m mapped) nowhere)
    | inr (k, found) ↦
        let (a, (b, (c, d))) = last_sorted_key from_key (end - 1) k m found in
        rw (snap_end, absent, found)
          (
            a,
            (
              omega (arith, b, lt),
              (get-elem k m c, λ j r to e. d j (omega (arith, to)) (elem-get j r m e)),
            ),
          )
  ]
]

get_empty : (j : ℕ) (m : Positions) → (length m == 0) ≡ true → get j m ≡ none
unfolding get
get_empty j [] h = refl
get_empty j (e ∷ m) h = ground (arith, h)

-- `snapRange` answers with the positions of the first and the last mapped offset of the range, the
-- last one exclusive, and with nothing exactly when the range has no mapped offset.
pub snap_range-SnapsTo :
    (start end : ℕ) (m : Positions) → SnapsTo start end m (snap_range start end m)
unfolding snap_range
snap_range-SnapsTo start end m = elim (Bool-cases (leb end start)) [
  | inl empty ↦ rw (snap_range, empty) (λ j from to. absurd (ground (arith, empty, from, to)))
  | inr full ↦ elim (Bool-cases (length m == 0)) [
    | inl no_keys ↦ rw (snap_range, full, no_keys) (λ j from to. get_empty j m no_keys)
    | inr keys ↦
        let lt : start < end = ground (arith, full) in
        let starts = snap_start-Starts start end m lt in
        elim (Option-cases (snap_start start end m)) [
          | inl nowhere ↦ rw (snap_range, full, keys, nowhere) (rw nowhere at starts)
          | inr (k, e) ↦
              let (a, (b, ((p, at_k), c))) = rw e at starts in
              let stops = snap_end-Stops k end p m b at_k in
              elim (Option-cases (snap_end k end m)) [
                | inl gone ↦ absurd (rw gone at stops)
                | inr (l, f) ↦
                    let (a', (b', ((q, at_l), c'))) = rw f at stops in
                    rw (snap_range, full, keys, e, at_k, f, at_l)
                      record {
                        first = k;
                        last = l;
                        last_pos = q;
                        in_order = (a, (a', b'));
                        get_first = at_k;
                        get_last = at_l;
                        to_behind = refl;
                        within = λ j r from to g. (c j r from g, c' j r to g);
                      }
              ]
        ]
  ]
]
