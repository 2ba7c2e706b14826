-- ===== src/PositionMap.antt =====
-- The map from offsets of the source text to positions of the rendered document, of
-- frontend/src/collab/pm-position-map.ts.
pub mod Keys
pub mod Entries
pub mod Snap
pub mod Order
pub mod Inverse
pub mod Overrides
use collab_editor.Prelude.{
  ℕ, zero, suc, ◌+◌, ◌-◌, Bool, true, false, List, [], ◌∷◌, length, drop, map, reverse, Option,
  none, some, Text, index_of, ltb, leb, ◌==◌, if◌then◌else◌,
}

-- A text node of the ProseMirror document, as `descendants` visits it: its text, its position and
-- the names of its marks. The other nodes are only descended into.
pub record TextNode : Type 0 where
  pub text : Text
  pub pos : ℕ
  pub marks : List Text

-- `Map<number, number>` in insertion order.
abbrev pub Positions : Type 0
Positions = List (ℕ × ℕ)

unfoldable pub get : ℕ → Positions → Option ℕ
get k [] = none
get k ((j, p) ∷ m) = if j == k then some p else get k m

unfoldable pub set : ℕ → ℕ → Positions → Positions
set k p [] = (k, p) ∷ []
set k p ((j, q) ∷ m) = if j == k then (j, p) ∷ m else (j, q) ∷ set k p m

-- `yText.indexOf(text, cursor)`, at a cursor inside the text.
unfoldable pub index_from : Text → Text → ℕ → Option ℕ
index_from y_text needle cursor = elim (index_of needle (drop cursor y_text)) [
  | none ↦ none
  | some i ↦ some (cursor + i)
]

-- `for (let i = 0; i < text.length; i++) map.set(idx + i, pos + i)`
unfoldable pub set_run : ℕ → ℕ → ℕ → Positions → Positions
set_run idx pos zero m = m
set_run idx pos (suc n) m = set_run (suc idx) (suc pos) n (set idx pos m)

-- The visits of `descendants` in order, from a cursor.
unfoldable pub visit : Text → List TextNode → ℕ → Positions → Positions
visit y_text [] cursor m = m
visit y_text (node ∷ nodes) cursor m =
    let skipped = visit y_text nodes cursor m in
    if length node.text == 0 then skipped else (elim (index_from y_text node.text cursor) [
      | none ↦ skipped
      | some idx ↦
          visit y_text nodes (idx + length node.text) (set_run idx node.pos (length node.text) m)
    ])

unfoldable pub build_position_map : List TextNode → Text → Positions
build_position_map doc y_text = visit y_text doc 0 []

-- `keys.sort((a, b) => a - b)`.
unfoldable pub insert_key : ℕ → List ℕ → List ℕ
insert_key k [] = k ∷ []
insert_key k (j ∷ ks) = if leb k j then k ∷ j ∷ ks else j ∷ insert_key k ks

unfoldable pub sort_keys : List ℕ → List ℕ
sort_keys [] = []
sort_keys (k ∷ ks) = insert_key k (sort_keys ks)

-- What the cache of `sortedKeys` holds is what is computed here.
abbrev pub keys_of : Positions → List ℕ
keys_of [] = []
keys_of ((k, p) ∷ m) = k ∷ keys_of m

unfoldable pub sorted_keys : Positions → List ℕ
sorted_keys m = sort_keys (keys_of m)

-- The loops of `snapRange`: forward to the first key inside the range, and backward.
unfoldable pub first_key : ℕ → ℕ → List ℕ → Option ℕ
first_key start end [] = none
first_key start end (k ∷ ks) =
    let rest = first_key start end ks in
    if ltb k start then rest else if leb end k then none else some k

unfoldable pub last_key : ℕ → ℕ → List ℕ → Option ℕ
last_key from_key last [] = none
last_key from_key last (k ∷ ks) =
    let rest = last_key from_key last ks in
    if ltb last k then rest else if ltb k from_key then none else some k

-- `fromKey`: `start` if it is mapped.
unfoldable pub snap_start : ℕ → ℕ → Positions → Option ℕ
snap_start start end m = elim (get start m) [
  | some p ↦ some start
  | none ↦ first_key start end (sorted_keys m)
]

unfoldable pub snap_end : ℕ → ℕ → Positions → Option ℕ
snap_end from_key end m = elim (get (end - 1) m) [
  | some p ↦ some (end - 1)
  | none ↦ last_key from_key (end - 1) (reverse (sorted_keys m))
]

-- `{ from, to }`, and `none` for `{}`.
unfoldable pub snap_range : ℕ → ℕ → Positions → Option (ℕ × ℕ)
snap_range start end m =
    if leb end start then none else if length m == 0 then none else (elim (snap_start start end m) [
      | none ↦ none
      | some from_key ↦ elim (get from_key m) [
        | none ↦ none
        | some from_pos ↦ elim (snap_end from_key end m) [
          | none ↦ none
          | some last_key ↦ elim (get last_key m) [
            | none ↦ none
            | some last_pos ↦ some (from_pos, last_pos + 1)
          ]
        ]
      ]
    ])

-- `entries.sort((a, b) => a[0] - b[0])`.
unfoldable pub insert_entry : ℕ × ℕ → Positions → Positions
insert_entry e [] = e ∷ []
insert_entry e (f ∷ es) = if leb e.0 f.0 then e ∷ f ∷ es else f ∷ insert_entry e es

unfoldable pub sort_entries : Positions → Positions
sort_entries [] = []
sort_entries (e ∷ es) = insert_entry e (sort_entries es)

-- The loop of `pmRangeToYText`, at its `start` and `lastYOff`.
unfoldable pub scan_entries : ℕ → ℕ → Positions → Option (ℕ × ℕ) → Option (ℕ × ℕ)
scan_entries from_pm to_pm [] found = found
scan_entries from_pm to_pm ((y_off, pm_pos) ∷ es) found =
    let skipped = scan_entries from_pm to_pm es found in
    let begun = scan_entries from_pm to_pm es (some (y_off, y_off)) in
    if leb to_pm pm_pos then found else if ltb pm_pos from_pm then skipped else (elim found [
      | none ↦ begun
      | some (start, last) ↦ scan_entries from_pm to_pm es (some (start, y_off))
    ])

unfoldable pub pm_range_to_ytext : List TextNode → Text → ℕ → ℕ → Option (ℕ × ℕ)
pm_range_to_ytext doc y_text from_pm to_pm =
    if leb to_pm from_pm
    then none
    else (let m = build_position_map doc y_text in
        if length m == 0 then none else (elim (scan_entries from_pm to_pm (sort_entries m) none) [
          | none ↦ none
          | some (start, last_y_off) ↦ some (start, last_y_off + 1)
        ]))
