-- ===== src/PositionMap/Keys.antt =====
-- The sorted keys of a map of positions, and what the loops over them find.
pub mod Loops
use collab_editor.Prelude.{
  ℕ, zero, suc, ◌+◌, ◌-◌, ◌≤◌, ◌<◌, ◌≡◌, ◌≢◌, refl, sym, ap, ◌∙◌, Bool, true, false, List, [], ◌∷◌,
  ◌++◌, reverse, Option, none, some, ltb, leb, ◌==◌, if◌then◌else◌, Bool-cases, Option-cases, inl,
  inr, All, All-append, arith,
}
use mathlib.Core.List.{reverse-cons}
use collab_editor.PositionMap.{
  Positions, get, insert_key, sort_keys, keys_of, sorted_keys, first_key, last_key,
}
use collab_editor.PositionMap.Keys.Loops.{
  elem, first_key_found, first_key-none, last_key_found, last_key_some, sort_keys-Ascending,
  reverse-Descending, elem-reverse, elem-sort_keys,
}

-- A key has a value.
pub get-elem : (k : ℕ) (m : Positions) → elem k (keys_of m) ≡ true → (p : ℕ) × (get k m ≡ some p)
unfolding get
get-elem k [] h = absurd (ground (arith, h))
get-elem k ((j, p) ∷ m) h = elim (Bool-cases (j == k)) [
  | inl same ↦ (p, rw (get, same))
  | inr other ↦ let (q, e) = get-elem k m (rw other at h) in (q, rw (get, other) e)
]

pub elem-get : (k p : ℕ) (m : Positions) → get k m ≡ some p → elem k (keys_of m) ≡ true
unfolding get
elem-get k p [] h = absurd (ground (arith, h))
elem-get k p ((j, q) ∷ m) h = ground (arith, elem-get k p m, h)

pub first_sorted_key :
    (start end k : ℕ) (m : Positions)
    → first_key start end (sorted_keys m) ≡ some k
    → (start ≤ k)
      × ((k < end)
          × ((elem k (keys_of m) ≡ true)
              × ((j : ℕ) → start ≤ j → elem j (keys_of m) ≡ true → k ≤ j)))
unfolding sorted_keys
first_sorted_key start end k m h =
    let ks = keys_of m in
    let (a, (b, (c, d))) = first_key_found start end k (sort_keys ks) (sort_keys-Ascending ks) h in
    (a, (b, (sym (elem-sort_keys k ks) ∙ c, λ j from e. d j from (elem-sort_keys j ks ∙ e))))

pub no_sorted_key :
    (start end j : ℕ) (m : Positions)
    → first_key start end (sorted_keys m) ≡ none
    → start ≤ j
    → j < end
    → elem j (keys_of m) ≡ false
unfolding sorted_keys
no_sorted_key start end j m h from to =
    let ks = keys_of m in
    sym (elem-sort_keys j ks)
    ∙ first_key-none start end j (sort_keys ks) (sort_keys-Ascending ks) h from to

pub last_sorted_key :
    (from_key last k : ℕ) (m : Positions)
    → last_key from_key last (reverse (sorted_keys m)) ≡ some k
    → (from_key ≤ k)
      × ((k ≤ last)
          × ((elem k (keys_of m) ≡ true)
              × ((j : ℕ) → j ≤ last → elem j (keys_of m) ≡ true → j ≤ k)))
unfolding sorted_keys
last_sorted_key from_key last k m h =
    let ks = keys_of m in
    let sorted = sort_keys ks in
    let (a, (b, (c, d))) =
      last_key_found from_key last k (reverse sorted)
        (reverse-Descending sorted (sort_keys-Ascending ks)) h in
    let same : (j : ℕ) → elem j (reverse sorted) ≡ elem j ks =
      λ j. elem-reverse j sorted ∙ elem-sort_keys j ks in
    (a, (b, (sym (same k) ∙ c, λ j to e. d j to (same j ∙ e))))

pub last_sorted_key_some :
    (from_key last j : ℕ) (m : Positions)
    → from_key ≤ j
    → j ≤ last
    → elem j (keys_of m) ≡ true
    → last_key from_key last (reverse (sorted_keys m)) ≢ none
unfolding sorted_keys
last_sorted_key_some from_key last j m a b e =
    let ks = keys_of m in
    let sorted = sort_keys ks in
    last_key_some from_key last j (reverse sorted)
      (reverse-Descending sorted (sort_keys-Ascending ks)) a b
      (elem-reverse j sorted ∙ elem-sort_keys j ks ∙ e)
