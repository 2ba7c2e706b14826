-- ===== src/Prelude/Search.antt =====
-- What `indexOf` finds in a string.
use Prim.Native.Nat.{ℕ, ◌+◌, ◌-◌}
use mathlib.Core.Path.{◌≡◌, ap, sym}
use mathlib.Core.Logic.{◌≢◌, inl, inr}
use mathlib.Core.Option.{none, some}
use mathlib.Core.List.{[], ◌∷◌, ◌++◌}
use native.Mathlib.Omega.{arith}
use collab_editor.Prelude.Tests.{Bool-cases, Option-cases}
use collab_editor.Prelude.Lists.{length, length-append, drop, take-append_left, drop-append_left}
use collab_editor.Prelude.Texts.{
  Text, slice, index_of, starts_with, starts_with-append, append_drop_of_starts_with,
}

pub index_of_found :
    (p s : Text) (i : ℕ)
    → index_of p s ≡ some i
    → (a : Text) × (b : Text) × ((s ≡ a ++ (p ++ b)) × (length a ≡ i))
unfolding index_of
index_of_found p [] i h = elim (Bool-cases (starts_with p [])) [
  | inl here ↦
      let zero_at = rw (here, index_of) at h in
      (
        [],
        drop (length p) [],
        (sym (append_drop_of_starts_with p [] here), ground (arith, zero_at)),
      )
  | inr away ↦ let nowhere = rw (away, index_of) at h in ground (arith, nowhere)
]
index_of_found p (c ∷ s) i h = elim (Bool-cases (starts_with p (c ∷ s))) [
  | inl here ↦
      let zero_at = rw (here, index_of) at h in
      (
        [],
        drop (length p) (c ∷ s),
        (sym (append_drop_of_starts_with p (c ∷ s) here), ground (arith, zero_at)),
      )
  | inr away ↦
      let later = rw (away, index_of) at h in
      elim (Option-cases (index_of p s)) [
        | inl absent ↦ let nowhere = rw absent at later in ground (arith, nowhere)
        | inr (j, found) ↦
            let at_j = rw found at later in
            let (a, b, (split, size)) = index_of_found p s j found in
            (c ∷ a, b, (ap (c ∷◌) split, ground (arith, at_j, size)))
      ]
]

pub index_of-append : (a p b : Text) → index_of p (a ++ (p ++ b)) ≢ none
unfolding index_of starts_with
index_of-append [] [] [] h = ground (arith, h)
index_of-append [] [] (c ∷ b) h = ground (arith, h)
index_of-append [] (c ∷ p) b h =
    let here = rw (starts_with-append (c ∷ p) b, index_of) at h in ground (arith, here)
index_of-append (c ∷ a) p b h = let away = index_of-append a p b in ground (arith, h, away)

pub length-split : (a p b : Text) → length (a ++ (p ++ b)) ≡ length a + (length p + length b)
length-split a p b = omega (arith, length-append a (p ++ b), length-append p b)

pub slice-middle :
    (a p b : Text) (i j : ℕ)
    → length a ≡ i
    → length a + length p ≡ j
    → slice i j (a ++ (p ++ b)) ≡ p
slice-middle a p b i j hi hj =
    let behind = drop-append_left i a (p ++ b) (sym hi) in
    rw behind (take-append_left (j - i) p b (omega arith))
