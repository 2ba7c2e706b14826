-- ===== src/Prelude/Maps.antt =====
-- `Map<string, V>` and `Set<string>` of JavaScript, in insertion order, as association lists and
-- lists. Writing a key that is present keeps its place.
use mathlib.Core.Path.{◌≡◌, refl}
use mathlib.Core.Bool.{Bool, true, false}
use mathlib.Core.Option.{Option, none, some}
use mathlib.Core.List.{List, [], ◌∷◌}
use native.Mathlib.Omega.{arith}
use collab_editor.Prelude.Tests.{if◌then◌else◌}
use collab_editor.Prelude.Texts.{Text, text_eq, text_eq_iff}

module _ {ℓ} {V : Type ℓ} where
  unfoldable pub lookup : Text → List (Text × V) → Option V
  lookup k [] = none
  lookup k ((j, v) ∷ m) = if text_eq j k then some v else lookup k m

  unfoldable pub insert : Text → V → List (Text × V) → List (Text × V)
  insert k v [] = (k, v) ∷ []
  insert k v ((j, w) ∷ m) = if text_eq j k then (j, v) ∷ m else (j, w) ∷ insert k v m

  -- `delete`; a key stands in the map once.
  unfoldable pub erase : Text → List (Text × V) → List (Text × V)
  erase k [] = []
  erase k ((j, w) ∷ m) = let rest = erase k m in if text_eq j k then rest else (j, w) ∷ rest

  unfoldable pub has : Text → List (Text × V) → Bool
  has k [] = false
  has k ((j, w) ∷ m) = if text_eq j k then true else has k m

  pub lookup-insert :
      (k j : Text) (v : V) (m : List (Text × V))
      → lookup j (insert k v m) ≡ (if text_eq k j then some v else lookup j m)
  unfolding lookup insert
  lookup-insert k j v [] = refl
  lookup-insert k j v ((i, w) ∷ m) =
      ground (arith, text_eq_iff k j, text_eq_iff i k, text_eq_iff i j, lookup-insert k j v m)

  pub lookup-erase :
      (k j : Text) (m : List (Text × V))
      → lookup j (erase k m) ≡ (if text_eq k j then none else lookup j m)
  unfolding lookup erase
  lookup-erase k j [] = ground arith
  lookup-erase k j ((i, w) ∷ m) =
      ground (arith, text_eq_iff k j, text_eq_iff i k, text_eq_iff i j, lookup-erase k j m)

  pub has-lookup :
      (k : Text) (m : List (Text × V))
      → has k m ≡ (elim (lookup k m) [ none ↦ false | some v ↦ true ])
  unfolding lookup has
  has-lookup k [] = refl
  has-lookup k ((j, w) ∷ m) = ground (arith, has-lookup k m)

unfoldable pub member : Text → List Text → Bool
member k [] = false
member k (j ∷ s) = if text_eq j k then true else member k s

unfoldable pub add : Text → List Text → List Text
add k [] = k ∷ []
add k (j ∷ s) = if text_eq j k then j ∷ s else j ∷ add k s

unfoldable pub remove : Text → List Text → List Text
remove k [] = []
remove k (j ∷ s) = let rest = remove k s in if text_eq j k then rest else j ∷ rest

pub member-add :
    (k j : Text) (s : List Text) → member j (add k s) ≡ (if text_eq k j then true else member j s)
unfolding member add
member-add k j [] = refl
member-add k j (i ∷ s) =
    ground (arith, text_eq_iff k j, text_eq_iff i k, text_eq_iff i j, member-add k j s)

pub member-remove :
    (k j : Text) (s : List Text)
    → member j (remove k s) ≡ (if text_eq k j then false else member j s)
unfolding member remove
member-remove k j [] = ground arith
member-remove k j (i ∷ s) =
    ground (arith, text_eq_iff k j, text_eq_iff i k, text_eq_iff i j, member-remove k j s)
