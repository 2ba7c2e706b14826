-- ===== src/Diff/Lcs/Matching.antt =====
-- Common subsequences as lists of index pairs, read from either end.
use mathlib.Core.List.{reverse_aux}
use collab_editor.Prelude.{ℕ, suc, ◌<◌, ◌≤◌, ◌≡◌, List, [], ◌∷◌, length, get_or, arith, Text}

module _ (a b : List Text) where
  -- The pairs rise strictly from (i, j) on, lie in range, and pair equal lines.
  abbrev pub IsFrom : ℕ → ℕ → List (ℕ × ℕ) → Type 0
  IsFrom i j [] = Unit
  IsFrom i j ((i', j') ∷ ps) =
      (i ≤ i')
      × (j ≤ j')
      × (i' < length a)
      × (j' < length b)
      × (get_or a i' [] ≡ get_or b j' [])
      × IsFrom (suc i') (suc j') ps

  -- The pairs fall strictly, below (i, j), and pair equal lines.
  abbrev pub IsBelow : ℕ → ℕ → List (ℕ × ℕ) → Type 0
  IsBelow i j [] = Unit
  IsBelow i j ((i', j') ∷ ps) =
      (i' < i) × (j' < j) × (get_or a i' [] ≡ get_or b j' []) × IsBelow i' j' ps

  -- A common subsequence of the two sequences of lines.
  abbrev pub IsCommon : List (ℕ × ℕ) → Type 0
  IsCommon = IsFrom 0 0

  pub IsFrom-le :
      (i j i' j' : ℕ) (ps : List (ℕ × ℕ)) → i ≤ i' → j ≤ j' → IsFrom i' j' ps → IsFrom i j ps
  IsFrom-le i j i' j' [] p q h = tt
  IsFrom-le i j i' j' ((k, l) ∷ ps) p q (p', q', x, y, e, h) =
      (omega arith, omega arith, x, y, e, h)

  pub IsBelow-le :
      (i j i' j' : ℕ) (ps : List (ℕ × ℕ)) → i ≤ i' → j ≤ j' → IsBelow i j ps → IsBelow i' j' ps
  IsBelow-le i j i' j' [] p q h = tt
  IsBelow-le i j i' j' ((k, l) ∷ ps) p q (p', q', e, h) = (omega arith, omega arith, e, h)

  pub IsFrom-reverse_aux :
      (i j : ℕ) (ps qs : List (ℕ × ℕ))
      → i ≤ length a
      → j ≤ length b
      → IsBelow i j ps
      → IsFrom i j qs
      → IsFrom 0 0 (reverse_aux ps qs)
  IsFrom-reverse_aux i j [] qs x y h k = IsFrom-le 0 0 i j qs (omega arith) (omega arith) k
  IsFrom-reverse_aux i j ((i', j') ∷ ps) qs x y (p, q, e, h) k =
      IsFrom-reverse_aux i' j' ps ((i', j') ∷ qs) (omega arith) (omega arith) h
        (omega arith, omega arith, omega arith, omega arith, e, IsFrom-le _ _ i j qs p q k)

  pub IsBelow-reverse_aux :
      (i j : ℕ) (ps qs : List (ℕ × ℕ))
      → i ≤ length a
      → j ≤ length b
      → IsFrom i j ps
      → IsBelow i j qs
      → IsBelow (length a) (length b) (reverse_aux ps qs)
  IsBelow-reverse_aux i j [] qs x y h k = IsBelow-le i j _ _ qs x y k
  IsBelow-reverse_aux i j ((i', j') ∷ ps) qs x y (p, q, r, s, e, h) k =
      IsBelow-reverse_aux (suc i') (suc j') ps ((i', j') ∷ qs) r s h
        (omega arith, omega arith, e, IsBelow-le i j i' j' qs p q k)
