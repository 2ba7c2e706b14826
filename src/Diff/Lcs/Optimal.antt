-- ===== src/Diff/Lcs/Optimal.antt =====
-- `computeLCS` returns a common subsequence, and none is longer.

use native.Mathlib.Decide.{dec_lt}
use collab_editor.Prelude.{
  length-reverse, ℕ, zero, suc, ◌<◌, ◌≤◌, ◌≡◌, refl, sym, ap, ◌∙◌, inl, inr, true, false, List, [],
  ◌∷◌, ◌++◌, length, get_or, reverse, append_assoc, append-nil, arith, leb, Text, text_eq,
  text_eq_sound, text_eq_complete, Bool-cases,
}
use collab_editor.Diff.Lcs.{cell, dp_table, at, backtrack, compute_lcs}
use collab_editor.Diff.Lcs.Table.{lcs_length, at-dp_table}
use collab_editor.Diff.Lcs.Matching.{
  IsBelow, IsCommon, IsBelow-le, IsFrom-reverse_aux, IsBelow-reverse_aux,
}

module _ (a b : List Text) where
  -- The pairs of the walk in the order in which they are found.
  path : List (List ℕ) → ℕ → ℕ → List (ℕ × ℕ)
  path dp zero j = []
  path dp (suc i) zero = []
  path dp (suc i) (suc j) = elim (text_eq (get_or a i []) (get_or b j [])) [
    | true ↦ (i, j) ∷ path dp i j
    | false ↦ elim (leb (at dp (suc i) j) (at dp i (suc j))) [
      | true ↦ path dp i (suc j)
      | false ↦ path dp (suc i) j
    ]
  ]

  backtrack-eq-append :
      (dp : List (List ℕ)) (i j : ℕ) (result : List (ℕ × ℕ))
      → backtrack a b dp i j result ≡ result ++ path dp i j
  unfolding backtrack path
  backtrack-eq-append dp zero j result = sym (append-nil _)
  backtrack-eq-append dp (suc i) zero result = sym (append-nil _)
  backtrack-eq-append dp (suc i) (suc j) result = ground (
    arith,
    backtrack-eq-append dp i j (result ++ (i, j) ∷ []),
    append_assoc result ((i, j) ∷ []) (path dp i j),
    backtrack-eq-append dp i (suc j) result,
    backtrack-eq-append dp (suc i) j result,
  )

  -- What the walk reads of the table.
  abbrev IsRight : List (List ℕ) → Type 0
  IsRight dp = (i j : ℕ) → i ≤ length a → j ≤ length b → at dp i j ≡ lcs_length a b i j

  path-IsBelow : (dp : List (List ℕ)) (i j : ℕ) → IsBelow a b i j (path dp i j)
  unfolding path
  path-IsBelow dp zero j = tt
  path-IsBelow dp (suc i) zero = tt
  path-IsBelow dp (suc i) (suc j) = elim (Bool-cases (text_eq (get_or a i []) (get_or b j []))) [
    | inl e ↦ rw (e, IsBelow) (omega arith, omega arith, text_eq_sound _ _ e, path-IsBelow dp i j)
    | inr e ↦
        rw (e, IsBelow)
          (elim (Bool-cases (leb (at dp (suc i) j) (at dp i (suc j)))) [
            | inl f ↦
                rw (f, IsBelow)
                  (IsBelow-le a b i (suc j) _ _ _ (omega arith) (omega arith)
                    (path-IsBelow dp i (suc j)))
            | inr f ↦
                rw (f, IsBelow)
                  (IsBelow-le a b (suc i) j _ _ _ (omega arith) (omega arith)
                    (path-IsBelow dp (suc i) j))
          ])
  ]

  length-path :
      (dp : List (List ℕ))
      → IsRight dp
      → (i j : ℕ) → i ≤ length a
      → j ≤ length b
      → length (path dp i j) ≡ lcs_length a b i j
  unfolding path lcs_length cell
  length-path dp r zero j p q = refl
  length-path dp r (suc i) zero p q = refl
  length-path dp r (suc i) (suc j) p q = ground (
    arith,
    length-path dp r i j (omega arith) (omega arith),
    length-path dp r i (suc j) (omega arith) q,
    length-path dp r (suc i) j p (omega arith),
    r (suc i) j p (omega arith),
    r i (suc j) (omega arith) q,
  )

  lt_of_ne :
      (i j k l : ℕ)
      → k ≡ i
      → text_eq (get_or a i []) (get_or b j []) ≡ false
      → get_or a k [] ≡ get_or b l []
      → l < suc j
      → l < j
  lt_of_ne i j k l e other same h = elim (dec_lt l j) [
    | yes p ↦ p
    | no p ↦
        let f : l ≡ j = omega arith in
        cc (
          text_eq_complete (get_or a i []) (get_or b j [])
            (ap (λ m. get_or a m []) (sym e) ∙ same ∙ ap (λ m. get_or b m []) f))
  ]

  -- No common subsequence is longer than the table says.
  length-le-lcs_length :
      (i j : ℕ) (ps : List (ℕ × ℕ)) → IsBelow a b i j ps → length ps ≤ lcs_length a b i j
  unfolding lcs_length cell
  length-le-lcs_length i j [] h = omega arith
  length-le-lcs_length zero j ((k, l) ∷ ps) h = absurd (omega arith)
  length-le-lcs_length (suc i) zero ((k, l) ∷ ps) h = absurd (omega arith)
  length-le-lcs_length (suc i) (suc j) ((k, l) ∷ ps) (p, q, e, h) =
      elim (Bool-cases (text_eq (get_or a i []) (get_or b j []))) [
        | inl same ↦ rw same (
            omega (
              arith,
              length-le-lcs_length i j ps (IsBelow-le a b k l i j ps (omega arith) (omega arith) h),
            ))
        | inr other ↦ rw other (elim (dec_lt k i) [
          | yes k_lt ↦ omega (arith, length-le-lcs_length i (suc j) ((k, l) ∷ ps) (k_lt, q, e, h))
          | no k_ge ↦
              let k_eq : k ≡ i = omega arith in
              omega (
                arith,
                length-le-lcs_length (suc i) j ((k, l) ∷ ps)
                    (p, lt_of_ne i j k l k_eq other e q, e, h),
              )
        ])
      ]

  -- The pairs of the walk, the other way round.
  compute_lcs-eq-reverse : compute_lcs a b ≡ reverse (path (dp_table a b) (length a) (length b))
  unfolding compute_lcs
  compute_lcs-eq-reverse = ap reverse (backtrack-eq-append (dp_table a b) (length a) (length b) [])

  length-compute_lcs : length (compute_lcs a b) ≡ lcs_length a b (length a) (length b)
  length-compute_lcs =
      rw (compute_lcs-eq-reverse, length-reverse)
        (length-path (dp_table a b) (at-dp_table a b) _ _ (omega arith) (omega arith))

  -- `computeLCS` returns a common subsequence: its pairs rise strictly in both indices, lie in range
  -- and pair equal lines.
  pub compute_lcs-IsCommon : IsCommon a b (compute_lcs a b)
  compute_lcs-IsCommon =
      rw compute_lcs-eq-reverse
        (IsFrom-reverse_aux a b _ _ _ [] (omega arith) (omega arith) (path-IsBelow _ _ _) tt)

  -- No common subsequence of the two sequences is longer than the one that `computeLCS` returns.
  pub length-le-compute_lcs :
      (ps : List (ℕ × ℕ)) → IsCommon a b ps → length ps ≤ length (compute_lcs a b)
  length-le-compute_lcs ps h =
      rw (length-compute_lcs, ← length-reverse ps)
        (length-le-lcs_length _ _ (reverse ps)
          (IsBelow-reverse_aux a b 0 0 ps [] (omega arith) (omega arith) h tt))
