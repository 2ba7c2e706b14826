-- ===== src/Diff/Affix/Common.antt =====
-- The loops find the longest common prefix, and behind it the longest common suffix.
use collab_editor.Prelude.{
  ℕ, zero, suc, ◌+◌, ◌-◌, ◌≤◌, ◌<◌, ◌≡◌, ◌≢◌, refl, sym, ap, ap₂, ◌∙◌, ◌⊎◌, inl, inr, min, ◌==◌,
  ==_iff, Bool-cases, length, get_or, take, drop, [], ◌∷◌, ◌++◌, arith, Text, take-suc, drop-suc,
  get_or-take, get_or-drop, drop_all,
}
use native.Mathlib.Decide.{dec_lt}
use collab_editor.Diff.Affix.{prefix_loop, suffix_loop, common_prefix, common_suffix}

module _ (old new : Text) where
  prefix_loop-le :
      (rounds prefix : ℕ)
      → (prefix ≤ prefix_loop old new rounds prefix)
        × (prefix_loop old new rounds prefix ≤ prefix + rounds)
  unfolding prefix_loop
  prefix_loop-le zero prefix = omega arith
  prefix_loop-le (suc rounds) prefix = ground (arith, prefix_loop-le rounds (suc prefix))

  -- The texts agree up to the end of the loop.
  take-prefix_loop :
      (rounds prefix : ℕ)
      → prefix + rounds ≤ min (length old) (length new)
      → take prefix old ≡ take prefix new
      → take (prefix_loop old new rounds prefix) old ≡ take (prefix_loop old new rounds prefix) new
  unfolding prefix_loop
  take-prefix_loop zero prefix h e = e
  take-prefix_loop (suc rounds) prefix h e =
      elim (Bool-cases (get_or old prefix 0 == get_or new prefix 0)) [
        | inl same ↦
            rw (same, prefix_loop)
              (take-prefix_loop rounds (suc prefix) (omega arith) (
                take-suc prefix old 0 (omega arith)
                ∙ ap₂ (λ (s : Text) c. s ++ c ∷ []) e ((==_iff _ _).0 same)
                ∙ sym (take-suc prefix new 0 (omega arith))))
        | inr other ↦ rw (other, prefix_loop) e
      ]

  -- The loop ends by its length test, or at a difference.
  prefix_loop-stop :
      (rounds prefix : ℕ)
      → (prefix_loop old new rounds prefix ≡ prefix + rounds)
        ⊎ (get_or old (prefix_loop old new rounds prefix) 0
            ≢ get_or new (prefix_loop old new rounds prefix) 0)
  unfolding prefix_loop
  prefix_loop-stop zero prefix = inl (omega arith)
  prefix_loop-stop (suc rounds) prefix =
      elim (Bool-cases (get_or old prefix 0 == get_or new prefix 0)) [
        | inl same ↦
            rw (same, prefix_loop)
              (elim (prefix_loop-stop rounds (suc prefix)) [
                | inl e ↦ inl (omega arith)
                | inr n ↦ inr n
              ])
        | inr other ↦ rw (other, prefix_loop) (inr (λ e. ground arith))
      ]

  suffix_loop-le :
      (rounds suffix : ℕ)
      → (suffix ≤ suffix_loop old new rounds suffix)
        × (suffix_loop old new rounds suffix ≤ suffix + rounds)
  unfolding suffix_loop
  suffix_loop-le zero suffix = omega arith
  suffix_loop-le (suc rounds) suffix = ground (arith, suffix_loop-le rounds (suc suffix))

  -- One more position from the end.
  drop-last :
      (s : Text) (k : ℕ)
      → k < length s
      → drop (length s - suc k) s ≡ get_or s (length s - 1 - k) 0 ∷ drop (length s - k) s
  drop-last s k h =
      let e : length s - suc k ≡ length s - 1 - k = omega arith in
      let f : length s - k ≡ suc (length s - 1 - k) = omega arith in
      rw (e, f) (drop-suc (length s - 1 - k) s 0 (omega arith))

  drop-suffix_loop :
      (rounds suffix : ℕ)
      → suffix + rounds ≤ min (length old) (length new)
      → drop (length old - suffix) old ≡ drop (length new - suffix) new
      → drop (length old - suffix_loop old new rounds suffix) old
        ≡ drop (length new - suffix_loop old new rounds suffix) new
  unfolding suffix_loop
  drop-suffix_loop zero suffix h e = e
  drop-suffix_loop (suc rounds) suffix h e =
      elim (Bool-cases
        (get_or old (length old - 1 - suffix) 0 == get_or new (length new - 1 - suffix) 0)) [
          | inl same ↦
              rw (same, suffix_loop)
                (drop-suffix_loop rounds (suc suffix) (omega arith) (
                  drop-last old suffix (omega arith)
                  ∙ ap₂ (λ c (s : Text). c ∷ s) ((==_iff _ _).0 same) e
                  ∙ sym (drop-last new suffix (omega arith))))
          | inr other ↦ rw (other, suffix_loop) e
        ]

  suffix_loop-stop :
      (rounds suffix : ℕ)
      → (suffix_loop old new rounds suffix ≡ suffix + rounds)
        ⊎ (get_or old (length old - 1 - suffix_loop old new rounds suffix) 0
            ≢ get_or new (length new - 1 - suffix_loop old new rounds suffix) 0)
  unfolding suffix_loop
  suffix_loop-stop zero suffix = inl (omega arith)
  suffix_loop-stop (suc rounds) suffix =
      elim (Bool-cases
        (get_or old (length old - 1 - suffix) 0 == get_or new (length new - 1 - suffix) 0)) [
          | inl same ↦
              rw (same, suffix_loop)
                (elim (suffix_loop-stop rounds (suc suffix)) [
                  | inl e ↦ inl (omega arith)
                  | inr n ↦ inr n
                ])
          | inr other ↦ rw (other, suffix_loop) (inr (λ e. ground arith))
        ]

  pub common_bounds :
      (common_prefix old new + common_suffix old new ≤ length old)
      × (common_prefix old new + common_suffix old new ≤ length new)
  unfolding common_prefix common_suffix
  common_bounds =
      let p = prefix_loop-le (min (length old) (length new)) 0 in
      let q = suffix_loop-le (min (length old) (length new) - common_prefix old new) 0 in
      (omega arith, omega arith)

  pub take-common_prefix : take (common_prefix old new) old ≡ take (common_prefix old new) new
  unfolding common_prefix
  take-common_prefix = take-prefix_loop (min (length old) (length new)) 0 (omega arith) refl

  pub drop-common_suffix :
      drop (length old - common_suffix old new) old ≡ drop (length new - common_suffix old new) new
  unfolding common_suffix
  drop-common_suffix =
      let p = common_bounds in
      drop-suffix_loop (min (length old) (length new) - common_prefix old new) 0 (omega arith)
        (drop_all _ old (omega arith) ∙ sym (drop_all _ new (omega arith)))

  -- No common prefix is longer.
  pub le-common_prefix :
      (q : ℕ)
      → q ≤ min (length old) (length new)
      → take q old ≡ take q new
      → q ≤ common_prefix old new
  unfolding common_prefix
  le-common_prefix q h e =
      let c : common_prefix old new ≡ prefix_loop old new (min (length old) (length new)) 0 =
        refl in
      elim (prefix_loop-stop (min (length old) (length new)) 0) [
        | inl at_end ↦ omega arith
        | inr differ ↦
            let p = prefix_loop old new (min (length old) (length new)) 0 in
            elim (dec_lt p q) [
              | yes more ↦ absurd (
                  differ (
                    sym (get_or-take q old p 0 more)
                    ∙ ap (λ s. get_or s p 0) e
                    ∙ get_or-take q new p 0 more))
              | no at_most ↦ omega arith
            ]
      ]

  -- No common suffix behind the common prefix is longer.
  pub le-common_suffix :
      (t : ℕ)
      → t ≤ min (length old) (length new) - common_prefix old new
      → drop (length old - t) old ≡ drop (length new - t) new
      → t ≤ common_suffix old new
  unfolding common_suffix
  le-common_suffix t h e =
      let c : common_suffix old new
          ≡ suffix_loop old new (min (length old) (length new) - common_prefix old new) 0 =
        refl in
      elim (suffix_loop-stop (min (length old) (length new) - common_prefix old new) 0) [
        | inl at_end ↦ omega arith
        | inr differ ↦
            let s = suffix_loop old new (min (length old) (length new) - common_prefix old new) 0 in
            elim (dec_lt s t) [
              | yes more ↦
                  let i = t - 1 - s in
                  let eo : length old - t + i ≡ length old - 1 - s = omega arith in
                  let en : length new - t + i ≡ length new - 1 - s = omega arith in
                  absurd (
                    differ (
                      ap (λ k. get_or old k 0) (sym eo)
                      ∙ sym (get_or-drop (length old - t) old i 0)
                      ∙ ap (λ l. get_or l i 0) e
                      ∙ get_or-drop (length new - t) new i 0
                      ∙ ap (λ k. get_or new k 0) en))
              | no at_most ↦ omega arith
            ]
      ]
