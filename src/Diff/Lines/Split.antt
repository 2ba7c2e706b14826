-- ===== src/Diff/Lines/Split.antt =====
-- Splitting a text into lines, and joining them.
use collab_editor.Prelude.{
  ℕ, ◌≡◌, refl, ap, ◌∙◌, List, [], ◌∷◌, ◌++◌, length, arith, Text, ◌==◌, Bool-cases, inl, inr, ◌<◌,
}
use collab_editor.Diff.Lines.{cons_head, split_on, split_lines, newline}

-- `lines.join(separator)`
abbrev pub join : ℕ → List Text → Text
join sep [] = []
join sep (l ∷ []) = l
join sep (l ∷ m ∷ ls) = l ++ (sep ∷ join sep (m ∷ ls))

join-cons_head : (sep c : ℕ) (ls : List Text) → join sep (cons_head c ls) ≡ c ∷ join sep ls
unfolding cons_head
join-cons_head sep c [] = refl
join-cons_head sep c (l ∷ []) = refl
join-cons_head sep c (l ∷ m ∷ ls) = refl

join-cons_nil : (sep : ℕ) (ls : List Text) → 0 < length ls → join sep ([] ∷ ls) ≡ sep ∷ join sep ls
join-cons_nil sep [] h = absurd (omega arith)
join-cons_nil sep (l ∷ ls) h = refl

cons_head-pos : (c : ℕ) (ls : List Text) → 0 < length (cons_head c ls)
unfolding cons_head
cons_head-pos c [] = omega arith
cons_head-pos c (l ∷ ls) = omega arith

-- A split is never empty.
pub split_on-pos : (sep : ℕ) (s : Text) → 0 < length (split_on sep s)
unfolding split_on
split_on-pos sep [] = omega arith
split_on-pos sep (c ∷ s) = ground (arith, cons_head-pos c (split_on sep s))

-- Splitting at a separator loses nothing.
pub join-split_on : (sep : ℕ) (s : Text) → join sep (split_on sep s) ≡ s
unfolding split_on
join-split_on sep [] = refl
join-split_on sep (c ∷ s) = elim (Bool-cases (c == sep)) [
  | inl e ↦ rw e (
      join-cons_nil sep _ (split_on-pos sep s)
      ∙ ap (sep ∷◌) (join-split_on sep s)
      ∙ ap (◌∷ s) (let f : sep ≡ c = ground arith in f))
  | inr e ↦ rw e (join-cons_head sep c _ ∙ ap (c ∷◌) (join-split_on sep s))
]

-- The lines of a text, joined, are the text.
pub join-split_lines : (s : Text) → join newline (split_lines s) ≡ s
unfolding split_lines
join-split_lines [] = refl
join-split_lines (c ∷ s) = join-split_on newline (c ∷ s)
