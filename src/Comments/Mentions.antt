-- ===== src/Comments/Mentions.antt =====
-- `extractMentions`: the matches of /@\[([^\]]+)\]\(([^)]+)\)/g.
use collab_editor.Prelude.{
  ℕ, zero, suc, ◌+◌, ◌-◌, ◌≤◌, ◌≡◌, ◌≢◌, refl, ap, ◌∙◌, true, false, ◌&&◌, All, arith,
  length-append, List, [], ◌∷◌, ◌++◌, Option, none, some, length, Text, ◌==◌, if◌then◌else◌,
}
use collab_editor.Interfaces.{Mention}

-- The longest run without the code unit `stop`, and the rest.
unfoldable pub run_until : ℕ → Text → Text × Text
run_until stop [] = ([], [])
run_until stop (c ∷ s) =
    let (run, rest) = run_until stop s in if c == stop then ([], c ∷ s) else (c ∷ run, rest)

-- A group: at least one code unit other than `stop`, and then `stop`.
unfoldable pub closed_group : Text → Text → Option (Text × Text)
closed_group [] rest = none
closed_group (c ∷ cs) [] = none
closed_group (c ∷ cs) (stop ∷ rest) = some (c ∷ cs, rest)

unfoldable pub group : ℕ → Text → Option (Text × Text)
unfolding closed_group
group stop s = let (run, rest) = run_until stop s in closed_group run rest

-- The second group, which starts with "(".
unfoldable pub user_group : Text → Text → Option (Mention × Text)
user_group display_name [] = none
user_group display_name (c ∷ s) = elim (c == b'(') [
  | false ↦ none
  | true ↦ elim (group b')' s) [
    | none ↦ none
    | some (user_id, rest) ↦ some (record { user_id = user_id; display_name = display_name }, rest)
  ]
]

-- A match of the expression at the start of the text, and what is behind it.
unfoldable pub mention_at : Text → Option (Mention × Text)
mention_at [] = none
mention_at (c ∷ []) = none
mention_at (c ∷ d ∷ s) = elim (c == b'@' && d == b'[') [
  | false ↦ none
  | true ↦ elim (group b']' s) [
    | none ↦ none
    | some (display_name, rest) ↦ user_group display_name rest
  ]
]

-- The `while` loop over the matches: the search goes on behind a match, or one code unit on.
unfoldable pub mentions_from : ℕ → Text → List Mention
mentions_from zero s = []
mentions_from (suc fuel) [] = []
mentions_from (suc fuel) (c ∷ s) = elim (mention_at (c ∷ s)) [
  | none ↦ mentions_from fuel s
  | some (m, rest) ↦ m ∷ mentions_from fuel rest
]

-- The fuel is the length: every round takes one code unit at least.
unfoldable pub extract_mentions : Text → List Mention
extract_mentions content = mentions_from (length content) content

-- No code unit of the text is `stop`.
abbrev pub Without : ℕ → Text → Type 0
Without stop = All (λ c. c ≢ stop)

-- A mention as it is typed.
abbrev pub typed : Mention → Text → Text
typed m s = b'@' ∷ b'[' ∷ m.display_name ++ (b']' ∷ b'(' ∷ m.user_id ++ (b')' ∷ s))

abbrev pub IsTypable : Mention → Type 0
IsTypable m =
    Without b']' m.display_name × (m.display_name ≢ []) × Without b')' m.user_id × (m.user_id ≢ [])

run_until-append :
    (stop : ℕ) (run s : Text)
    → Without stop run
    → run_until stop (run ++ stop ∷ s) ≡ (run, stop ∷ s)
unfolding run_until
run_until-append stop [] s h = ground arith
run_until-append stop (c ∷ run) s (ne, h) = ground (arith, run_until-append stop run s h)

group-append :
    (stop : ℕ) (run s : Text)
    → Without stop run
    → run ≢ []
    → group stop (run ++ stop ∷ s) ≡ some (run, s)
unfolding group
group-append stop [] s h ne = absurd (ne refl)
group-append stop (c ∷ run) s h ne = rw (run_until-append stop (c ∷ run) s h)

mention_at-typed : (m : Mention) (s : Text) → IsTypable m → mention_at (typed m s) ≡ some (m, s)
unfolding mention_at user_group
mention_at-typed m s (h, ne, h', ne') =
    rw (group-append b']' m.display_name (b'(' ∷ m.user_id ++ (b')' ∷ s)) h ne, mention_at)
      (rw (group-append b')' m.user_id s h' ne', user_group))

-- Text with mentions: each with the plain text before it.
abbrev pub written : List (Text × Mention) → Text → Text
written [] tail = tail
written ((plain, m) ∷ pieces) tail = plain ++ typed m (written pieces tail)

abbrev pub AreTypable : List (Text × Mention) → Type 0
AreTypable [] = Unit
AreTypable ((plain, m) ∷ pieces) = Without b'@' plain × IsTypable m × AreTypable pieces

abbrev pub mentions_of : List (Text × Mention) → List Mention
mentions_of [] = []
mentions_of ((plain, m) ∷ pieces) = m ∷ mentions_of pieces

mention_at-plain : (c : ℕ) (s : Text) → c ≢ b'@' → mention_at (c ∷ s) ≡ none
unfolding mention_at
mention_at-plain c [] ne = refl
mention_at-plain c (d ∷ s) ne = ground arith

-- Plain text is passed over.
mentions_from-plain :
    (plain s : Text) (fuel : ℕ)
    → Without b'@' plain
    → mentions_from (length plain + fuel) (plain ++ s) ≡ mentions_from fuel s
unfolding mentions_from
mentions_from-plain [] s fuel h = let e : 0 + fuel ≡ fuel = omega arith in rw e
mentions_from-plain (c ∷ plain) s fuel (ne, h) =
    let e : suc (length plain) + fuel ≡ suc (length plain + fuel) = omega arith in
    rw (e, mention_at-plain c (plain ++ s) ne, mentions_from) (mentions_from-plain plain s fuel h)

mentions_from-tail : (fuel : ℕ) (s : Text) → Without b'@' s → mentions_from fuel s ≡ []
unfolding mentions_from
mentions_from-tail zero s h = refl
mentions_from-tail (suc fuel) [] h = refl
mentions_from-tail (suc fuel) (c ∷ s) (ne, h) =
    rw (mention_at-plain c s ne, mentions_from) (mentions_from-tail fuel s h)

mentions_from-typed :
    (m : Mention) (s : Text) (fuel : ℕ)
    → IsTypable m
    → mentions_from (suc fuel) (typed m s) ≡ m ∷ mentions_from fuel s
unfolding mentions_from
mentions_from-typed m s fuel h = rw (mention_at-typed m s h, mentions_from)

length-typed : (m : Mention) (s : Text) → suc (length s) ≤ length (typed m s)
length-typed m s = omega (
  arith,
  length-append m.display_name (b']' ∷ b'(' ∷ m.user_id ++ (b')' ∷ s)),
  length-append m.user_id (b')' ∷ s),
)

mentions_from-written :
    (pieces : List (Text × Mention)) (tail : Text) (fuel : ℕ)
    → AreTypable pieces
    → Without b'@' tail
    → length (written pieces tail) ≤ fuel
    → mentions_from fuel (written pieces tail) ≡ mentions_of pieces
mentions_from-written [] tail fuel h k le = mentions_from-tail fuel tail k
mentions_from-written ((plain, m) ∷ pieces) tail fuel (p, t, h) k le =
    let rest = written pieces tail in
    let size = length-append plain (typed m rest) in
    let shorter = length-typed m rest in
    let fuel' = fuel - length plain - 1 in
    let e : fuel ≡ length plain + suc fuel' = omega arith in
    rw e (
      mentions_from-plain plain (typed m rest) (suc fuel') p
      ∙ mentions_from-typed m rest fuel' t
      ∙ ap (m ∷◌) (mentions_from-written pieces tail fuel' h k (omega arith)))

-- The mentions that were typed into a text are the ones that are extracted from it, in order: plain
-- text without "@" stands before, between and behind them, a display name has no "]", a user id has
-- no ")", and neither is empty.
pub extract_mentions-written :
    (pieces : List (Text × Mention)) (tail : Text)
    → AreTypable pieces
    → Without b'@' tail
    → extract_mentions (written pieces tail) ≡ mentions_of pieces
unfolding extract_mentions
extract_mentions-written pieces tail h k =
    mentions_from-written pieces tail (length (written pieces tail)) h k (omega arith)
