-- ===== src/Blame/Versions/Provenance.antt =====
-- Whom version blame names for a line.
use mathlib.Core.List.{Memᴰ}
use mathlib.Core.Path.{subst₂}
use native.Mathlib.Decide.{ℕ_discrete}
use collab_editor.Prelude.{
  ℕ, zero, suc, ◌+◌, ◌<◌, ◌≤◌, ◌≡◌, ◌≢◌, refl, sym, ap, ap₂, ◌∙◌, List, [], ◌∷◌, ◌++◌, append_assoc,
  append-nil, length, get_elem?, get_or, get_elem?-get_or, set, take, drop, arith, Text, replicate,
  length-replicate, length-set, All, take_all, drop_all, drop-suc,
}
use collab_editor.Diff.Lcs.{compute_lcs}
use collab_editor.Diff.Lcs.Matching.{IsFrom}
use collab_editor.Diff.Lcs.Optimal.{compute_lcs-IsCommon, length-le-compute_lcs}
use collab_editor.Blame.Versions.{
  VersionEntry, or_else, lines_of, creator_of, attribute, apply_diff_attribution, line_authors,
  first_authors, last_of,
}

-- One of the versions is by the author and has the line.
abbrev pub Wrote : List VersionEntry → Text → Text → Type 0
Wrote versions author line =
    (v : VersionEntry) × Memᴰ v versions
    × (creator_of v ≡ author)
    × ((k : ℕ) × (k < length (lines_of v)) × (get_or (lines_of v) k [] ≡ line))

get_or-set_self : (l : List Text) (i : ℕ) (a : Text) → i < length l → get_or (set l i a) i [] ≡ a
get_or-set_self [] i a h = absurd (omega arith)
get_or-set_self (x ∷ l) zero a h = refl
get_or-set_self (x ∷ l) (suc i) a h = get_or-set_self l i a (omega arith)

get_or-set_ne :
    (l : List Text) (i k : ℕ) (a : Text) → k ≢ i → get_or (set l i a) k [] ≡ get_or l k []
get_or-set_ne [] i k a h = refl
get_or-set_ne (x ∷ l) zero zero a h = absurd (h refl)
get_or-set_ne (x ∷ l) zero (suc k) a h = refl
get_or-set_ne (x ∷ l) (suc i) zero a h = refl
get_or-set_ne (x ∷ l) (suc i) (suc k) a h = get_or-set_ne l i k a (λ e. h (ap suc e))

get_or-replicate : (n k : ℕ) (a : Text) → k < n → get_or (replicate n a) k [] ≡ a
get_or-replicate zero k a h = absurd (omega arith)
get_or-replicate (suc n) zero a h = refl
get_or-replicate (suc n) (suc k) a h = get_or-replicate n k a (omega arith)

-- The authors of a list of lines, each justified by one of the versions.
record IsJustified (versions : List VersionEntry) (lines authors : List Text) : Type 0 where
  same_length : length authors ≡ length lines
  wrote : (k : ℕ) → k < length lines → Wrote versions (get_or authors k []) (get_or lines k [])

replicate-IsJustified :
    (versions : List VersionEntry) (v : VersionEntry)
    → Memᴰ v versions
    → IsJustified versions (lines_of v) (replicate (length (lines_of v)) (creator_of v))
replicate-IsJustified versions v m = record {
  same_length = length-replicate (length (lines_of v)) (creator_of v);
  wrote =
      λ k h. (v, m, sym (get_or-replicate (length (lines_of v)) k (creator_of v) h), (k, h, refl));
}

module _ (versions : List VersionEntry) (old new old_authors : List Text) (creator : Text)
    (justified : IsJustified versions old old_authors) where
  set-IsJustified :
      (o n : ℕ) (authors : List Text)
      → o < length old
      → get_or old o [] ≡ get_or new n []
      → n < length new
      → IsJustified versions new authors
      → IsJustified versions new (set authors n (or_else (get_elem? old_authors o) creator))
  set-IsJustified o n authors ho e hn j =
      let a = get_or old_authors o [] in
      let known : or_else (get_elem? old_authors o) creator ≡ a =
        ap (λ x. or_else x creator)
          (get_elem?-get_or old_authors o [] (omega (arith, justified.same_length))) in
      rw known (record {
        same_length = length-set authors n a ∙ j.same_length;
        wrote = λ k h. elim (ℕ_discrete k n) [
          | yes here ↦
              rw (here, get_or-set_self authors n a (omega (arith, j.same_length)), ← e)
                (justified.wrote o ho)
          | no elsewhere ↦ rw (get_or-set_ne authors n k a elsewhere) (j.wrote k h)
        ];
      })

  attribute-IsJustified :
      (matches : List (ℕ × ℕ)) (i k : ℕ) (authors : List Text)
      → IsFrom old new i k matches
      → IsJustified versions new authors
      → IsJustified versions new (attribute old_authors creator matches authors)
  unfolding attribute
  attribute-IsJustified [] i k authors m j = j
  attribute-IsJustified ((o, n) ∷ rest) i k authors (p, q, ho, hn, e, m) j =
      attribute-IsJustified rest (suc o) (suc n) _ m (set-IsJustified o n authors ho e hn j)

line_authors-IsJustified :
    (versions : List VersionEntry) (v : VersionEntry) (rest : List VersionEntry)
    (authors : List Text)
    → All (λ w. Memᴰ w versions) rest
    → IsJustified versions (lines_of v) authors
    → IsJustified versions (lines_of (last_of v rest)) (line_authors v rest authors)
unfolding line_authors last_of apply_diff_attribution
line_authors-IsJustified versions v [] authors m j = j
line_authors-IsJustified versions v (w ∷ rest) authors (m, ms) j =
    line_authors-IsJustified versions w rest _ ms (
      attribute-IsJustified versions (lines_of v) (lines_of w) authors (creator_of w) j
        (compute_lcs (lines_of v) (lines_of w)) 0 0 _ (compute_lcs-IsCommon _ _)
        (replicate-IsJustified versions w m))

Memᴰ-tail :
    (v : VersionEntry) (versions rest : List VersionEntry)
    → All (λ w. Memᴰ w versions) rest
    → All (λ w. Memᴰ w (v ∷ versions)) rest
Memᴰ-tail v versions [] m = tt
Memᴰ-tail v versions (w ∷ rest) (m, ms) = (Memᴰ.tail m, Memᴰ-tail v versions rest ms)

Memᴰ-self : (versions : List VersionEntry) → All (λ w. Memᴰ w versions) versions
Memᴰ-self [] = tt
Memᴰ-self (v ∷ versions) = (Memᴰ.head refl, Memᴰ-tail v versions versions (Memᴰ-self versions))

-- Every line of the last version is attributed to the creator of a version of the chain that has
-- that line.
pub line_authors-Wrote :
    (v : VersionEntry) (versions : List VersionEntry) (k : ℕ)
    → k < length (lines_of (last_of v versions))
    → Wrote
        (v ∷ versions)
        (get_or (line_authors v versions (first_authors v)) k [])
        (get_or (lines_of (last_of v versions)) k [])
unfolding first_authors
line_authors-Wrote v versions =
    (line_authors-IsJustified (v ∷ versions) v versions (first_authors v)
      (Memᴰ-self (v ∷ versions)).1 (replicate-IsJustified (v ∷ versions) v (Memᴰ.head refl))).wrote

-- The matches of a text with itself.
diagonal : ℕ → ℕ → List (ℕ × ℕ)
diagonal i zero = []
diagonal i (suc n) = (i, i) ∷ diagonal (suc i) n

module _ (lines : List Text) where
  diagonal-IsFrom : (i n : ℕ) → i + n ≤ length lines → IsFrom lines lines i i (diagonal i n)
  unfolding diagonal
  diagonal-IsFrom i zero h = tt
  diagonal-IsFrom i (suc n) h = (
    omega arith,
    omega arith,
    omega arith,
    omega arith,
    refl,
    diagonal-IsFrom (suc i) n (omega arith),
  )

  length-diagonal : (i n : ℕ) → length (diagonal i n) ≡ n
  unfolding diagonal
  length-diagonal i zero = refl
  length-diagonal i (suc n) = ap suc (length-diagonal (suc i) n)

  length-IsFrom :
      (ps : List (ℕ × ℕ)) (i k : ℕ)
      → i ≤ length lines
      → k ≤ length lines
      → IsFrom lines lines i k ps
      → (length ps + i ≤ length lines) × (length ps + k ≤ length lines)
  length-IsFrom [] i k hi hk m = (omega arith, omega arith)
  length-IsFrom ((o, n) ∷ ps) i k hi hk (p, q, r, s, e, m) =
      let (a, b) = length-IsFrom ps (suc o) (suc n) r s m in (omega arith, omega arith)

take-suc-set :
    (i : ℕ) (l : List Text) (a : Text)
    → i < length l
    → take (suc i) (set l i a) ≡ take i l ++ a ∷ []
take-suc-set i [] a h = absurd (omega arith)
take-suc-set zero (x ∷ l) a h = refl
take-suc-set (suc i) (x ∷ l) a h = ap (x ∷◌) (take-suc-set i l a (omega arith))

module _ (lines authors : List Text) (creator : Text)
    (same_length : length authors ≡ length lines) where
  attribute_all :
      (ps : List (ℕ × ℕ)) (i : ℕ) (result : List Text)
      → IsFrom lines lines i i ps
      → length ps + i ≡ length lines
      → length result ≡ length lines
      → attribute authors creator ps result ≡ take i result ++ drop i authors
  unfolding attribute
  attribute_all [] i result m full same = sym (
      ap₂ ◌++◌ (take_all i result (omega arith)) (drop_all i authors (omega arith))
      ∙ append-nil result)
  attribute_all ((o, n) ∷ ps) i result (p, q, r, s, e, m) full same =
      let (a, b) = length-IsFrom lines ps (suc o) (suc n) r s m in
      let eo : o ≡ i = omega arith in
      let en : n ≡ i = omega arith in
      let author = get_or authors i [] in
      let known : or_else (get_elem? authors o) creator ≡ author =
        ap (λ k. or_else (get_elem? authors k) creator) eo
        ∙ ap (λ x. or_else x creator) (get_elem?-get_or authors i [] (omega arith)) in
      ap₂ (λ k (a : Text). attribute authors creator ps (set result k a)) en known
      ∙ attribute_all ps (suc i) (set result i author)
          (subst₂ (λ x y. IsFrom lines lines (suc x) (suc y) ps) eo en m) (omega arith)
          (length-set result i author ∙ same)
      ∙ ap (◌++ drop (suc i) authors) (take-suc-set i result author (omega arith))
      ∙ append_assoc (take i result) (author ∷ []) (drop (suc i) authors)
      ∙ ap (take i result ++◌) (sym (drop-suc i authors [] (omega arith)))

  -- A version that changes nothing leaves every line with its author.
  pub apply_diff_attribution_same : apply_diff_attribution lines lines authors creator ≡ authors
  unfolding apply_diff_attribution
  apply_diff_attribution_same =
      let ps = compute_lcs lines lines in
      let common = compute_lcs-IsCommon lines lines in
      let n = length lines in
      let longest =
        length-le-compute_lcs lines lines (diagonal 0 n)
          (diagonal-IsFrom lines 0 n (omega arith)) in
      let (a, b) = length-IsFrom lines ps 0 0 (omega arith) (omega arith) common in
      attribute_all ps 0 (replicate n creator) common (omega (arith, length-diagonal lines 0 n))
        (length-replicate n creator)
