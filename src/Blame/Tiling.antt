-- ===== src/Blame/Tiling.antt =====
-- Segments that tile a text, and the author of each of its code units.
use collab_editor.Prelude.{
  Bool-cases, inl, inr, ◌&&◌, ap₂, ℕ, zero, suc, ◌+◌, ◌-◌, ◌≤◌, ◌<◌, ◌≡◌, ◌≢◌, refl, sym, ap, ◌∙◌,
  List, [], ◌∷◌, ◌++◌, append_assoc, append-nil, arith, Text, text_eq, text_eq_iff, ◌==◌, replicate,
}
use collab_editor.Blame.{BlameSegment, push_run}

-- The segments follow one another without gap or overlap, from `from` to `to`, and neighbours are by
-- different users.
abbrev pub Tiles : ℕ → List BlameSegment → ℕ → Type 0
Tiles from [] to = from ≡ to
Tiles from (s ∷ []) to = (s.start ≡ from) × (s.start ≤ s.end) × (s.end ≡ to)
Tiles from (s ∷ t ∷ rest) to =
    (s.start ≡ from) × (s.start ≤ s.end) × (s.user_name ≢ t.user_name) × Tiles s.end (t ∷ rest) to

-- The author of each code unit.
abbrev pub authors_of : List BlameSegment → List Text
authors_of [] = []
authors_of (s ∷ rest) = replicate (s.end - s.start) s.user_name ++ authors_of rest

-- No segment is empty.
abbrev pub NoneEmpty : List BlameSegment → Type 0
NoneEmpty [] = Unit
NoneEmpty (s ∷ rest) = (s.start < s.end) × NoneEmpty rest

replicate-add : (m n : ℕ) (a : Text) → replicate (m + n) a ≡ replicate m a ++ replicate n a
replicate-add zero n a = let e : 0 + n ≡ n = omega arith in rw e
replicate-add (suc m) n a =
    let e : suc m + n ≡ suc (m + n) = omega arith in rw e (ap (a ∷◌) (replicate-add m n a))

module _ (offset len : ℕ) (user_name : Text) where
  pub push_run-Tiles :
      (from : ℕ) (segments : List BlameSegment)
      → Tiles from segments offset
      → Tiles from (push_run segments offset len user_name) (offset + len)
  unfolding push_run
  push_run-Tiles from [] h = (sym h, omega arith, refl)
  push_run-Tiles from (s ∷ []) h = ground (arith, text_eq_iff s.user_name user_name)
  push_run-Tiles from (s ∷ t ∷ []) (p, q, r, h) =
      ground (arith, push_run-Tiles s.end (t ∷ []) h, text_eq_iff t.user_name user_name)
  push_run-Tiles from (s ∷ t ∷ u ∷ rest) (p, q, r, h) =
      (p, q, r, push_run-Tiles s.end (t ∷ u ∷ rest) h)

  pub authors_of-push_run :
      (from : ℕ) (segments : List BlameSegment)
      → Tiles from segments offset
      → authors_of (push_run segments offset len user_name)
        ≡ authors_of segments ++ replicate len user_name
  unfolding push_run
  authors_of-push_run from [] h =
      let e : offset + len - offset ≡ len = omega arith in rw e (append-nil _)
  authors_of-push_run from (s ∷ []) (p, q, r) =
      let old = replicate (s.end - s.start) s.user_name in
      let e : offset + len - offset ≡ len = omega arith in
      let f : s.end + len - s.start ≡ s.end - s.start + len = omega arith in
      elim (Bool-cases (text_eq s.user_name user_name && s.end == offset)) [
        | inl same ↦
            let same_user : s.user_name ≡ user_name =
              ground (arith, text_eq_iff s.user_name user_name) in
            rw (same, f)
              (append-nil _
                ∙ replicate-add (s.end - s.start) len s.user_name
                ∙ ap₂ (λ (a : Text) (l : List Text). l ++ replicate len a) same_user
                    (sym (append-nil old)))
        | inr other ↦
            rw (other, e)
              (ap (old ++◌) (append-nil _)
                ∙ ap (◌++ replicate len user_name) (sym (append-nil old)))
      ]
  authors_of-push_run from (s ∷ t ∷ rest) (p, q, r, h) =
      ap (replicate (s.end - s.start) s.user_name ++◌) (authors_of-push_run s.end (t ∷ rest) h)
      ∙ sym (append_assoc (replicate (s.end - s.start) s.user_name) (authors_of (t ∷ rest)) _)

  pub push_run-NoneEmpty :
      (segments : List BlameSegment)
      → 0 < len
      → NoneEmpty segments
      → NoneEmpty (push_run segments offset len user_name)
  unfolding push_run
  push_run-NoneEmpty [] p h = omega arith
  push_run-NoneEmpty (s ∷ []) p h = ground arith
  push_run-NoneEmpty (s ∷ t ∷ rest) p (q, h) = (q, push_run-NoneEmpty (t ∷ rest) p h)
