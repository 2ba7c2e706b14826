-- ===== src/Comments/Anchors/Laws.antt =====
-- Anchors resolve to ranges of the text, and orphans are the threads whose text is gone.
use collab_editor.Prelude.{
  ℕ, ◌+◌, ◌≤◌, ◌≡◌, ◌≢◌, ◌↔◌, refl, ap, ◌∙◌, sym, inl, inr, true, false, ◌++◌, Option, none, some,
  arith, length, Text, slice, index_of, Option-cases, Bool-cases,
}
use collab_editor.Prelude.Search.{index_of_found, index_of-append, length-split, slice-middle}
use collab_editor.Prelude.Maps.{lookup}
use collab_editor.Interfaces.{CommentAnchor, ℤ, pos, negsuc}
use collab_editor.Comments.{StoredThread, CommentEngine}
use collab_editor.Comments.Anchors.{
  Range, relative_range, fallback_range, resolve_anchor, is_thread_orphaned, is_empty, nonempty_of,
  min_ℤ, max_ℤ,
}

abbrev from_or : ℕ → Option Range → ℕ
from_or n none = n
from_or n (some r) = r.from

abbrev to_or : ℕ → Option Range → ℕ
to_or n none = n
to_or n (some r) = r.to

-- A range lies in the text.
abbrev pub IsInside : Text → Range → Type 0
IsInside content r = (r.from ≤ r.to) × (r.to ≤ length content)

clamped_bounds :
    (low len : ℕ) (z : ℤ)
    → low ≤ len
    → (low ≤ max_ℤ low (min_ℤ z len)) × (max_ℤ low (min_ℤ z len) ≤ len)
clamped_bounds low len (pos n) h = (omega arith, omega arith)
clamped_bounds low len (negsuc n) h = (omega arith, omega arith)

module _ (offset_of : Text → Option ℕ) where
  relative_range-IsInside :
      (content : Text) (t : StoredThread) (r : Range)
      → relative_range offset_of content t ≡ some r
      → IsInside content r
  unfolding relative_range
  relative_range-IsInside content t r h = elim (Option-cases (nonempty_of t.start_rel)) [
    | inl no_start ↦ let nothing = rw (no_start, relative_range) at h in ground (arith, nothing)
    | inr (s, start_rel) ↦
        let h1 = rw (start_rel, relative_range) at h in
        elim (Option-cases (nonempty_of t.end_rel)) [
          | inl no_end ↦ let nothing = rw no_end at h1 in ground (arith, nothing)
          | inr (d, end_rel) ↦
              let h2 = rw end_rel at h1 in
              elim (Option-cases (offset_of s)) [
                | inl lost ↦ let nothing = rw lost at h2 in ground (arith, nothing)
                | inr (from, at_from) ↦
                    let h3 = rw at_from at h2 in
                    elim (Option-cases (offset_of d)) [
                      | inl lost ↦ let nothing = rw lost at h3 in ground (arith, nothing)
                      | inr (to, at_to) ↦ let h4 = rw at_to at h3 in ground (arith, h4)
                    ]
              ]
        ]
  ]

  fallback_range-IsInside :
      (content : Text) (anchor : CommentAnchor) (r : Range)
      → fallback_range offset_of content anchor ≡ some r
      → IsInside content r
  unfolding fallback_range
  fallback_range-IsInside content anchor r h = elim (Bool-cases (is_empty anchor.quoted_text)) [
    | inl empty ↦
        let clamped = rw (empty, fallback_range) at h in
        let first = clamped_bounds 0 (length content) anchor.start (omega arith) in
        let start = max_ℤ 0 (min_ℤ anchor.start (length content)) in
        let second = clamped_bounds start (length content) anchor.end first.1 in
        let at_from : start ≡ r.from = ap (from_or 0) clamped in
        let at_to : max_ℤ start (min_ℤ anchor.end (length content)) ≡ r.to = ap (to_or 0) clamped in
        (rw (sym at_from, sym at_to) second.0, rw (sym at_to) second.1)
    | inr quoted ↦
        let h1 = rw (quoted, fallback_range) at h in
        elim (Option-cases (index_of anchor.quoted_text content)) [
          | inl gone ↦ let nothing = rw gone at h1 in ground (arith, nothing)
          | inr (i, found) ↦
              let (a, b, (split, size)) = index_of_found anchor.quoted_text content i found in
              let total : length content ≡ length a + (length anchor.quoted_text + length b) =
                ap length split ∙ length-split a anchor.quoted_text b in
              let h2 = rw found at h1 in ground (arith, h2, total, size)
        ]
  ]

  -- A thread resolves to a range of the text, whatever Yjs says of its relative positions and
  -- whatever its offsets are, negative ones included.
  pub resolve_anchor-IsInside :
      (content : Text) (t : StoredThread) (r : Range)
      → resolve_anchor offset_of content t ≡ some r
      → IsInside content r
  unfolding resolve_anchor
  resolve_anchor-IsInside content t r h = elim (Option-cases (relative_range offset_of content t)) [
    | inl lost ↦ fallback_range-IsInside content t.anchor r (rw (lost, resolve_anchor) at h)
    | inr (q, found) ↦
        let same = rw (found, resolve_anchor) at h in
        relative_range-IsInside content t r (found ∙ same)
  ]

  -- Where a thread has no relative positions that resolve and quotes some text, it resolves to a
  -- range that reads as the quoted text.
  pub slice-resolve_anchor :
      (content : Text) (t : StoredThread) (r : Range)
      → relative_range offset_of content t ≡ none
      → is_empty t.anchor.quoted_text ≡ false
      → resolve_anchor offset_of content t ≡ some r
      → slice r.from r.to content ≡ t.anchor.quoted_text
  unfolding resolve_anchor fallback_range
  slice-resolve_anchor content t r lost quoted h =
      let h1 = rw (lost, resolve_anchor) at h in
      let h2 = rw (quoted, fallback_range) at h1 in
      elim (Option-cases (index_of t.anchor.quoted_text content)) [
        | inl gone ↦ let nothing = rw gone at h2 in ground (arith, nothing)
        | inr (i, found) ↦
            let (a, b, (split, size)) = index_of_found t.anchor.quoted_text content i found in
            let h3 = rw found at h2 in
            let at_i : r.from ≡ i = ground (arith, h3) in
            let to_end : r.to ≡ i + length t.anchor.quoted_text = ground (arith, h3) in
            rw split (
              slice-middle a t.anchor.quoted_text b r.from r.to (size ∙ sym at_i)
                (ap (λ n. n + length t.anchor.quoted_text) size ∙ sym to_end))
      ]

-- A thread is orphaned exactly when it quotes some text that stands nowhere in the content.
abbrev pub IsLost : Text → StoredThread → Type 0
IsLost content t =
    (is_empty t.anchor.quoted_text ≡ false)
    × ((a b : Text) → content ≢ a ++ (t.anchor.quoted_text ++ b))

pub is_thread_orphaned-IsLost :
    (content thread_id : Text) (t : StoredThread) (e : CommentEngine)
    → lookup thread_id e.ymap ≡ some t
    → (is_thread_orphaned content thread_id e ≡ true) ↔ IsLost content t
unfolding is_thread_orphaned
is_thread_orphaned-IsLost content thread_id t e there =
    elim (Bool-cases (is_empty t.anchor.quoted_text)) [
      | inl empty ↦ rw (there, is_thread_orphaned, IsLost) (rw (empty, IsLost) (ground arith))
      | inr quoted ↦
          rw (there, is_thread_orphaned, IsLost)
            (rw (quoted, IsLost)
              (elim (Option-cases (index_of t.anchor.quoted_text content)) [
                | inl gone ↦ rw gone (
                  (λ _. (
                    refl,
                    λ a b split.
                        index_of-append a t.anchor.quoted_text b
                          (sym (ap (index_of t.anchor.quoted_text) split) ∙ gone),
                  )),
                  λ _. refl,
                )
                | inr (i, found) ↦
                    let (a, b, (split, size)) =
                      index_of_found t.anchor.quoted_text content i found in
                    rw found ((λ h. ground (arith, h)), λ lost. ground (arith, lost.1 a b split))
              ]))
    ]
