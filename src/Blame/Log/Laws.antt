-- ===== src/Blame/Log/Laws.antt =====
-- What an update leaves in the log.
use collab_editor.Prelude.{
  ℕ, ◌/◌, ◌≡◌, refl, sym, ◌⊎◌, inl, inr, List, [], ◌∷◌, ◌++◌, length, drop, take, take-append-drop,
  length-append, length-take, zero, suc, some, Bool, Bool-cases, arith, ap, ◌≤◌, ◌+◌, true, false,
  ◌∙◌,
}
use collab_editor.Blame.Log.{LiveBlameEntry, Stored, load_entries, log_update}

drop-append_last :
    (n : ℕ) (xs ys : List LiveBlameEntry) → n ≤ length xs → drop n (xs ++ ys) ≡ drop n xs ++ ys
drop-append_last zero xs ys h = refl
drop-append_last (suc n) [] ys h = absurd (omega arith)
drop-append_last (suc n) (x ∷ xs) ys h = drop-append_last n xs ys (omega arith)

-- What became of an entry, where the older half of the log is `dropped` and the newer one is `kept`:
-- it stands behind the whole log, if the storage takes that, or else behind the newer half, if the
-- storage takes that; and only if it takes neither the log stays as it was.
abbrev pub IsLogged :
    (List LiveBlameEntry → Bool)
    → LiveBlameEntry
    → Stored
    → List LiveBlameEntry
    → List LiveBlameEntry
    → Type 0
IsLogged fits entry stored dropped kept =
    ((fits (load_entries stored ++ entry ∷ []) ≡ true)
      × (log_update fits entry stored ≡ some (load_entries stored ++ entry ∷ [])))
    ⊎ ((fits (load_entries stored ++ entry ∷ []) ≡ false)
        × (((fits (kept ++ entry ∷ []) ≡ true)
              × (log_update fits entry stored ≡ some (kept ++ entry ∷ [])))
            ⊎ ((fits (kept ++ entry ∷ []) ≡ false) × (log_update fits entry stored ≡ stored))))

-- An update is logged behind the whole log, if the storage takes that, or else behind its newer half,
-- if the storage takes that; only if it takes neither the log stays as it was.
pub log_update_lem :
    (fits : List LiveBlameEntry → Bool) (entry : LiveBlameEntry) (stored : Stored)
    → (dropped kept : List LiveBlameEntry) × ((load_entries stored ≡ dropped ++ kept)
        × ((length dropped ≡ (length (load_entries stored) + 1) / 2)
            × IsLogged fits entry stored dropped kept))
unfolding log_update
log_update_lem fits entry stored =
    let old = load_entries stored in
    let all = old ++ entry ∷ [] in
    let n = length all / 2 in
    let size = length-append old (entry ∷ []) in
    let cut = drop-append_last n old (entry ∷ []) (omega (arith, size)) in
    let logged =
      elim (Bool-cases (fits all)) as (λ _. IsLogged fits entry stored (take n old) (drop n old)) [
        | inl whole ↦ inl (whole, rw (log_update, whole))
        | inr full ↦
            elim (Bool-cases (fits (drop n all)))
              as (λ _. IsLogged fits entry stored (take n old) (drop n old)) [
                | inl half ↦ inr (
                  full,
                  inl (sym (ap fits cut) ∙ half, rw (log_update, full, half) (ap some cut)),
                )
                | inr nothing ↦
                    inr (full, inr (sym (ap fits cut) ∙ nothing, rw (log_update, full, nothing)))
              ]
      ] in
    (
      take n old,
      drop n old,
      (sym (take-append-drop n old), (omega (arith, size, length-take n old), logged)),
    )
