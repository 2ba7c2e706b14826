-- ===== src/VersionHistory/Manager/Laws.antt =====
-- When the manager takes snapshots, and what a revert posts.
use collab_editor.Prelude.{
  ℕ, suc, ◌+◌, ◌<◌, ◌≡◌, refl, sym, ap, ◌∙◌, ◌⊎◌, inl, inr, true, false, List, [], ◌∷◌, ◌++◌,
  Option, some, Text, text, text_eq_iff, arith,
}
use mathlib.Core.Path.{subst}
use collab_editor.VersionHistory.Manager.{
  VersionType, auto, manual, VersionEntry, VersionManager, Post, Event, edited, ticked, auto_reply,
  create, create_reply, revert, destroyed_by, step, run, threshold, auto_snapshot, set_update_count,
  set_source, observe_update, check_time, snapshot_replied, create_version, version_replied,
  replace_source, revert_to_version, destroy, or_else, name_of, auto_post, manual_post,
}

-- The auto-snapshots among the posts.
abbrev pub auto_posts : List Post → ℕ
auto_posts [] = 0
auto_posts (p ∷ ps) = elim p.version_type [ auto ↦ suc (auto_posts ps) | manual ↦ auto_posts ps ]

abbrev pub in_flight : VersionManager → ℕ
in_flight m = elim m.snapshot_in_flight [ true ↦ 1 | false ↦ 0 ]

-- The replies to auto-snapshots in a run.
abbrev pub answered : Event → VersionManager → ℕ
answered (edited s) m = 0
answered (ticked now) m = 0
answered (auto_reply now) m = in_flight m
answered (create label creator) m = 0
answered (create_reply ok now) m = 0
answered (revert v) m = 0
answered destroyed_by m = 0

abbrev pub replies : List Event → VersionManager → ℕ
replies [] m = 0
replies (e ∷ es) m = answered e m + replies es (step e m)

auto_posts-append :
    (ps : List Post) (p : Post) → auto_posts (ps ++ p ∷ []) ≡ auto_posts ps + auto_posts (p ∷ [])
auto_posts-append [] p = omega arith
auto_posts-append (q ∷ ps) p = elim (type_cases q.version_type) [
  | inl e ↦ rw e (omega (arith, auto_posts-append ps p))
  | inr e ↦ rw e (auto_posts-append ps p)
]
  where
    type_cases : (t : VersionType) → (t ≡ auto) ⊎ (t ≡ manual)
    type_cases auto = inl refl
    type_cases manual = inr refl

-- Every auto-snapshot that was posted was answered or is in flight.
abbrev Balanced : VersionManager → VersionManager → Type 0
Balanced m m' = auto_posts m'.posted + in_flight m ≡ auto_posts m.posted + in_flight m'

auto_snapshot-Balanced : (m : VersionManager) → Balanced m (auto_snapshot m)
unfolding auto_snapshot
auto_snapshot-Balanced m = ground (arith, auto_posts-append m.posted (auto_post m))

observe_update-Balanced : (m : VersionManager) → Balanced m (observe_update m)
unfolding observe_update set_update_count
observe_update-Balanced m =
    ground (arith, auto_snapshot-Balanced (set_update_count (m.update_count + 1) m))

create_version-Balanced :
    (label creator : Option Text) (m : VersionManager) → Balanced m (create_version label creator m)
unfolding create_version
create_version-Balanced label creator m =
    omega (arith, auto_posts-append m.posted (manual_post label creator m))

check_time-Balanced : (now : ℕ) (m : VersionManager) → Balanced m (check_time now m)
unfolding check_time set_update_count
check_time-Balanced now m = ground (arith, auto_snapshot-Balanced m)

replace_source-Balanced : (s : Text) (m : VersionManager) → Balanced m (replace_source s m)
unfolding replace_source set_source
replace_source-Balanced s m = ground (arith, observe_update-Balanced (set_source s m))

revert_to_version-Balanced :
    (v : VersionEntry) (m : VersionManager) → Balanced m (revert_to_version v m)
unfolding revert_to_version
revert_to_version-Balanced v m =
    let replaced = replace_source (or_else v.content []) m in
    let label = some (text "Reverted to " ++ name_of v.entry) in
    omega (
      arith,
      replace_source-Balanced (or_else v.content []) m,
      create_version-Balanced label m.config.user_name replaced,
    )

step_balanced :
    (e : Event) (m : VersionManager)
    → auto_posts (step e m).posted + in_flight m
      ≡ auto_posts m.posted + (in_flight (step e m) + answered e m)
unfolding step set_source snapshot_replied version_replied destroy
step_balanced (edited s) m = omega (arith, observe_update-Balanced (set_source s m))
step_balanced (ticked now) m = omega (arith, check_time-Balanced now m)
step_balanced (auto_reply now) m = ground arith
step_balanced (create label creator) m = omega (arith, create_version-Balanced label creator m)
step_balanced (create_reply true now) m = omega arith
step_balanced (create_reply false now) m = omega arith
step_balanced (revert v) m = omega (arith, revert_to_version-Balanced v m)
step_balanced destroyed_by m = omega arith

-- Whatever happens to a manager: each auto-snapshot it posts was answered or is the one in flight,
-- so that no two of them wait for their replies at once.
pub run_balanced :
    (es : List Event) (m : VersionManager)
    → auto_posts (run es m).posted + in_flight m
      ≡ auto_posts m.posted + (in_flight (run es m) + replies es m)
unfolding run
run_balanced [] m = omega arith
run_balanced (e ∷ es) m = omega (arith, step_balanced e m, run_balanced es (step e m))

step_config : (e : Event) (m : VersionManager) → (step e m).config ≡ m.config
unfolding step observe_update check_time snapshot_replied version_replied destroy set_source
    set_update_count auto_snapshot create_version revert_to_version replace_source
step_config (edited s) m = ground arith
step_config (ticked now) m = ground arith
step_config (auto_reply now) m = ground arith
step_config (create label creator) m = refl
step_config (create_reply true now) m = refl
step_config (create_reply false now) m = refl
step_config (revert v) m = ground arith
step_config destroyed_by m = refl

step_count :
    (e : Event) (m : VersionManager)
    → m.update_count < threshold m.config
    → (step e m).update_count < threshold m.config
unfolding step observe_update check_time snapshot_replied version_replied destroy set_source
    set_update_count auto_snapshot create_version revert_to_version replace_source
step_count (edited s) m h = ground (arith, h)
step_count (ticked now) m h = ground (arith, h)
step_count (auto_reply now) m h = ground (arith, h)
step_count (create label creator) m h = h
step_count (create_reply true now) m h = h
step_count (create_reply false now) m h = h
step_count (revert v) m h = ground (arith, h)
step_count destroyed_by m h = h

-- The count of updates since the last auto-snapshot stays below the threshold, if it is.
pub run_count :
    (es : List Event) (m : VersionManager)
    → m.update_count < threshold m.config
    → (run es m).update_count < threshold m.config
unfolding run
run_count [] m h = h
run_count (e ∷ es) m h =
    let same = step_config e m in
    subst (λ c. (run es (step e m)).update_count < threshold c) same
      (run_count es (step e m)
        (subst (λ c. (step e m).update_count < threshold c) (sym same) (step_count e m h)))

replaced :
    (s : Text) (m : VersionManager)
    → ((replace_source s m).source ≡ s)
      × (((replace_source s m).config ≡ m.config)
          × ((m.destroyed ≡ true)
              → ((replace_source s m).destroyed ≡ true) × ((replace_source s m).posted ≡ m.posted)))
unfolding replace_source observe_update set_source set_update_count auto_snapshot
replaced s m = (
  ground (arith, text_eq_iff m.source [], text_eq_iff s []),
  (ground arith, λ h. (ground (arith, h), ground (arith, h))),
)

step_destroyed :
    (e : Event) (m : VersionManager)
    → m.destroyed ≡ true
    → ((step e m).destroyed ≡ true) × (auto_posts (step e m).posted ≡ auto_posts m.posted)
unfolding step observe_update check_time snapshot_replied version_replied destroy set_source
    set_update_count auto_snapshot create_version revert_to_version replace_source
step_destroyed (edited s) m h = (ground (arith, h), ground (arith, h))
step_destroyed (ticked now) m h = (ground (arith, h), ground (arith, h))
step_destroyed (auto_reply now) m h = (ground (arith, h), ground (arith, h))
step_destroyed (create label creator) m h =
    (h, omega (arith, auto_posts-append m.posted (manual_post label creator m)))
step_destroyed (create_reply true now) m h = (h, refl)
step_destroyed (create_reply false now) m h = (h, refl)
step_destroyed (revert v) m h =
    let s = or_else v.content [] in
    let kept = (replaced s m).1.1 h in
    let label = some (text "Reverted to " ++ name_of v.entry) in
    let post = manual_post label m.config.user_name (replace_source s m) in
    (
      kept.0,
      omega (arith, auto_posts-append (replace_source s m).posted post, ap auto_posts kept.1),
    )
step_destroyed destroyed_by m h = (refl, refl)

-- Once it is destroyed, a manager posts no auto-snapshot any more, whatever is in flight or set.
pub run_destroyed :
    (es : List Event) (m : VersionManager)
    → m.destroyed ≡ true
    → auto_posts (run es m).posted ≡ auto_posts m.posted
unfolding run
run_destroyed [] m h = refl
run_destroyed (e ∷ es) m h =
    let (gone, same) = step_destroyed e m h in run_destroyed es (step e m) gone ∙ same

-- A revert leaves the version's content in the document and posts that content, last, as a manual
-- version that names the version it goes back to.
pub revert_to_version_lem :
    (v : VersionEntry) (m : VersionManager)
    → ((revert_to_version v m).source ≡ or_else v.content [])
      × ((before : List Post) × ((revert_to_version v m).posted
            ≡ before
              ++ record {
                content = or_else v.content [];
                version_type = manual;
                label = some (text "Reverted to " ++ name_of v.entry);
                creator = or_else m.config.user_name (text "unknown");
              }
                ∷ []))
unfolding revert_to_version create_version
revert_to_version_lem v m =
    let s = or_else v.content [] in
    let (source, (config, kept)) = replaced s m in
    (
      source,
      (
        (replace_source s m).posted,
        rw (source, config)
            (ap
              (λ (creator : Text).
                (replace_source s m).posted
                ++ record {
                  content = s;
                  version_type = manual;
                  label = some (text "Reverted to " ++ name_of v.entry);
                  creator = creator;
                }
                  ∷ [])
              (ground arith)),
      ),
    )
