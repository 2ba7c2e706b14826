-- ===== src/VersionHistory/Coordinator/Laws.antt =====
-- The coordinator, its editor and its callbacks agree.
use collab_editor.Prelude.{
  ◌≡◌, refl, inl, inr, Bool, true, false, not, ◌||◌, List, [], ◌∷◌, Option, none, some,
  if◌then◌else◌, Bool-cases, Option-cases,
}
use collab_editor.Diff.Lines.{DiffLine}
use collab_editor.VersionHistory.Manager.{diff_versions, VersionEntry, VersionListEntry, or_else}
use collab_editor.VersionHistory.Manager.Laws.{revert_to_version_lem}
use collab_editor.VersionHistory.Coordinator.{
  Session, VersionCoordinator, Event, attached, detached, panel_toggled, panel_closed, diff_cleared,
  loaded, created, saved, selected, viewed, reverted, compared, step, run, set_versions, set_diff,
  set_selected, set_panel_open, exit_version_view, detach, attach, add_version, toggle_panel,
  close_panel, save, select, view, revert, diff, clear_diff, revert_session,
}

-- What the callbacks were told is what the coordinator holds, and the editor is read-only while a
-- version is viewed or where it is configured to be.
abbrev pub Agrees : VersionCoordinator → Session → Type 0
Agrees c s =
    (s.told.versions ≡ c.versions)
    × ((s.told.selected_version ≡ c.selected_version)
        × ((s.told.diff_result ≡ c.diff_result)
            × ((s.told.viewing_version ≡ c.viewing_version)
                × (s.editor.readonly ≡ (c.viewing_version || c.readonly)))))

abbrev AgreesWith : VersionCoordinator → Option Session → Type 0
AgreesWith c none = c.viewing_version ≡ false
AgreesWith c (some s) = Agrees c s

-- Without a session no version is viewed; with one, the session agrees.
abbrev pub IsInSync : VersionCoordinator → Type 0
IsInSync c = AgreesWith c c.session

set_versions-IsInSync :
    (v : List VersionListEntry) (c : VersionCoordinator) → IsInSync c → IsInSync (set_versions v c)
unfolding set_versions
set_versions-IsInSync v c h = elim (Option-cases c.session) [
  | inl gone ↦ let k = rw gone at h in rw gone k
  | inr (s, here) ↦ let k = rw here at h in rw here (refl, k.1)
]

set_diff-IsInSync :
    (d : Option (List DiffLine)) (c : VersionCoordinator) → IsInSync c → IsInSync (set_diff d c)
unfolding set_diff
set_diff-IsInSync d c h = elim (Option-cases c.session) [
  | inl gone ↦ let k = rw gone at h in rw gone k
  | inr (s, here) ↦ let k = rw here at h in rw here (k.0, (k.1.0, (refl, k.1.1.1)))
]

set_selected-IsInSync :
    (v : VersionEntry) (c : VersionCoordinator) → IsInSync c → IsInSync (set_selected v c)
unfolding set_selected
set_selected-IsInSync v c h = elim (Option-cases c.session) [
  | inl gone ↦ let k = rw gone at h in rw gone k
  | inr (s, here) ↦ let k = rw here at h in rw here (k.0, (refl, k.1.1))
]

set_panel_open-IsInSync :
    (b : Bool) (c : VersionCoordinator) → IsInSync c → IsInSync (set_panel_open b c)
unfolding set_panel_open
set_panel_open-IsInSync b c h = elim (Option-cases c.session) [
  | inl gone ↦ let k = rw gone at h in rw gone k
  | inr (s, here) ↦ let k = rw here at h in rw here k
]

revert_session-IsInSync :
    (v : VersionEntry) (c : VersionCoordinator) → IsInSync c → IsInSync (revert_session v c)
revert_session-IsInSync v c h = elim (Option-cases c.session) [
  | inl gone ↦ let k = rw gone at h in rw gone k
  | inr (s, here) ↦ let k = rw here at h in rw here k
]

exit_version_view-IsInSync : (c : VersionCoordinator) → IsInSync c → IsInSync (exit_version_view c)
unfolding exit_version_view
exit_version_view-IsInSync c h = elim (Bool-cases c.viewing_version) [
  | inr live ↦ rw (exit_version_view, live) (rw live at h)
  | inl viewing ↦ elim (Option-cases c.session) [
    | inl gone ↦ rw (exit_version_view, viewing, gone) refl
    | inr (s, here) ↦
        let k = rw here at h in
        rw (exit_version_view, viewing, here) (k.0, (refl, (k.1.1.0, (refl, refl))))
  ]
]

view-IsInSync :
    (v : VersionEntry) (c : VersionCoordinator) → IsInSync c → IsInSync (view (some v) c)
unfolding view
view-IsInSync v c h = elim (Option-cases c.session) [
  | inl gone ↦ rw (view, gone) h
  | inr (s, here) ↦ let k = rw here at h in rw (view, here) (k.0, (refl, (k.1.1.0, (refl, refl))))
]

if-IsInSync :
    (b : Bool) (c d : VersionCoordinator) → IsInSync c → IsInSync d → IsInSync (if b then c else d)
if-IsInSync true c d h k = h
if-IsInSync false c d h k = k

step-IsInSync : (e : Event) (c : VersionCoordinator) → IsInSync c → IsInSync (step e c)
unfolding step attach detach toggle_panel close_panel clear_diff add_version save select view revert
    diff
step-IsInSync (attached shown source config now p b r) c h = (refl, (refl, (refl, (refl, refl))))
step-IsInSync detached c h = refl
step-IsInSync panel_toggled c h =
    let toggled = set_panel_open-IsInSync (not c.panel_open) c h in
    let moved = set_panel_open (not c.panel_open) c in
    if-IsInSync (not c.panel_open) moved _ toggled (
      if-IsInSync c.viewing_version (exit_version_view moved) moved
        (exit_version_view-IsInSync moved toggled) toggled)
step-IsInSync panel_closed c h =
    let closed = set_panel_open-IsInSync false c h in
    let moved = set_panel_open false c in
    if-IsInSync c.viewing_version (exit_version_view moved) moved
      (exit_version_view-IsInSync moved closed) closed
step-IsInSync diff_cleared c h = set_diff-IsInSync none c h
step-IsInSync (loaded versions) c h = set_versions-IsInSync versions c h
step-IsInSync (created entry) c h = set_versions-IsInSync (entry ∷ c.versions) c h
step-IsInSync (saved none) c h = h
step-IsInSync (saved (some entry)) c h = set_versions-IsInSync (entry ∷ c.versions) c h
step-IsInSync (selected none) c h = h
step-IsInSync (selected (some v)) c h = set_selected-IsInSync v c h
step-IsInSync (viewed none) c h = h
step-IsInSync (viewed (some v)) c h = view-IsInSync v c h
step-IsInSync (reverted none) c h = h
step-IsInSync (reverted (some v)) c h =
    revert_session-IsInSync v (exit_version_view c) (exit_version_view-IsInSync c h)
step-IsInSync (compared none to) c h = h
step-IsInSync (compared (some from) none) c h = h
step-IsInSync (compared (some from) (some to)) c h =
    set_diff-IsInSync (some (diff_versions from to)) c h

-- After any calls and replies: the callbacks were told what the coordinator holds, and the editor is
-- read-only exactly while a version is viewed or where it is configured to be.
pub run-IsInSync : (es : List Event) (c : VersionCoordinator) → IsInSync c → IsInSync (run es c)
unfolding run
run-IsInSync [] c h = h
run-IsInSync (e ∷ es) c h = run-IsInSync es (step e c) (step-IsInSync e c h)

-- A revert to a version ends the view of any version, and the document then holds the content of
-- that version.
pub revert_lem :
    (v : VersionEntry) (c : VersionCoordinator) (s : Session)
    → c.session ≡ some s
    → ((revert (some v) c).viewing_version ≡ false)
      × ((s' : Session) × (((revert (some v) c).session ≡ some s')
            × (s'.manager.source ≡ or_else v.content [])))
unfolding revert exit_version_view
revert_lem v c s here = elim (Bool-cases c.viewing_version) [
  | inl viewing ↦
      rw (exit_version_view, viewing, here)
        (refl, (_, (refl, (revert_to_version_lem v s.manager).0)))
  | inr live ↦
      rw (exit_version_view, live, here) (refl, (_, (refl, (revert_to_version_lem v s.manager).0)))
]
