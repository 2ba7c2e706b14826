-- ===== src/Blame/Coordinator/Laws.antt =====
-- Live blame is fresh whenever the document rests.
use collab_editor.Prelude.{
  ℕ, ◌≡◌, refl, sym, ◌∙◌, inl, inr, Bool, true, false, not, List, [], ◌∷◌, Option, none, some,
  if◌then◌else◌, if-holds, Bool-cases, arith, Text,
}
use collab_editor.Blame.{BlameSegment}
use collab_editor.Blame.Log.{
  LiveBlameEntry, Stored, Capture, capture, start_live_blame, stop_live_blame,
}
use collab_editor.Blame.Coordinator.{
  nothing, segments, Session, BlameConfig, BlameCoordinator, is_enabled, on_session, show,
  timer_without_observer, stop_blame, start_session, start_blame, detach, attach, toggle, push,
  on_mode_switch, doc_updated, timer_fired, Event, attached, detached, mode_switched, fired,
  toggled, updated, step, run,
}

capture-observing :
    (fits : List LiveBlameEntry → Bool) (origin local : Option Text) (now : ℕ) (c : Capture)
    → (capture fits origin local now c).observing ≡ c.observing
unfolding capture
capture-observing fits origin local now c = elim (Bool-cases c.observing) [
  | inl on ↦ rw (on) refl
  | inr off ↦ rw (off) refl
]

module _ (Doc : Type 0) (live_blame : Doc → List BlameSegment) where
  -- Of the document, the observer, the active state, the timer and the session: without a session
  -- there is neither an observer nor a timer.
  abbrev pub Follows : Doc → Bool → Bool → Bool → Option Session → Type 0
  Follows doc observing active pending none = (observing ≡ false) × (pending ≡ false)
  Follows doc observing active pending (some s) =
      (observing ≡ active)
      × ((s.capture.observing ≡ active)
          × (((active ≡ true) → (pending ≡ false) → s.shown ≡ segments (live_blame doc))
              × (((active ≡ false) → s.shown ≡ nothing) × ((pending ≡ true) → active ≡ true))))

  -- In a session the engine and the coordinator listen while blame is active; the editor then shows
  -- the blame of the document as it is, unless the timer is set, and else nothing.
  abbrev pub IsFollowing : BlameCoordinator Doc live_blame → Type 0
  IsFollowing c = Follows c.doc c.observing c.active c.pending c.session

  show-Follows :
      (doc : Doc) (observing active pending : Bool) (o : Option Session)
      → active ≡ true
      → Follows doc observing active pending o
      → Follows doc observing active pending
          (on_session Doc live_blame (show Doc live_blame (segments (live_blame doc))) o)
  show-Follows doc observing active pending none on h = h
  show-Follows doc observing active pending (some s) on (listens, (logs, (fresh, (hidden, set)))) =
      (listens, (logs, ((λ on rests. refl), ((λ off. absurd (ground (arith, on, off))), set))))

  rest-Follows :
      (doc : Doc) (observing active pending : Bool) (o : Option Session)
      → active ≡ true
      → Follows doc observing active pending o
      → Follows doc observing active false
          (on_session Doc live_blame (show Doc live_blame (segments (live_blame doc))) o)
  rest-Follows doc observing active pending none on (unobserved, unset) = (unobserved, refl)
  rest-Follows doc observing active pending (some s) on (listens, (logs, (fresh, (hidden, set)))) =
      (
        listens,
        (logs, ((λ on rests. refl), ((λ off. absurd (ground (arith, on, off))), λ set. on))),
      )

  fired-active :
      (doc : Doc) (observing active pending : Bool) (o : Option Session)
      → pending ≡ true
      → Follows doc observing active pending o
      → active ≡ true
  fired-active doc observing active pending none due (unobserved, unset) =
      absurd (ground (arith, due, unset))
  fired-active doc observing active pending (some s) due (listens, (logs, (fresh, (hidden, set)))) =
      set due

  timer-Follows :
      (doc : Doc) (observing active pending : Bool) (o : Option Session)
      → Follows doc observing active pending o
      → (if observing then false else pending) ≡ false
  timer-Follows doc observing active pending none (unobserved, unset) = rw unobserved unset
  timer-Follows doc true active pending (some s) h = refl
  timer-Follows doc false active true (some s) (listens, (logs, (fresh, (hidden, set)))) =
      sym (listens ∙ set refl)
  timer-Follows doc false active false (some s) h = refl

  stop-Follows :
      (doc : Doc) (pending : Bool) (o : Option Session)
      → pending ≡ false
      → Follows doc false false pending (
          on_session Doc live_blame
            (λ s. record { shown = nothing; capture = stop_live_blame s.capture })
            o)
  unfolding stop_live_blame
  stop-Follows doc pending none unset = (refl, unset)
  stop-Follows doc pending (some s) unset = (
    refl,
    (
      refl,
      (
        (λ on rests. absurd (ground (arith, on))),
        ((λ off. refl), λ set. absurd (ground (arith, set, unset))),
      ),
    ),
  )

  none-Follows :
      (doc : Doc) (observing active pending : Bool) (o : Option Session)
      → o ≡ none
      → Follows doc observing active pending o
      → Follows doc observing true pending o
  none-Follows doc observing active pending none gone h = h
  none-Follows doc observing active pending (some s) gone h = absurd (ground (arith, gone))

  start_session-IsFollowing :
      (c : BlameCoordinator Doc live_blame) (o : Option Session)
      → c.active ≡ true
      → ((o ≡ none) → IsFollowing c)
      → IsFollowing (start_session Doc live_blame c o)
  unfolding start_session start_live_blame
  start_session-IsFollowing c none on idle = idle refl
  start_session-IsFollowing c (some s) on idle = (
    sym on,
    (sym on, ((λ on' rests. refl), ((λ off. absurd (ground (arith, on, off))), λ set. on))),
  )

  update-Follows :
      (fits : List LiveBlameEntry → Bool) (origin local : Option Text) (now : ℕ) (doc doc' : Doc)
      (observing active pending : Bool) (o : Option Session)
      → Follows doc observing active pending o
      → Follows doc' observing active (if observing then true else pending) (
          on_session Doc live_blame
            (λ s. record s { capture = capture fits origin local now s.capture })
            o)
  update-Follows fits origin local now doc doc' observing active pending none (unobserved, unset) =
      (unobserved, rw unobserved unset)
  update-Follows fits origin local now doc doc' observing active pending (some s)
        (listens, (logs, (fresh, (hidden, set)))) =
      (
        listens,
        (
          capture-observing fits origin local now s.capture ∙ logs,
          (
            (λ on rests. absurd (ground (arith, on, rests, listens))),
            (hidden, λ due. ground (arith, due, listens, set)),
          ),
        ),
      )

  push-IsFollowing :
      (c : BlameCoordinator Doc live_blame) → IsFollowing c → IsFollowing (push Doc live_blame c)
  push-IsFollowing c h =
      if-holds IsFollowing c.active _ c
        (λ on. show-Follows c.doc c.observing c.active c.pending c.session on h) (λ off. h)

  idle-timer :
      (c : BlameCoordinator Doc live_blame)
      → IsFollowing c
      → timer_without_observer Doc live_blame c ≡ false
  unfolding timer_without_observer
  idle-timer c h = timer-Follows c.doc c.observing c.active c.pending c.session h

  attach-IsFollowing :
      (doc : Doc) (capable : Bool) (stored : Stored) (config : BlameConfig)
      → (c : BlameCoordinator Doc live_blame) → IsFollowing c
      → IsFollowing (attach Doc live_blame doc capable stored config c)
  unfolding attach detach stop_blame
  attach-IsFollowing doc true stored config c h = (
    refl,
    (
      refl,
      (
        (λ on rests. absurd (ground (arith, on))),
        ((λ off. refl), λ set. absurd (ground (arith, set, idle-timer c h))),
      ),
    ),
  )
  attach-IsFollowing doc false stored config c h = (refl, idle-timer c h)

  toggle-IsFollowing :
      (active : Bool) (c : BlameCoordinator Doc live_blame)
      → IsFollowing c
      → IsFollowing (toggle Doc live_blame active c)
  unfolding toggle stop_blame start_blame timer_without_observer
  toggle-IsFollowing true c h =
      if-holds IsFollowing (not (is_enabled Doc live_blame c.config.live_blame_enabled)) c _
        (λ disabled. h)
        (λ enabled.
          start_session-IsFollowing (record c { active = true; told = true }) c.session refl
            (λ gone. none-Follows c.doc c.observing c.active c.pending c.session gone h))
  toggle-IsFollowing false c h =
      if-holds IsFollowing (not (is_enabled Doc live_blame c.config.live_blame_enabled)) c
        (stop_blame Doc live_blame (record c { active = false; told = false })) (λ disabled. h)
        (λ enabled. stop-Follows c.doc _ c.session (idle-timer c h))

  timer_fired-IsFollowing :
      (c : BlameCoordinator Doc live_blame)
      → IsFollowing c
      → IsFollowing (timer_fired Doc live_blame c)
  unfolding timer_fired
  timer_fired-IsFollowing c h =
      if-holds IsFollowing c.pending _ c
        (λ due.
          let on = fired-active c.doc c.observing c.active c.pending c.session due h in
          if-holds IsFollowing c.active _ (record c { pending = false })
            (λ on'. rest-Follows c.doc c.observing c.active c.pending c.session on h)
            (λ off. absurd (ground (arith, on, off))))
        (λ unset. h)

  step-IsFollowing :
      (fits : List LiveBlameEntry → Bool) (e : Event Doc live_blame)
      → (c : BlameCoordinator Doc live_blame) → IsFollowing c
      → IsFollowing (step Doc live_blame fits e c)
  unfolding step on_mode_switch detach stop_blame doc_updated
  step-IsFollowing fits (attached doc capable stored config) c h =
      attach-IsFollowing doc capable stored config c h
  step-IsFollowing fits detached c h = (refl, idle-timer c h)
  step-IsFollowing fits mode_switched c h = push-IsFollowing c h
  step-IsFollowing fits fired c h = timer_fired-IsFollowing c h
  step-IsFollowing fits (toggled active) c h = toggle-IsFollowing active c h
  step-IsFollowing fits (updated origin local now doc) c h =
      update-Follows fits origin local now c.doc doc c.observing c.active c.pending c.session h

  -- After any attachments, detachments, toggles, mode switches, updates and timers, if it held
  -- before: where there is a session, the engine and the coordinator listen while blame is active;
  -- the editor then shows the blame of the document as it is, unless the timer is set, and else it
  -- shows none; the timer is set only while blame is active. Where there is no session, there is
  -- neither an observer nor a timer.
  pub run-IsFollowing :
      (fits : List LiveBlameEntry → Bool) (es : List (Event Doc live_blame))
      → (c : BlameCoordinator Doc live_blame) → IsFollowing c
      → IsFollowing (run Doc live_blame fits es c)
  unfolding run
  run-IsFollowing fits [] c h = h
  run-IsFollowing fits (e ∷ es) c h =
      run-IsFollowing fits es (step Doc live_blame fits e c) (step-IsFollowing fits e c h)
