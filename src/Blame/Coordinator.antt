-- ===== src/Blame/Coordinator.antt =====
-- `BlameCoordinator` of frontend/src/collab/blame-coordinator.ts. The document is a parameter with
-- the blame that the engine reads off it, while the awareness states, which give the names, stay as
-- they are; the timer of 300 ms fires at any time while it is set.
pub mod Laws
use collab_editor.Prelude.{
  ℕ, Text, Bool, true, false, not, ◌&&◌, List, [], ◌∷◌, Option, none, some, if◌then◌else◌,
}
use collab_editor.Blame.{BlameSegment}
use collab_editor.Blame.Log.{
  LiveBlameEntry, Stored, Capture, capture, start_live_blame, stop_live_blame,
}

-- What an editor that is capable of blame shows, of the live document or of a version.
pub data Shown : Type 0 where
  nothing : Shown
  segments : List BlameSegment → Shown

-- `_engine` and `_binding` are set together; `capture` is the engine's observer with its log.
pub record Session : Type 0 where
  pub shown : Shown
  pub capture : Capture

pub record BlameConfig : Type 0 where
  pub live_blame_enabled : Option Bool
  pub version_blame_enabled : Option Bool

module _ (Doc : Type 0) (live_blame : Doc → List BlameSegment) where
  -- `observing` says that `_updateUnsub` is set, `pending` that `_updateTimer` is; `told` is what
  -- the callback for the active state was given last.
  pub record BlameCoordinator : Type 0 where
    pub doc : Doc
    pub session : Option Session
    pub config : BlameConfig
    pub active : Bool
    pub observing : Bool
    pub pending : Bool
    pub told : Bool

  -- Before the first `attach`; there is no document yet, and without a session none is read.
  abbrev pub new_blame_coordinator : Doc → BlameCoordinator
  new_blame_coordinator doc = record {
    doc = doc;
    session = none;
    config = record { live_blame_enabled = none; version_blame_enabled = none };
    active = false;
    observing = false;
    pending = false;
    told = false;
  }

  -- `enabled !== false`
  abbrev pub is_enabled : Option Bool → Bool
  is_enabled none = true
  is_enabled (some enabled) = enabled

  abbrev pub on_session : (Session → Session) → Option Session → Option Session
  on_session f none = none
  on_session f (some s) = some (f s)

  abbrev pub show : Shown → Session → Session
  show shown s = record s { shown = shown }

  -- `_updateUnsub?.()` clears the timer of the observer that it removes.
  unfoldable pub timer_without_observer : BlameCoordinator → Bool
  timer_without_observer c = if c.observing then false else c.pending

  -- The engine stops and its log is removed; the editor shows no blame.
  unfoldable pub stop_blame : BlameCoordinator → BlameCoordinator
  stop_blame c = record c {
    session =
        on_session (λ s. record { shown = nothing; capture = stop_live_blame s.capture }) c.session;
    observing = false;
    pending = timer_without_observer c;
  }

  unfoldable pub start_session : BlameCoordinator → Option Session → BlameCoordinator
  start_session c none = c
  start_session c (some s) = record c {
    session =
        some record { shown = segments (live_blame c.doc); capture = start_live_blame s.capture };
    observing = true;
    pending = timer_without_observer c;
  }

  unfoldable pub start_blame : BlameCoordinator → BlameCoordinator
  start_blame c = start_session c c.session

  -- Everything is released; the callback is not told.
  unfoldable pub detach : BlameCoordinator → BlameCoordinator
  detach c = record (stop_blame c) {
    session = none;
    active = false;
    config = record { live_blame_enabled = none; version_blame_enabled = none };
  }

  -- With a binding that is capable of blame, or without.
  unfoldable pub attach : Doc → Bool → Stored → BlameConfig → BlameCoordinator → BlameCoordinator
  attach doc capable stored config c = record (detach c) {
    doc = doc;
    config = config;
    session =
        if capable
        then some
            record { shown = nothing; capture = record { observing = false; stored = stored } }
        else none;
  }

  unfoldable pub available : BlameCoordinator → Bool
  available c =
      is_enabled c.config.live_blame_enabled && (elim c.session [ none ↦ false | some s ↦ true ])

  unfoldable pub toggle : Bool → BlameCoordinator → BlameCoordinator
  toggle active c =
      if not (is_enabled c.config.live_blame_enabled)
      then c
      else (let marked = record c { active = active; told = active } in
          if active then start_blame marked else stop_blame marked)

  -- The blame of the document is pushed to the editor, if there is one and blame is active.
  abbrev pub push : BlameCoordinator → BlameCoordinator
  push c =
      if c.active
      then record c { session = on_session (show (segments (live_blame c.doc))) c.session }
      else c

  unfoldable pub on_mode_switch : BlameCoordinator → BlameCoordinator
  on_mode_switch c = push c

  unfoldable pub enable_version_blame : List BlameSegment → BlameCoordinator → BlameCoordinator
  enable_version_blame blame c =
      if is_enabled c.config.version_blame_enabled
      then record c { session = on_session (show (segments blame)) c.session }
      else c

  unfoldable pub disable_version_blame : BlameCoordinator → BlameCoordinator
  disable_version_blame c = record c { session = on_session (show nothing) c.session }

  -- An update of the document, of the given origin, local name and time: the engine logs it, and the
  -- observer sets its timer anew.
  unfoldable pub doc_updated :
      (List LiveBlameEntry → Bool)
      → Option Text
      → Option Text
      → ℕ
      → Doc
      → BlameCoordinator
      → BlameCoordinator
  doc_updated fits origin local now doc c = record c {
    doc = doc;
    session =
        on_session (λ s. record s { capture = capture fits origin local now s.capture }) c.session;
    pending = if c.observing then true else c.pending;
  }

  unfoldable pub timer_fired : BlameCoordinator → BlameCoordinator
  timer_fired c = if c.pending then push (record c { pending = false }) else c

  pub data Event : Type 0 where
    attached : Doc → Bool → Stored → BlameConfig → Event
    detached mode_switched fired : Event
    toggled : Bool → Event
    updated : Option Text → Option Text → ℕ → Doc → Event

  -- The events of live blame.
  unfoldable pub step : (List LiveBlameEntry → Bool) → Event → BlameCoordinator → BlameCoordinator
  step fits (attached doc capable stored config) c = attach doc capable stored config c
  step fits detached c = detach c
  step fits mode_switched c = on_mode_switch c
  step fits fired c = timer_fired c
  step fits (toggled active) c = toggle active c
  step fits (updated origin local now doc) c = doc_updated fits origin local now doc c

  unfoldable pub run :
      (List LiveBlameEntry → Bool) → List Event → BlameCoordinator → BlameCoordinator
  run fits [] c = c
  run fits (e ∷ es) c = run fits es (step fits e c)
