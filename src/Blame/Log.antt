-- ===== src/Blame/Log.antt =====
-- The log of live blame in the browser's storage, of frontend/src/collab/blame-engine.ts. Whether
-- the storage takes a log is a parameter: a write that does not fit throws and changes nothing.
pub mod Laws
use collab_editor.Prelude.{
  ℕ, zero, suc, ◌+◌, ◌/◌, Bool, true, false, List, [], ◌∷◌, ◌++◌, length, drop, Option, none, some,
  Text, text, text_eq, if◌then◌else◌,
}

pub record LiveBlameEntry : Type 0 where
  pub user_name : Text
  pub timestamp : ℕ

-- The item of the document in the storage; `none` if there is none or it is no JSON.
abbrev pub Stored : Type 0
Stored = Option (List LiveBlameEntry)

unfoldable pub load_entries : Stored → List LiveBlameEntry
load_entries none = []
load_entries (some entries) = entries

-- `localState?.user?.name` of the awareness, where an empty name does not count.
unfoldable pub local_name : Option Text → Text
local_name none = text "unknown"
local_name (some user_name) = if text_eq user_name [] then text "unknown" else user_name

-- An origin that is a string, and the name of the awareness' local state.
unfoldable pub resolve_user_name : Option Text → Option Text → Text
resolve_user_name (some origin) local = origin
resolve_user_name none local = local_name local

unfoldable pub log_update : (List LiveBlameEntry → Bool) → LiveBlameEntry → Stored → Stored
log_update fits entry stored =
    let existing = load_entries stored ++ entry ∷ [] in
    let halved = drop (length existing / 2) existing in
    if fits existing then some existing else if fits halved then some halved else stored

-- The engine's observer and its log.
pub record Capture : Type 0 where
  pub observing : Bool
  pub stored : Stored

unfoldable pub start_live_blame : Capture → Capture
start_live_blame c = record { observing = true; stored = c.stored }

unfoldable pub stop_live_blame : Capture → Capture
stop_live_blame c = record { observing = false; stored = none }

unfoldable pub capture :
    (List LiveBlameEntry → Bool) → Option Text → Option Text → ℕ → Capture → Capture
capture fits origin local now c =
    if c.observing
    then record {
      observing = true;
      stored =
          log_update fits record { user_name = resolve_user_name origin local; timestamp = now }
            c.stored;
    }
    else c
