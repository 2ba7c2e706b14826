-- ===== src/CollabProvider.antt =====
-- The connection of `CollaborationProvider`, of frontend/src/collab/collab-provider.ts: its status
-- and the promises that wait for it. A promise is a number; a promise that is settled is in a log.
-- The events of the transport and the time-outs come in any order.
pub mod Laws
use collab_editor.Prelude.{ℕ, ◌+◌, Bool, true, false, List, [], ◌∷◌, ◌++◌, ◌==◌, leb, if◌then◌else◌}

pub data CollabStatus : Type 0 where
  disconnected connecting connected : CollabStatus

pub data Outcome : Type 0 where
  resolved timed_out rejected : Outcome

pub record Settled : Type 0 where
  pub id : ℕ
  pub outcome : Outcome

-- `attached` says that `_provider` is set, `waiting` is `_connectedResolvers`, and `next` is the
-- number of the next promise; `told` is what `_setStatus` passed on to the
-- callbacks of the time; who is registered is left out.
pub record CollaborationProvider : Type 0 where
  pub attached : Bool
  pub status : CollabStatus
  pub told : List CollabStatus
  pub waiting : List ℕ
  pub settled : List Settled
  pub next : ℕ

abbrev pub new_collaboration_provider : CollaborationProvider
new_collaboration_provider = record {
  attached = false;
  status = disconnected;
  told = [];
  waiting = [];
  settled = [];
  next = 0;
}

unfoldable pub same_status : CollabStatus → CollabStatus → Bool
same_status disconnected disconnected = true
same_status connecting connecting = true
same_status connected connected = true
same_status _ _ = false

unfoldable pub set_status : CollabStatus → CollaborationProvider → CollaborationProvider
set_status status p =
    if same_status status p.status
    then p
    else record p { status = status; told = p.told ++ status ∷ [] }

unfoldable pub settle : Outcome → List ℕ → List Settled
settle outcome [] = []
settle outcome (id ∷ ids) = record { id = id; outcome = outcome } ∷ settle outcome ids

-- All that wait are settled, and their timers cleared.
unfoldable pub settle_all : Outcome → CollaborationProvider → CollaborationProvider
settle_all outcome p = record p { waiting = []; settled = p.settled ++ settle outcome p.waiting }

unfoldable pub is_connected : CollabStatus → Bool
is_connected connected = true
is_connected _ = false

-- The listener for the event `status` of the transport.
unfoldable pub status_changed : CollabStatus → CollaborationProvider → CollaborationProvider
status_changed status p =
    let marked = set_status status p in
    if is_connected status then settle_all resolved marked else marked

unfoldable pub when_connected : CollaborationProvider → CollaborationProvider
when_connected p =
    if is_connected p.status
    then record p {
      settled = p.settled ++ record { id = p.next; outcome = resolved } ∷ [];
      next = p.next + 1;
    }
    else record p { waiting = p.waiting ++ p.next ∷ []; next = p.next + 1 }

unfoldable pub times : ℕ → List ℕ → ℕ
times id [] = 0
times id (waiter ∷ waiters) = let rest = times id waiters in if id == waiter then 1 + rest else rest

unfoldable pub without : ℕ → List ℕ → List ℕ
without id [] = []
without id (waiter ∷ waiters) =
    let rest = without id waiters in if id == waiter then rest else waiter ∷ rest

-- The timer of a promise, which is set while the promise waits.
unfoldable pub time_out : ℕ → CollaborationProvider → CollaborationProvider
time_out id p =
    if leb 1 (times id p.waiting)
    then record p {
      waiting = without id p.waiting;
      settled = p.settled ++ record { id = id; outcome = timed_out } ∷ [];
    }
    else p

unfoldable pub disconnect : CollaborationProvider → CollaborationProvider
disconnect p = set_status disconnected (record p { attached = false })

-- Whether the transport is connected at once is its own affair. The promise of `connect` is the one
-- of `whenConnected`.
unfoldable pub connect : Bool → CollaborationProvider → CollaborationProvider
connect ws_connected p =
    let opened = record (set_status connecting (disconnect p)) { attached = true } in
    when_connected
      (if ws_connected then settle_all resolved (set_status connected opened) else opened)

unfoldable pub destroy : CollaborationProvider → CollaborationProvider
destroy p = settle_all rejected (disconnect p)

pub data Event : Type 0 where
  connect_called : Bool → Event
  status_emitted : CollabStatus → Event
  awaited disconnect_called destroyed : Event
  timer_fired : ℕ → Event

unfoldable pub step : Event → CollaborationProvider → CollaborationProvider
step (connect_called ws_connected) p = connect ws_connected p
step (status_emitted status) p = status_changed status p
step awaited p = when_connected p
step disconnect_called p = disconnect p
step destroyed p = destroy p
step (timer_fired id) p = time_out id p

unfoldable pub run : List Event → CollaborationProvider → CollaborationProvider
run [] p = p
run (e ∷ es) p = run es (step e p)
