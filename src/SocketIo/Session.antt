-- ===== src/SocketIo/Session.antt =====
-- `CollaborationProvider` over a Socket.IO transport, as a step relation: the calls of the application,
-- the events of the socket in use, and the edits of the document. Socket.IO tells of messages and of
-- the end of a connection only while there is one, and of its begin or failure only while there is
-- none. To connect anew is to close and to open.
pub mod Laws
use collab_editor.Prelude.{
  ℕ, ◌≡◌, Bool, true, false, List, [], ◌∷◌, Option, none, some, if◌then◌else◌,
}
use collab_editor.CollabProvider
use collab_editor.CollabProvider.{
  CollaborationProvider, new_collaboration_provider, disconnected, connected, Event, connect_called,
  status_emitted, awaited, disconnect_called, timer_fired,
}
use collab_editor.SocketIo.{
  Bytes, Protocols, SocketIoProvider, new_socket_io_provider, doc_updated, awareness_updated,
  on_connect, on_disconnect, on_connect_error, handle_message, disconnect, destroy,
}

-- The provider is called, or told of an event.
abbrev pub told : Event → CollaborationProvider → CollaborationProvider
told e c = CollabProvider.step e c

abbrev pub hung_up : Bool → CollaborationProvider → CollaborationProvider
hung_up live c = if live then told (status_emitted disconnected) c else c

module _ (p : Protocols) where
  open p use {Doc, Update, Awareness}

  -- `live` says that the socket in use is connected; `gone` has the transports that were closed.
  pub record Session : Type 0 where
    pub transport : Option (SocketIoProvider p)
    pub live : Bool
    pub gone : List (SocketIoProvider p)
    pub collab : CollaborationProvider

  abbrev pub new_session : Session
  new_session = record {
    transport = none;
    live = false;
    gone = [];
    collab = new_collaboration_provider;
  }

  -- The end of a connection that is closed is told by the socket before the rest is done.
  abbrev pub hang_up : Bool → SocketIoProvider p → SocketIoProvider p
  hang_up live c = if live then on_disconnect p c else c

  abbrev pub open_session : Doc → Awareness → Session → Session
  open_session doc awareness s = record s {
    transport = some (new_socket_io_provider p doc awareness true);
    live = false;
    collab = told (connect_called false) s.collab;
  }

  abbrev pub close_session : SocketIoProvider p → Session → Session
  close_session c s = record s {
    transport = none;
    live = false;
    gone = destroy p (disconnect p (hang_up s.live c)) ∷ s.gone;
    collab = told disconnect_called (hung_up s.live s.collab);
  }

  abbrev pub with_transport : SocketIoProvider p → Session → Session
  with_transport c s = record s { transport = some c }

  abbrev pub linked : Bool → SocketIoProvider p → Event → Session → Session
  linked live c e s = record s { transport = some c; live = live; collab = told e s.collab }

  pub data Step : Session → Session → Type 0 where
    opened :
        (s : Session) (doc : Doc) (awareness : Awareness)
        → s.transport ≡ none
        → Step s (open_session doc awareness s)
    closed :
        (s : Session) (c : SocketIoProvider p) → s.transport ≡ some c → Step s (close_session c s)
    linked_up :
        (s : Session) (c : SocketIoProvider p)
        → s.transport ≡ some c
        → s.live ≡ false
        → Step s (linked true (on_connect p c) (status_emitted connected) s)
    dropped :
        (s : Session) (c : SocketIoProvider p)
        → s.transport ≡ some c
        → s.live ≡ true
        → Step s (linked false (on_disconnect p c) (status_emitted disconnected) s)
    refused :
        (s : Session) (c : SocketIoProvider p)
        → s.transport ≡ some c
        → s.live ≡ false
        → Step s (linked false (on_connect_error p c) (status_emitted disconnected) s)
    received :
        (s : Session) (c : SocketIoProvider p) (message : Bytes)
        → s.transport ≡ some c
        → s.live ≡ true
        → Step s (with_transport (handle_message p message c) s)
    edited :
        (s : Session) (c : SocketIoProvider p) (doc : Doc) (update : Update)
        → s.transport ≡ some c
        → Step s (with_transport (doc_updated p doc update false c) s)
    moved :
        (s : Session) (c : SocketIoProvider p) (awareness : Awareness) (ids : List ℕ)
        → s.transport ≡ some c
        → Step s (with_transport (awareness_updated p awareness ids false c) s)
    waited : (s : Session) → Step s (record s { collab = told awaited s.collab })
    timed_out :
        (s : Session) (id : ℕ) → Step s (record s { collab = told (timer_fired id) s.collab })

  pub data Reach (start : Session) : Session → Type 0 where
    here : Reach start start
    next : {s t : Session} → Reach start s → Step s t → Reach start t
