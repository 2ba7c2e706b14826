-- ===== src/SocketIo.antt =====
-- `SocketIOProvider` of frontend/src/collab/socketio-provider.ts: the Yjs provider over Socket.IO. The
-- codecs of lib0 and the protocols of y-protocols are parameters; the events of a socket are calls of
-- its listeners, which come in any order. A listener that throws changes nothing.
pub mod Laws
pub mod Link
pub mod Session
use collab_editor.Prelude.{
  ℕ, ◌+◌, Bool, true, false, not, ◌&&◌, ◌||◌, List, [], ◌∷◌, ◌++◌, length, Option, none, some, ltb,
  ◌==◌, if◌then◌else◌,
}
use collab_editor.CollabProvider.{CollabStatus, disconnected, connected}

abbrev pub Bytes : Type 0
Bytes = List ℕ

-- lib0's encoder is what was written so far. `none` is an exception. A sync message is applied to the
-- document; its answer is written behind what the encoder has, and its type is returned. Removing
-- states gives those that were there.
pub record Protocols : Type 1 where
  pub Doc : Type 0
  pub Update : Type 0
  pub Awareness : Type 0
  pub write_var_uint : ℕ → Bytes → Bytes
  pub write_var_uint8_array : Bytes → Bytes → Bytes
  pub read_var_uint : Bytes → Option (ℕ × Bytes)
  pub read_var_uint8_array : Bytes → Option Bytes
  pub write_update : Update → Bytes → Bytes
  pub write_sync_step1 : Doc → Bytes → Bytes
  pub read_sync_message : Bytes → Bytes → Doc → Option (Doc × (ℕ × Bytes))
  pub client_id : Doc → ℕ
  pub encode_awareness_update : Awareness → List ℕ → Bytes
  pub apply_awareness_update : Bytes → Awareness → Awareness
  pub has_local_state : Awareness → Bool
  pub clients : Awareness → List ℕ
  pub remove_states : List ℕ → Awareness → List ℕ × Awareness

abbrev pub message_sync : ℕ
message_sync = 0

abbrev pub message_awareness : ℕ
message_awareness = 1

pub data Emission : Type 0 where
  status : CollabStatus → Emission
  synced_once : Emission

module _ (p : Protocols) where
  open p use {
    Doc, Update, Awareness, write_var_uint, write_var_uint8_array, read_var_uint,
    read_var_uint8_array, write_update, write_sync_step1, read_sync_message, client_id,
    encode_awareness_update, apply_awareness_update, has_local_state, clients, remove_states,
  }

  -- `socket` is the number of the socket in use, of `sockets` that were opened; `sent` has for each
  -- message the socket that took it.
  pub record SocketIoProvider : Type 0 where
    pub doc : Doc
    pub awareness : Awareness
    pub wsconnected : Bool
    pub synced : Bool
    pub destroyed : Bool
    pub socket : Option ℕ
    pub sockets : ℕ
    pub sent : List (ℕ × Bytes)
    pub emitted : List Emission

  unfoldable pub send : Bytes → SocketIoProvider → SocketIoProvider
  send message c = elim c.socket [
    | none ↦ c
    | some n ↦ record c { sent = c.sent ++ (n, message) ∷ [] }
  ]

  -- `super.destroy()` takes the listeners off.
  unfoldable pub emit : Emission → SocketIoProvider → SocketIoProvider
  emit e c = if c.destroyed then c else record c { emitted = c.emitted ++ e ∷ [] }

  abbrev pub update_message : Update → Bytes
  update_message update = write_update update (write_var_uint message_sync [])

  abbrev pub awareness_message : Awareness → List ℕ → Bytes
  awareness_message awareness changed =
      write_var_uint8_array (encode_awareness_update awareness changed)
        (write_var_uint message_awareness [])

  -- The listener for updates of the document, and for those of the awareness. `own` says that the
  -- origin is the provider itself.
  unfoldable pub doc_updated : Doc → Update → Bool → SocketIoProvider → SocketIoProvider
  doc_updated doc update own c =
      let changed = record c { doc = doc } in
      if c.destroyed || own || not c.wsconnected
      then changed
      else send (update_message update) changed

  unfoldable pub awareness_updated : Awareness → List ℕ → Bool → SocketIoProvider → SocketIoProvider
  awareness_updated awareness ids own c =
      let changed = record c { awareness = awareness } in
      if c.destroyed || own || not c.wsconnected
      then changed
      else send (awareness_message awareness ids) changed

  abbrev pub in_use : Option ℕ → Bool → Bool
  in_use none live = false
  in_use (some n) live = live

  -- `live` says that the socket in use is connected.
  unfoldable pub connect : Bool → SocketIoProvider → SocketIoProvider
  connect live c =
      if in_use c.socket live || c.destroyed
      then c
      else record c { socket = some c.sockets; sockets = c.sockets + 1 }

  unfoldable pub new_socket_io_provider : Doc → Awareness → Bool → SocketIoProvider
  new_socket_io_provider doc awareness connects =
      let made : SocketIoProvider = record {
        doc = doc;
        awareness = awareness;
        wsconnected = false;
        synced = false;
        destroyed = false;
        socket = none;
        sockets = 0;
        sent = [];
        emitted = [];
      } in
      if connects then connect false made else made

  -- The listener for `connect`.
  unfoldable pub on_connect : SocketIoProvider → SocketIoProvider
  on_connect c =
      let told = emit (status connected) (record c { wsconnected = true }) in
      let asked = send (write_sync_step1 c.doc (write_var_uint message_sync [])) told in
      if has_local_state c.awareness
      then send (awareness_message c.awareness (client_id c.doc ∷ [])) asked
      else asked

  unfoldable pub others : ℕ → List ℕ → List ℕ
  others own [] = []
  others own (client ∷ ids) =
      let rest = others own ids in if client == own then rest else client ∷ rest

  -- The listener for `disconnect`. The states that it removes are of the provider's own origin.
  unfoldable pub on_disconnect : SocketIoProvider → SocketIoProvider
  on_disconnect c =
      let told = emit (status disconnected) (record c { wsconnected = false; synced = false }) in
      record told {
        awareness = (remove_states (others (client_id c.doc) (clients c.awareness)) c.awareness).1;
      }

  unfoldable pub on_connect_error : SocketIoProvider → SocketIoProvider
  on_connect_error c = emit (status disconnected) (record c { wsconnected = false })

  -- The encoder has the type of the message only, where there is no answer.
  unfoldable pub answer_sync : Bytes → SocketIoProvider → SocketIoProvider
  answer_sync encoder c = if ltb 1 (length encoder) then send encoder c else c

  unfoldable pub mark_synced : ℕ → SocketIoProvider → SocketIoProvider
  mark_synced sync_type c =
      if sync_type == 2 && not c.synced then emit synced_once (record c { synced = true }) else c

  unfoldable pub sync_answered : Doc → ℕ → Bytes → SocketIoProvider → SocketIoProvider
  sync_answered doc sync_type encoder c =
      mark_synced sync_type (answer_sync encoder (record c { doc = doc }))

  unfoldable pub sync_read : Option (Doc × (ℕ × Bytes)) → SocketIoProvider → SocketIoProvider
  sync_read none c = c
  sync_read (some (doc, (sync_type, encoder))) c = sync_answered doc sync_type encoder c

  unfoldable pub handle_sync : Bytes → SocketIoProvider → SocketIoProvider
  handle_sync decoder c =
      sync_read (read_sync_message decoder (write_var_uint message_sync []) c.doc) c

  unfoldable pub handle_awareness : Bytes → SocketIoProvider → SocketIoProvider
  handle_awareness decoder c = elim (read_var_uint8_array decoder) [
    | none ↦ c
    | some update ↦ record c { awareness = apply_awareness_update update c.awareness }
  ]

  unfoldable pub message_read : Option (ℕ × Bytes) → SocketIoProvider → SocketIoProvider
  message_read none c = c
  message_read (some (message_type, decoder)) c =
      if message_type == message_sync
      then handle_sync decoder c
      else if message_type == message_awareness
      then handle_awareness decoder c
      else c

  -- The listener for `yjs-sync`.
  unfoldable pub handle_message : Bytes → SocketIoProvider → SocketIoProvider
  handle_message message c = message_read (read_var_uint message) c

  unfoldable pub disconnect : SocketIoProvider → SocketIoProvider
  disconnect c = record c { socket = none; wsconnected = false; synced = false }

  unfoldable pub tell_removed : List ℕ → Awareness → SocketIoProvider → SocketIoProvider
  tell_removed [] awareness c = record c { awareness = awareness }
  tell_removed (client ∷ ids) awareness c = awareness_updated awareness (client ∷ ids) false c

  -- The others are told of the own state that goes, while the socket is there.
  unfoldable pub destroy : SocketIoProvider → SocketIoProvider
  destroy c =
      if c.destroyed
      then c
      else (let (removed, awareness) = remove_states (client_id c.doc ∷ []) c.awareness in
          record (disconnect (tell_removed removed awareness c)) { destroyed = true })
