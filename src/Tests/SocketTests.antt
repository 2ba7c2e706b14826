-- ===== src/Tests/SocketTests.antt =====
-- A provider over toy protocols: a document is a number, an update adds one, and the only state of
-- the awareness is the own one.
use collab_editor.Prelude.{
  ℕ, zero, suc, ◌||◌, ◌+◌, ◌≡◌, refl, Bool, true, false, [], ◌∷◌, ◌++◌, Option, none, some, ◌⊎◌,
  All,
}
use collab_editor.CollabProvider.{connected, status_emitted}
use collab_editor.SocketIo.{
  Bytes, Protocols, SocketIoProvider, new_socket_io_provider, on_connect, doc_updated,
  update_message, handle_message, message_read, handle_sync, sync_read, sync_answered, mark_synced,
  answer_sync, send, emit, connect,
}
use collab_editor.SocketIo.Laws.{is_update, sync_type_of, handle_message-synced}
use collab_editor.SocketIo.Session.{
  Session, new_session, opened, linked_up, Reach, here, next, linked, open_session,
}
use collab_editor.SocketIo.Session.Laws.{IsLinked, IsClosed, Reach-IsLinked, Reach-edited}

abbrev head_of : Bytes → Option (ℕ × Bytes)
head_of [] = none
head_of (b ∷ bytes) = some (b, bytes)

-- The answer to a question, type 0, is the document; the other two types carry an update.
abbrev toy_sync : Bytes → Bytes → ℕ → Option (ℕ × (ℕ × Bytes))
toy_sync [] encoder doc = none
toy_sync (zero ∷ rest) encoder doc = some (doc, (0, encoder ++ 1 ∷ doc ∷ []))
toy_sync (suc t ∷ rest) encoder doc = some (doc + 1, (suc t, encoder))

abbrev toy : Protocols
toy = record {
  Doc = ℕ;
  Update = ℕ;
  Awareness = Bool;
  write_var_uint = λ n encoder. encoder ++ n ∷ [];
  write_var_uint8_array = λ bytes encoder. encoder ++ bytes;
  read_var_uint = head_of;
  read_var_uint8_array = λ bytes. some bytes;
  write_update = λ u encoder. encoder ++ 2 ∷ u ∷ [];
  write_sync_step1 = λ doc encoder. encoder ++ 0 ∷ doc ∷ [];
  read_sync_message = toy_sync;
  client_id = λ doc. 7;
  encode_awareness_update = λ awareness ids. ids;
  apply_awareness_update = λ bytes awareness. awareness;
  has_local_state = λ awareness. awareness;
  clients = λ awareness. [];
  remove_states = λ ids awareness. (ids, false);
}

abbrev fresh : SocketIoProvider toy
fresh = new_socket_io_provider toy 5 true true

handle_message-synced_example :
    (handle_message toy (0 ∷ 1 ∷ []) fresh).synced
    ≡ (fresh.synced || is_update toy (sync_type_of toy (0 ∷ 1 ∷ []) fresh.doc))
handle_message-synced_example = handle_message-synced toy (0 ∷ 1 ∷ []) fresh

-- The answer to the provider's question does not make it synced; the next update does.
answered_synced :
    ((handle_message toy (0 ∷ 1 ∷ []) fresh).synced ≡ false)
    × ((handle_message toy (0 ∷ 2 ∷ []) fresh).synced ≡ true)
unfolding handle_message message_read handle_sync sync_read sync_answered mark_synced answer_sync
    send emit connect new_socket_io_provider
answered_synced = (refl, refl)

abbrev up : Session toy
up =
    linked toy true (on_connect toy fresh) (status_emitted connected)
      (open_session toy 5 true (new_session toy))

up_reached : Reach toy (new_session toy) up
up_reached =
    next (next here (opened (new_session toy) 5 true refl))
      (linked_up (open_session toy 5 true (new_session toy)) fresh refl refl)

Reach-IsLinked_example : IsLinked toy up × All (IsClosed toy) up.gone
Reach-IsLinked_example = Reach-IsLinked toy up_reached

Reach-edited_example :
    ((up.live ≡ true)
      × ((n : ℕ) × ((on_connect toy fresh).socket ≡ some n)
          × ((doc_updated toy 6 1 false (on_connect toy fresh)).sent
              ≡ (on_connect toy fresh).sent ++ (n, update_message toy 1) ∷ [])))
    ⊎ ((up.live ≡ false)
        × ((doc_updated toy 6 1 false (on_connect toy fresh)).sent ≡ (on_connect toy fresh).sent))
Reach-edited_example = Reach-edited toy (on_connect toy fresh) 6 1 up_reached refl
