-- ===== src/SocketIo/Laws.antt =====
-- What makes a provider synced, and that a destroyed one is silent.
use collab_editor.Prelude.{
  ℕ, ◌≡◌, refl, ap, ◌∙◌, inl, inr, Bool, true, false, not, ◌&&◌, ◌||◌, [], length, Option, none,
  some, ltb, ◌==◌, if◌then◌else◌, Bool-cases, if-holds, Option-cases, arith,
}
use collab_editor.YjsEngine.Handlers.{msg_update}
use collab_editor.SocketIo.{
  Bytes, Protocols, message_sync, message_awareness, Emission, SocketIoProvider, send, emit,
  answer_sync, mark_synced, sync_answered, synced_once, sync_read, message_read, handle_sync,
  handle_awareness, handle_message,
}

module _ (p : Protocols) where
  open p use {Doc, read_var_uint, read_sync_message, write_var_uint}

  unfoldable pub answer_type : Option (Doc × (ℕ × Bytes)) → Option ℕ
  answer_type none = none
  answer_type (some (doc, (sync_type, encoder))) = some sync_type

  -- The type of a sync message, for a message that is one and can be read.
  unfoldable pub read_type : Option (ℕ × Bytes) → Doc → Option ℕ
  read_type none doc = none
  read_type (some (message_type, decoder)) doc =
      if message_type == message_sync
      then answer_type (read_sync_message decoder (write_var_uint message_sync []) doc)
      else none

  abbrev pub sync_type_of : Bytes → Doc → Option ℕ
  sync_type_of message doc = read_type (read_var_uint message) doc

  pub send-synced :
      (message : Bytes) (c : SocketIoProvider p) → (send p message c).synced ≡ c.synced
  unfolding send
  send-synced message c = elim (Option-cases c.socket) [
    | inl e ↦ rw e refl
    | inr (n, e) ↦ rw e refl
  ]

  pub emit-synced : (e : Emission) (c : SocketIoProvider p) → (emit p e c).synced ≡ c.synced
  unfolding emit
  emit-synced e c = elim (Bool-cases c.destroyed) [ inl d ↦ rw d refl | inr d ↦ rw d refl ]

  answer_sync-synced :
      (encoder : Bytes) (c : SocketIoProvider p) → (answer_sync p encoder c).synced ≡ c.synced
  unfolding answer_sync
  answer_sync-synced encoder c =
      if-holds (λ (q : SocketIoProvider p). q.synced ≡ c.synced) (ltb 1 (length encoder))
        (send p encoder c) c (λ long. send-synced encoder c) (λ short. refl)

  mark_synced-synced :
      (sync_type : ℕ) (c : SocketIoProvider p)
      → (mark_synced p sync_type c).synced ≡ (c.synced || sync_type == msg_update)
  unfolding mark_synced
  mark_synced-synced sync_type c =
      if-holds (λ (q : SocketIoProvider p). q.synced ≡ (c.synced || sync_type == msg_update))
        (sync_type == 2 && not c.synced) (emit p synced_once (record c { synced = true })) c
        (λ on. emit-synced synced_once (record c { synced = true }) ∙ ground (arith, on))
        (λ off. ground (arith, off))

  -- Whether it is the type of an update.
  abbrev pub is_update : Option ℕ → Bool
  is_update none = false
  is_update (some sync_type) = sync_type == msg_update

  or_false : (b : Bool) → b ≡ (b || false)
  or_false true = refl
  or_false false = refl

  sync_read-synced :
      (answer : Option (Doc × (ℕ × Bytes))) (c : SocketIoProvider p)
      → (sync_read p answer c).synced ≡ (c.synced || is_update (answer_type answer))
  unfolding sync_read answer_type sync_answered
  sync_read-synced none c = or_false c.synced
  sync_read-synced (some (doc, (sync_type, encoder))) c =
      mark_synced-synced sync_type (answer_sync p encoder (record c { doc = doc }))
      ∙ ap (λ b. b || sync_type == msg_update) (answer_sync-synced encoder (record c { doc = doc }))

  handle_awareness-synced :
      (decoder : Bytes) (c : SocketIoProvider p) → (handle_awareness p decoder c).synced ≡ c.synced
  unfolding handle_awareness
  handle_awareness-synced decoder c = elim (Option-cases (p.read_var_uint8_array decoder)) [
    | inl e ↦ rw (handle_awareness, e) refl
    | inr (update, e) ↦ rw (handle_awareness, e) refl
  ]

  message_read-synced :
      (found : Option (ℕ × Bytes)) (c : SocketIoProvider p)
      → (message_read p found c).synced ≡ (c.synced || is_update (read_type found c.doc))
  unfolding message_read read_type handle_sync
  message_read-synced none c = or_false c.synced
  message_read-synced (some (message_type, decoder)) c =
      elim (Bool-cases (message_type == message_sync)) [
        | inl e ↦
            rw e (
              sync_read-synced (read_sync_message decoder (write_var_uint message_sync []) c.doc) c)
        | inr e ↦ rw e (
            if-holds (λ (q : SocketIoProvider p). q.synced ≡ (c.synced || false))
              (message_type == message_awareness) (handle_awareness p decoder c) c
              (λ on. handle_awareness-synced decoder c ∙ or_false c.synced)
              (λ off. or_false c.synced))
      ]

  -- A message makes a provider synced exactly when it is a sync message that carries an update, of
  -- type 2; the answer to the question that the provider sends on connecting, of type 1, does not.
  pub handle_message-synced :
      (message : Bytes) (c : SocketIoProvider p)
      → (handle_message p message c).synced ≡ (c.synced || is_update (sync_type_of message c.doc))
  unfolding handle_message
  handle_message-synced message c = message_read-synced (read_var_uint message) c
