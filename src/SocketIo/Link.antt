-- ===== src/SocketIo/Link.antt =====
-- How the operations of a provider change its connection: whether it is connected, whether it was
-- destroyed, and whether it has a socket.
use collab_editor.Prelude.{
  ℕ, ◌≡◌, refl, ◌∙◌, Bool, true, false, not, ◌||◌, List, length, Option, none, some, ltb, ◌==◌,
  if-holds, Option-cases, inl, inr,
}
use collab_editor.CollabProvider.{disconnected, connected}
use collab_editor.SocketIo.{
  Bytes, Protocols, message_sync, message_awareness, Emission, status, synced_once,
  SocketIoProvider, send, emit, doc_updated, awareness_updated, in_use, on_connect, on_disconnect,
  on_connect_error, answer_sync, mark_synced, sync_answered, sync_read, handle_sync,
  handle_awareness, message_read, handle_message,
}

module _ (p : Protocols) where
  open p use {Doc, Update, Awareness}

  abbrev pub link : SocketIoProvider p → Bool × (Bool × Bool)
  link c = (c.wsconnected, (c.destroyed, in_use p c.socket true))

  pub send-link : (message : Bytes) (c : SocketIoProvider p) → link (send p message c) ≡ link c
  unfolding send
  send-link message c = elim (Option-cases c.socket) [ inl e ↦ rw e refl | inr (n, e) ↦ rw e refl ]

  emit-link : (e : Emission) (c : SocketIoProvider p) → link (emit p e c) ≡ link c
  unfolding emit
  emit-link e c =
      if-holds (λ (q : SocketIoProvider p). link q ≡ link c) c.destroyed c _ (λ d. refl) (λ d. refl)

  pub on_connect-link :
      (c : SocketIoProvider p)
      → link (on_connect p c) ≡ (true, (c.destroyed, in_use p c.socket true))
  unfolding on_connect
  on_connect-link c =
      let told = emit-link (status connected) (record c { wsconnected = true }) in
      let asked =
        send-link _ (emit p (status connected) (record c { wsconnected = true })) ∙ told in
      if-holds (λ (q : SocketIoProvider p). link q ≡ (true, (c.destroyed, in_use p c.socket true)))
        (p.has_local_state c.awareness) (send p _ _) _ (λ shown. send-link _ _ ∙ asked)
        (λ hidden. asked)

  pub on_disconnect-link :
      (c : SocketIoProvider p)
      → link (on_disconnect p c) ≡ (false, (c.destroyed, in_use p c.socket true))
  unfolding on_disconnect
  on_disconnect-link c =
      emit-link (status disconnected) (record c { wsconnected = false; synced = false })

  pub on_connect_error-link :
      (c : SocketIoProvider p)
      → link (on_connect_error p c) ≡ (false, (c.destroyed, in_use p c.socket true))
  unfolding on_connect_error
  on_connect_error-link c = emit-link (status disconnected) (record c { wsconnected = false })

  pub doc_updated-link :
      (doc : Doc) (update : Update) (own : Bool) (c : SocketIoProvider p)
      → link (doc_updated p doc update own c) ≡ link c
  unfolding doc_updated
  doc_updated-link doc update own c =
      if-holds (λ (q : SocketIoProvider p). link q ≡ link c)
        (c.destroyed || own || not c.wsconnected) (record c { doc = doc }) _ (λ kept. refl)
        (λ sent. send-link _ (record c { doc = doc }))

  pub awareness_updated-link :
      (awareness : Awareness) (ids : List ℕ) (own : Bool) (c : SocketIoProvider p)
      → link (awareness_updated p awareness ids own c) ≡ link c
  unfolding awareness_updated
  awareness_updated-link awareness ids own c =
      if-holds (λ (q : SocketIoProvider p). link q ≡ link c)
        (c.destroyed || own || not c.wsconnected) (record c { awareness = awareness }) _
        (λ kept. refl) (λ sent. send-link _ (record c { awareness = awareness }))

  sync_read-link :
      (answer : Option (Doc × (ℕ × Bytes))) (c : SocketIoProvider p)
      → link (sync_read p answer c) ≡ link c
  unfolding sync_read sync_answered mark_synced answer_sync
  sync_read-link none c = refl
  sync_read-link (some (doc, (sync_type, encoder))) c =
      let answered =
        if-holds (λ (q : SocketIoProvider p). link q ≡ link c) (ltb 1 (length encoder))
          (send p encoder (record c { doc = doc })) (record c { doc = doc })
          (λ long. send-link encoder (record c { doc = doc })) (λ short. refl) in
      if-holds (λ (q : SocketIoProvider p). link q ≡ link c) _ (emit p synced_once _) _
        (λ on. emit-link synced_once _ ∙ answered) (λ off. answered)

  message_read-link :
      (found : Option (ℕ × Bytes)) (c : SocketIoProvider p) → link (message_read p found c) ≡ link c
  unfolding message_read handle_sync handle_awareness
  message_read-link none c = refl
  message_read-link (some (message_type, decoder)) c =
      if-holds (λ (q : SocketIoProvider p). link q ≡ link c) (message_type == message_sync)
        (handle_sync p decoder c) _ (λ sync. sync_read-link _ c)
        (λ other.
          if-holds (λ (q : SocketIoProvider p). link q ≡ link c) (message_type == message_awareness)
            (handle_awareness p decoder c) c
            (λ on. elim (Option-cases (p.read_var_uint8_array decoder)) [
              | inl e ↦ rw (handle_awareness, e) refl
              | inr (update, e) ↦ rw (handle_awareness, e) refl
            ])
            (λ off. refl))

  pub handle_message-link :
      (message : Bytes) (c : SocketIoProvider p) → link (handle_message p message c) ≡ link c
  unfolding handle_message
  handle_message-link message c = message_read-link _ c
