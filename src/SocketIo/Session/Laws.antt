-- ===== src/SocketIo/Session/Laws.antt =====
-- The two providers agree on the connection.
use collab_editor.Prelude.{
  ℕ, ◌≡◌, refl, sym, ap, ◌∙◌, Bool, true, false, not, ◌||◌, List, [], ◌∷◌, ◌++◌, Option, none, some,
  Bool-cases, if-holds, All, Option-cases, inl, inr, ◌⊎◌, arith,
}
use collab_editor.CollabProvider
use collab_editor.CollabProvider.{
  CollabStatus, connecting, disconnected, connected, is_connected, CollaborationProvider,
  set_status, settle_all, status_changed, when_connected, time_out, Event, status_emitted,
  connect_called, awaited, disconnect_called, timer_fired,
}
use collab_editor.CollabProvider.Laws.{IsCounted, step-IsCounted, run-IsCounted, set_status-status}
use collab_editor.SocketIo
use collab_editor.SocketIo.{
  Protocols, SocketIoProvider, status, in_use, send, update_message, awareness_message,
  new_socket_io_provider, doc_updated, awareness_updated, on_connect, on_disconnect,
  on_connect_error, handle_message, disconnect, destroy,
}
use collab_editor.SocketIo.Laws.{send-synced, emit-synced}
use collab_editor.SocketIo.Link.{
  link, on_connect-link, on_disconnect-link, on_connect_error-link, doc_updated-link,
  awareness_updated-link, handle_message-link,
}
use collab_editor.SocketIo.Session.{
  told, hung_up, Session, new_session, Step, opened, closed, linked_up, dropped, refused, received,
  edited, moved, waited, timed_out, Reach, here, next, hang_up,
}

-- What a step of the provider for collaboration does to its status.
status_emitted-status :
    (now : CollabStatus) (c : CollaborationProvider) → (told (status_emitted now) c).status ≡ now
unfolding CollabProvider.step status_changed settle_all
status_emitted-status now c =
    if-holds (λ (q : CollaborationProvider). q.status ≡ now) (is_connected now) _ (set_status now c)
      (λ on. set_status-status now c) (λ off. set_status-status now c)

disconnect_called-status :
    (c : CollaborationProvider) → (told disconnect_called c).status ≡ disconnected
unfolding CollabProvider.step CollabProvider.disconnect
disconnect_called-status c = set_status-status disconnected (record c { attached = false })

when_connected-status : (c : CollaborationProvider) → (when_connected c).status ≡ c.status
unfolding when_connected
when_connected-status c =
    if-holds (λ (q : CollaborationProvider). q.status ≡ c.status) (is_connected c.status) _ _
      (λ on. refl) (λ off. refl)

awaited-status : (c : CollaborationProvider) → (told awaited c).status ≡ c.status
unfolding CollabProvider.step
awaited-status c = when_connected-status c

connect_called-status :
    (c : CollaborationProvider) → (told (connect_called false) c).status ≡ connecting
unfolding CollabProvider.step CollabProvider.connect
connect_called-status c =
    when_connected-status _ ∙ set_status-status connecting (CollabProvider.disconnect c)

timer_fired-status :
    (id : ℕ) (c : CollaborationProvider) → (told (timer_fired id) c).status ≡ c.status
unfolding CollabProvider.step time_out
timer_fired-status id c =
    if-holds (λ (q : CollaborationProvider). q.status ≡ c.status) _ _ c (λ on. refl) (λ off. refl)

module _ (p : Protocols) where
  -- Of whether the socket is connected, whether the application was told so, and the transport.
  abbrev pub Linked : Bool → Bool → Option (SocketIoProvider p) → Type 0
  Linked live on none = (live ≡ false) × (on ≡ false)
  Linked live on (some c) =
      (on ≡ live) × ((link p c ≡ (live, (false, true))) × ((c.synced ≡ true) → live ≡ true))

  abbrev pub IsLinked : Session p → Type 0
  IsLinked s = Linked s.live (is_connected s.collab.status) s.transport × IsCounted s.collab

  some-Linked :
      (s : Session p) (c : SocketIoProvider p)
      → s.transport ≡ some c
      → IsLinked s
      → Linked s.live (is_connected s.collab.status) (some c)
  some-Linked s c e (h, counted) = rw e at h

  Linked-on :
      (live a b : Bool) (t : Option (SocketIoProvider p))
      → b ≡ a
      → Linked live a t
      → Linked live b t
  Linked-on live a b t e h = rw e h

  on_disconnect-synced : (c : SocketIoProvider p) → (on_disconnect p c).synced ≡ false
  unfolding on_disconnect
  on_disconnect-synced c =
      emit-synced p (status disconnected) (record c { wsconnected = false; synced = false })

  on_connect_error-synced : (c : SocketIoProvider p) → (on_connect_error p c).synced ≡ c.synced
  unfolding on_connect_error
  on_connect_error-synced c = emit-synced p (status disconnected) (record c { wsconnected = false })

  doc_updated-synced :
      (doc : p.Doc) (update : p.Update) (c : SocketIoProvider p)
      → (doc_updated p doc update false c).synced ≡ c.synced
  unfolding doc_updated
  doc_updated-synced doc update c =
      if-holds (λ (q : SocketIoProvider p). q.synced ≡ c.synced)
        (c.destroyed || false || not c.wsconnected) (record c { doc = doc })
        (send p (update_message p update) (record c { doc = doc })) (λ kept. refl)
        (λ sent. send-synced p _ (record c { doc = doc }))

  awareness_updated-synced :
      (awareness : p.Awareness) (ids : List ℕ) (c : SocketIoProvider p)
      → (awareness_updated p awareness ids false c).synced ≡ c.synced
  unfolding awareness_updated
  awareness_updated-synced awareness ids c =
      if-holds (λ (q : SocketIoProvider p). q.synced ≡ c.synced)
        (c.destroyed || false || not c.wsconnected) (record c { awareness = awareness })
        (send p (awareness_message p awareness ids) (record c { awareness = awareness }))
        (λ kept. refl) (λ sent. send-synced p _ (record c { awareness = awareness }))

  Step-IsLinked : {s t : Session p} → Step p s t → IsLinked s → IsLinked t
  unfolding is_connected new_socket_io_provider SocketIo.connect
  Step-IsLinked (opened s doc awareness absent) (h, counted) = (
    (ap is_connected (connect_called-status s.collab), (refl, λ e. e)),
    step-IsCounted (connect_called false) s.collab counted,
  )
  Step-IsLinked (closed s c there) (h, counted) = (
    (refl, ap is_connected (disconnect_called-status (hung_up s.live s.collab))),
    step-IsCounted disconnect_called (hung_up s.live s.collab) (
        if-holds IsCounted s.live (told (status_emitted disconnected) s.collab) s.collab
          (λ up. step-IsCounted (status_emitted disconnected) s.collab counted) (λ down. counted)),
  )
  Step-IsLinked (linked_up s c there down) (h, counted) =
      let (on, (at, fresh)) = some-Linked s c there (h, counted) in
      (
        (
          ap is_connected (status_emitted-status connected s.collab),
          (on_connect-link p c ∙ ap (λ l. (true, l.1)) at, λ e. refl),
        ),
        step-IsCounted (status_emitted connected) s.collab counted,
      )
  Step-IsLinked (dropped s c there up) (h, counted) =
      let (on, (at, fresh)) = some-Linked s c there (h, counted) in
      (
        (
          ap is_connected (status_emitted-status disconnected s.collab),
          (
            on_disconnect-link p c ∙ ap (λ l. (false, l.1)) at,
            λ e. sym (on_disconnect-synced c) ∙ e,
          ),
        ),
        step-IsCounted (status_emitted disconnected) s.collab counted,
      )
  Step-IsLinked (refused s c there down) (h, counted) =
      let (on, (at, fresh)) = some-Linked s c there (h, counted) in
      (
        (
          ap is_connected (status_emitted-status disconnected s.collab),
          (
            on_connect_error-link p c ∙ ap (λ l. (false, l.1)) at,
            λ e. sym down ∙ fresh (sym (on_connect_error-synced c) ∙ e),
          ),
        ),
        step-IsCounted (status_emitted disconnected) s.collab counted,
      )
  Step-IsLinked (received s c message there up) (h, counted) =
      let (on, (at, fresh)) = some-Linked s c there (h, counted) in
      ((on, (handle_message-link p message c ∙ at, λ e. up)), counted)
  Step-IsLinked (edited s c doc update there) (h, counted) =
      let (on, (at, fresh)) = some-Linked s c there (h, counted) in
      (
        (
          on,
          (
            doc_updated-link p doc update false c ∙ at,
            λ e. fresh (sym (doc_updated-synced doc update c) ∙ e),
          ),
        ),
        counted,
      )
  Step-IsLinked (moved s c awareness ids there) (h, counted) =
      let (on, (at, fresh)) = some-Linked s c there (h, counted) in
      (
        (
          on,
          (
            awareness_updated-link p awareness ids false c ∙ at,
            λ e. fresh (sym (awareness_updated-synced awareness ids c) ∙ e),
          ),
        ),
        counted,
      )
  Step-IsLinked (waited s) (h, counted) = (
    Linked-on s.live (is_connected s.collab.status) _ s.transport
        (ap is_connected (awaited-status s.collab)) h,
    step-IsCounted awaited s.collab counted,
  )
  Step-IsLinked (timed_out s id) (h, counted) = (
    Linked-on s.live (is_connected s.collab.status) _ s.transport
        (ap is_connected (timer_fired-status id s.collab)) h,
    step-IsCounted (timer_fired id) s.collab counted,
  )

  Reach-steps : {s : Session p} → Reach p (new_session p) s → IsLinked s
  unfolding is_connected CollabProvider.run
  Reach-steps here = ((refl, refl), run-IsCounted [])
  Reach-steps (next r st) = Step-IsLinked st (Reach-steps r)

  abbrev pub IsClosed : SocketIoProvider p → Type 0
  IsClosed c = link p c ≡ (false, (true, false))

  destroy-IsClosed :
      (c : SocketIoProvider p) → c.destroyed ≡ false → IsClosed (destroy p (disconnect p c))
  unfolding destroy disconnect
  destroy-IsClosed c e = rw e refl

  hang_up-destroyed :
      (live : Bool) (c : SocketIoProvider p) → (hang_up p live c).destroyed ≡ c.destroyed
  hang_up-destroyed live c =
      if-holds (λ (q : SocketIoProvider p). q.destroyed ≡ c.destroyed) live (on_disconnect p c) c
        (λ up. ap (λ l. l.1.0) (on_disconnect-link p c)) (λ down. refl)

  gone-IsClosed : {s : Session p} → Reach p (new_session p) s → All IsClosed s.gone
  gone-IsClosed here = tt
  gone-IsClosed (next r (closed s c there)) =
      let (on, (at, fresh)) = some-Linked s c there (Reach-steps r) in
      (
        destroy-IsClosed (hang_up p s.live c) (hang_up-destroyed s.live c ∙ ap (λ l. l.1.0) at),
        gone-IsClosed r,
      )
  gone-IsClosed (next r (opened s doc awareness absent)) = gone-IsClosed r
  gone-IsClosed (next r (linked_up s c there down)) = gone-IsClosed r
  gone-IsClosed (next r (dropped s c there up)) = gone-IsClosed r
  gone-IsClosed (next r (refused s c there down)) = gone-IsClosed r
  gone-IsClosed (next r (received s c message there up)) = gone-IsClosed r
  gone-IsClosed (next r (edited s c doc update there)) = gone-IsClosed r
  gone-IsClosed (next r (moved s c awareness ids there)) = gone-IsClosed r
  gone-IsClosed (next r (waited s)) = gone-IsClosed r
  gone-IsClosed (next r (timed_out s id)) = gone-IsClosed r

  -- In a session that is reached from a new one: where there is a transport, the application was
  -- told last that it is connected exactly if the socket is, the transport knows the same, is not
  -- destroyed, has a socket, and is synced only while connected; where there is none, nothing is
  -- connected. Each promise for the connection waits or was settled, once in all, and none waits
  -- while the application is told that it is connected. A transport that was closed is destroyed and
  -- has no socket.
  pub Reach-IsLinked :
      {s : Session p} → Reach p (new_session p) s → IsLinked s × All IsClosed s.gone
  Reach-IsLinked r = (Reach-steps r, gone-IsClosed r)

  send-sent :
      (message : List ℕ) (c : SocketIoProvider p) (n : ℕ)
      → c.socket ≡ some n
      → (send p message c).sent ≡ c.sent ++ (n, message) ∷ []
  unfolding send
  send-sent message c n e = rw e refl

  -- In a session that is reached from a new one, an edit of the document that does not come from the
  -- transport is sent to the socket in use, behind all that was sent, while that is connected; else
  -- nothing is sent.
  pub Reach-edited :
      {s : Session p} (c : SocketIoProvider p) (doc : p.Doc) (update : p.Update)
      → Reach p (new_session p) s
      → s.transport ≡ some c
      → ((s.live ≡ true)
          × ((n : ℕ) × (c.socket ≡ some n)
              × ((doc_updated p doc update false c).sent
                  ≡ c.sent ++ (n, update_message p update) ∷ [])))
        ⊎ ((s.live ≡ false) × ((doc_updated p doc update false c).sent ≡ c.sent))
  unfolding doc_updated
  Reach-edited {s} c doc update r there =
      let (on, (at, fresh)) = some-Linked s c there (Reach-steps r) in
      let kept : c.destroyed ≡ false = ap (λ l. l.1.0) at in
      let wired : c.wsconnected ≡ s.live = ap (λ l. l.0) at in
      let used : in_use p c.socket true ≡ true = ap (λ l. l.1.1) at in
      elim (Bool-cases s.live) [
        | inl up ↦ elim (Option-cases c.socket) [
          | inl gone ↦
              let clash : in_use p none true ≡ true = rw gone at used in
              absurd (ground (arith, clash))
          | inr (n, e) ↦
              let ready : (c.destroyed || false || not c.wsconnected) ≡ false =
                rw (kept, wired, up) refl in
              inl (
                up,
                (n, e, rw ready (send-sent (update_message p update) (record c { doc = doc }) n e)),
              )
        ]
        | inr down ↦
            let shut : (c.destroyed || false || not c.wsconnected) ≡ true =
              rw (kept, wired, down) refl in
            inr (down, rw shut refl)
      ]
