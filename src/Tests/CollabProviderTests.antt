-- ===== src/Tests/CollabProviderTests.antt =====
-- Promises for the connection.
use collab_editor.Prelude.{◌≡◌, refl, false, List, [], ◌∷◌}
use collab_editor.CollabProvider.{
  disconnected, connecting, connected, resolved, timed_out, new_collaboration_provider, Event,
  connect_called, status_emitted, awaited, disconnect_called, timer_fired, run, step, connect,
  status_changed, when_connected, time_out, disconnect, set_status, same_status, settle_all, settle,
  is_connected, times, without,
}
use collab_editor.CollabProvider.Laws.{IsCounted, run-IsCounted}

abbrev connections : List Event
connections =
    connect_called false
    ∷ awaited
    ∷ timer_fired 0
    ∷ status_emitted connected
    ∷ awaited
    ∷ disconnect_called
    ∷ []

settled_promises :
    (run connections new_collaboration_provider).settled
    ≡ record { id = 0; outcome = timed_out }
      ∷ record { id = 1; outcome = resolved }
      ∷ record { id = 2; outcome = resolved }
      ∷ []
unfolding run step connect status_changed when_connected time_out disconnect set_status same_status
    settle_all settle is_connected times without
settled_promises = refl

told_statuses :
    (run connections new_collaboration_provider).told ≡ connecting ∷ connected ∷ disconnected ∷ []
unfolding run step connect status_changed when_connected time_out disconnect set_status same_status
    settle_all settle is_connected times without
told_statuses = refl

run-IsCounted_example : IsCounted (run connections new_collaboration_provider)
run-IsCounted_example = run-IsCounted connections
