-- ===== src/Tests/SuggestTests.antt =====
-- Suggestions and sessions in Suggest Mode.
use collab_editor.Prelude.{◌≡◌, false, List, [], ◌∷◌, none, Text, text}
use collab_editor.Replicator.{Replicator, new_replicator}
use collab_editor.Suggest.{compute_anchor, to_operation_summaries}
use collab_editor.Suggest.Payload.{run_operations, run_operations-to_operation_summaries}
use collab_editor.Suggest.Engine.Session.{
  Action, edit, remote, start, submit, run, fresh, nothing, leave, unsent_of, IsSound,
  session-IsSound,
}
use collab_editor.Tests.Models.{change_set, only}

abbrev before : Text
before = text "the cat sat"

abbrev after : Text
after = text "the dog sat"

run_operations-to_operation_summaries_example :
    run_operations (to_operation_summaries before after (compute_anchor before after)) before
    ≡ after
run_operations-to_operation_summaries_example = run_operations-to_operation_summaries before after

abbrev empty_pair : Replicator change_set
empty_pair = new_replicator change_set (λ _. false) (λ _. false) 0

abbrev session : List (Action change_set)
session =
    edit (only 1)
    ∷ start before
    ∷ edit (only 2)
    ∷ remote (only 3)
    ∷ submit none after
    ∷ start before
    ∷ edit (only 4)
    ∷ leave
    ∷ []

session-IsSound_example :
    IsSound change_set
      (run change_set (fresh change_set) session)
      (unsent_of change_set (fresh change_set) (nothing change_set) session)
session-IsSound_example = session-IsSound change_set session
