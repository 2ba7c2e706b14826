-- ===== src/Comments/Persist.antt =====
-- The persistence loop of `CommentEngine` (`_persist`, `flushNow`, `destroy`): every dirty key is
-- drained, its requests are sent, and it is queued again when one of them fails.
pub mod Retries
pub mod Taken
pub mod Tracking
pub mod Requests
pub mod Edits
pub mod Accepted
use collab_editor.Prelude.{
  ℕ, ◌+◌, Bool, true, false, not, ◌&&◌, ◌||◌, List, [], ◌∷◌, ◌++◌, map, filter, any, Option, none,
  some, Text, text, text_eq, leb, ltb, ◌==◌, drop, starts_with, if◌then◌else◌,
}
use collab_editor.Prelude.Maps.{lookup, insert, erase, has, add, remove}
use collab_editor.Interfaces.{
  CommentAnchor, Comment, Suggestion, SuggestionStatus, pending, accepted, rejected, not_applicable,
  ThreadStatus, opened, resolved,
}
use collab_editor.Comments.{
  StoredThread, StoredThread-discrete, Config, CommentEngine, schedule_persist,
}

-- A request to the relay, with what its body carries.
pub data Request : Type 0 where
  create_request : Text → CommentAnchor → Option Suggestion → Option Comment → Request
  reply_request : Text → Comment → Request
  status_request : Text → ThreadStatus → Option Text → Request
  decision_request : Text → SuggestionStatus → Option Text → Option Text → Request
  delete_request : Text → Request

-- A response has a status code; a rejected `fetch` has none.
pub data Reply : Type 0 where
  responded : ℕ → Reply
  network_error : Reply

abbrev pub is_ok : ℕ → Bool
is_ok code = leb 200 code && leb code 299

-- Whether the loop goes on after the response: a create tolerates 409.
unfoldable pub accepts : Request → Reply → Bool
accepts r network_error = false
accepts (create_request _ _ _ _) (responded code) = is_ok code || code == 409
accepts (reply_request _ _) (responded code) = is_ok code
accepts (status_request _ _ _) (responded code) = is_ok code
accepts (decision_request _ _ _ _) (responded code) = is_ok code
accepts (delete_request _) (responded code) = is_ok code

abbrev pub status_eq : ThreadStatus → ThreadStatus → Bool
status_eq opened opened = true
status_eq opened resolved = false
status_eq resolved opened = false
status_eq resolved resolved = true

abbrev pub decision_eq : SuggestionStatus → SuggestionStatus → Bool
decision_eq pending pending = true
decision_eq accepted accepted = true
decision_eq rejected rejected = true
decision_eq not_applicable not_applicable = true
decision_eq _ _ = false

-- The comment is not among the persisted ones and is not deleted.
unfoldable pub is_new : List Comment → Comment → Bool
is_new old c =
    not (any (λ d. text_eq d.id c.id) old) && (elim c.deleted_at [ none ↦ true | some t ↦ false ])

unfoldable pub new_comments : List Comment → List Comment → List Comment
new_comments old = filter (is_new old)

abbrev pub status_update : Text → StoredThread → StoredThread → List Request
status_update key prev stored =
    if status_eq prev.status stored.status
    then []
    else status_request key stored.status stored.resolved_by ∷ []

abbrev pub had_status : Option Suggestion → SuggestionStatus → Bool
had_status none status = false
had_status (some s) status = decision_eq s.status status

unfoldable pub decision_update : Text → Option Suggestion → Option Suggestion → List Request
decision_update key prev none = []
decision_update key prev (some s) =
    if not (decision_eq s.status pending) && not (had_status prev s.status)
    then decision_request key s.status s.decided_by s.applied_version_id ∷ []
    else []

-- The requests for a thread that the server has.
unfoldable pub updates_of : Text → StoredThread → StoredThread → List Request
updates_of key prev stored =
    map (reply_request key) (new_comments prev.comments stored.comments)
    ++ (status_update key prev stored ++ decision_update key prev.suggestion stored.suggestion)

abbrev pub first_of : List Comment → Option Comment
first_of [] = none
first_of (c ∷ cs) = some c

abbrev pub deleted_prefix : Text
deleted_prefix = text "__deleted__:"

-- Whether the thread is the one that was persisted last.
abbrev pub is_persisted : Option StoredThread → StoredThread → Bool
is_persisted none stored = false
is_persisted (some prev) stored = elim (StoredThread-discrete prev stored) [
  | yes _ ↦ true
  | no _ ↦ false
]

unfoldable pub requests_for : Text → Option StoredThread → Option StoredThread → List Request
requests_for key none prev = []
requests_for key (some stored) none =
    create_request key stored.anchor stored.suggestion (first_of stored.comments) ∷ []
requests_for key (some stored) (some prev) =
    if is_persisted (some prev) stored then [] else updates_of key prev stored

-- The requests that the loop sends for a key, as long as they are accepted.
unfoldable pub requests_of : Text → CommentEngine → List Request
requests_of key e =
    if starts_with deleted_prefix key
    then delete_request (drop 12 key) ∷ []
    else requests_for key (lookup key e.ymap) (lookup key e.last_persisted)

-- The engine once all of them were accepted.
unfoldable pub recorded : Text → CommentEngine → CommentEngine
recorded key e =
    if starts_with deleted_prefix key
    then record e { last_persisted = erase (drop 12 key) e.last_persisted }
    else (elim (lookup key e.ymap) [
      | none ↦ e
      | some stored ↦ record e { last_persisted = insert key stored e.last_persisted }
    ])

-- A run of the loop: the requests sent so far, the engine, and the keys to queue again.
pub record Run : Type 0 where
  pub sent : List Request
  pub engine : CommentEngine
  pub failed : List Text

abbrev pub max_persist_retries : ℕ
max_persist_retries = 5

abbrev pub attempts_of : Text → CommentEngine → ℕ
attempts_of key e = elim (lookup key e.retry_count) [ none ↦ 0 | some n ↦ n ]

-- What the network answers to a request depends on the requests sent before it. No other call
-- changes the engine while a run awaits its answers.
module _ (net : List Request → Request → Reply) where
  -- Requests are sent until one is refused.
  unfoldable pub send_all : List Request → List Request → List Request × Bool
  send_all sent [] = (sent, true)
  send_all sent (r ∷ rs) =
      let rest = send_all (sent ++ r ∷ []) rs in
      if accepts r (net sent r) then rest else (sent ++ r ∷ [], false)

  unfoldable pub settle : Text → Bool → Run → Run
  settle key true run =
      let e = recorded key run.engine in
      record run { engine = record e { retry_count = erase key e.retry_count } }
  settle key false run =
      let e = run.engine in
      let attempts = attempts_of key e + 1 in
      if leb max_persist_retries attempts
      then record run { engine = record e { retry_count = erase key e.retry_count } }
      else record run {
        engine = record e { retry_count = insert key attempts e.retry_count };
        failed = run.failed ++ key ∷ [];
      }

  -- One turn of the loop of `_persist`.
  unfoldable pub persist_key : Text → Run → Run
  persist_key key run =
      let answer = send_all run.sent (requests_of key run.engine) in
      settle key answer.1 (record run { sent = answer.0 })

  unfoldable pub persist_keys : List Text → Run → Run
  persist_keys [] run = run
  persist_keys (key ∷ keys) run = persist_keys keys (persist_key key run)

  abbrev pub add_all : List Text → List Text → List Text
  add_all [] dirty = dirty
  add_all (key ∷ keys) dirty = add_all keys (add key dirty)

  unfoldable pub requeue : Run → CommentEngine
  requeue run = elim run.failed [
    | [] ↦ run.engine
    | key ∷ keys ↦
        schedule_persist (record run.engine { dirty = add_all (key ∷ keys) run.engine.dirty })
  ]

  abbrev pub run_of : CommentEngine → Run
  run_of e =
      persist_keys e.dirty (record { sent = []; engine = record e { dirty = [] }; failed = [] })

  unfoldable pub persist : CommentEngine → CommentEngine
  persist e = elim e.dirty [ [] ↦ e | key ∷ keys ↦ requeue (run_of e) ]

  unfoldable pub flush_now : CommentEngine → CommentEngine
  flush_now e = persist (record e { persist_timer = false })

-- The listeners are dropped, too, so that none is notified any more.
unfoldable pub destroy : CommentEngine → CommentEngine
destroy e = record e {
  poll_timer = false;
  persist_timer = false;
  dirty = [];
  last_persisted = [];
  retry_count = [];
}
