-- ===== src/Comments/Poll.antt =====
-- Loading and polling of `CommentEngine`: threads of the server are put into the map, under an
-- origin that marks no key dirty.
pub mod Laws
use collab_editor.Prelude.{
  ℕ, ◌+◌, Bool, true, false, not, ◌&&◌, ◌||◌, List, [], ◌∷◌, Option, none, some, Text, ltb,
  if◌then◌else◌,
}
use collab_editor.Prelude.Maps.{lookup, insert, has, add, remove}
use collab_editor.Interfaces.{
  CommentAnchor, Comment, Reaction, Suggestion, SuggestionStatus, pending, ThreadStatus,
  CommentsCapabilities,
}
use collab_editor.Comments.{StoredThread, Config, CommentEngine, poll_origin, observe, drop_key}
use collab_editor.Comments.Threads.{delete_thread}
use collab_editor.Comments.Persist.{decision_eq}

-- A thread in the server's answer.
pub record CommentThread : Type 0 where
  pub id : Text
  pub anchor : CommentAnchor
  pub status : ThreadStatus
  pub created_at : Text
  pub resolved_at : Option Text
  pub resolved_by : Option Text
  pub comments : List Comment
  pub reactions : List Reaction
  pub suggestion : Option Suggestion

pub data CommentChangeAction : Type 0 where
  created reply_added resolved reopened deleted suggestion_decided : CommentChangeAction

pub record CommentChange : Type 0 where
  pub thread_id : Text
  pub action : CommentChangeAction
  pub by : Text
  pub at : Text
  pub comment_id : Option Text

-- The answer to a poll.
pub record PollBody : Type 0 where
  pub changes : List CommentChange
  pub server_time : Option Text

abbrev pub is_pending : Suggestion → Bool
is_pending s = decision_eq s.status pending

abbrev pub locally_decided : Option StoredThread → Bool
locally_decided none = false
locally_decided (some t) = elim t.suggestion [ none ↦ false | some s ↦ not (is_pending s) ]

abbrev pub wire_pending : CommentThread → Bool
wire_pending thread = elim thread.suggestion [ none ↦ true | some s ↦ is_pending s ]

-- A local decision is kept against a pending suggestion of the server.
unfoldable pub keeps_decision : CommentThread → CommentEngine → Bool
keeps_decision thread e = locally_decided (lookup thread.id e.ymap) && wire_pending thread

-- The thread as the server has it. The relative positions are not on the wire.
abbrev pub wire_snapshot : CommentThread → StoredThread
wire_snapshot thread = record {
  anchor = thread.anchor;
  start_rel = none;
  end_rel = none;
  status = thread.status;
  resolved_by = thread.resolved_by;
  resolved_at = thread.resolved_at;
  suggestion = thread.suggestion;
  comments = thread.comments;
  reactions = thread.reactions;
  created_at = thread.created_at;
}

abbrev pub local_suggestion : Option StoredThread → Option Suggestion
local_suggestion none = none
local_suggestion (some t) = t.suggestion

unfoldable pub stored_of : CommentThread → CommentEngine → StoredThread
stored_of thread e =
    if keeps_decision thread e
    then record (wire_snapshot thread) { suggestion = local_suggestion (lookup thread.id e.ymap) }
    else wire_snapshot thread

module _ (config : Config) where
  -- `_insertThreadFromWire(thread, false)`, as both callers call it.
  unfoldable pub insert_thread_from_wire : CommentThread → CommentEngine → CommentEngine
  insert_thread_from_wire thread e =
      let e1 = record e {
        ymap = insert thread.id (stored_of thread e) e.ymap;
        last_persisted = insert thread.id (wire_snapshot thread) e.last_persisted;
        dirty = remove thread.id e.dirty;
      } in
      if keeps_decision thread e
      then record e1 {
        dirty = add thread.id e1.dirty;
        persist_timer = (if config.persist_enabled then true else e1.persist_timer);
      }
      else e1

  -- The transaction round it.
  unfoldable pub receive_thread : CommentThread → CommentEngine → CommentEngine
  receive_thread thread e = observe config poll_origin thread.id (insert_thread_from_wire thread e)

  -- The server's answer on the details of a thread; `none` where it is not ok.
  module _ (detail_of : Text → Option CommentThread) where
    abbrev pub is_deletion : CommentChangeAction → Bool
    is_deletion deleted = true
    is_deletion _ = false

    unfoldable pub reconcile_change : CommentChange → CommentEngine → CommentEngine
    reconcile_change change e =
        if is_deletion change.action
        then drop_key config poll_origin change.thread_id e
        else (elim (detail_of change.thread_id) [
          | none ↦ e
          | some thread ↦ receive_thread thread e
        ])

    unfoldable pub reconcile_changes : List CommentChange → CommentEngine → CommentEngine
    reconcile_changes [] e = e
    reconcile_changes (change ∷ changes) e = reconcile_changes changes (reconcile_change change e)

    -- An unfocused document is not polled, and `none` is an answer that is not ok.
    unfoldable pub poll_once : Bool → Text → Option PollBody → CommentEngine → CommentEngine
    poll_once unfocused now none e = e
    poll_once unfocused now (some body) e =
        if unfocused
        then e
        else reconcile_changes body.changes
            (record e { last_poll_at = some (elim body.server_time [ none ↦ now | some t ↦ t ]) })

    unfoldable pub load_entries : List Text → CommentEngine → CommentEngine
    load_entries [] e = e
    load_entries (id ∷ ids) e = load_entries ids (
        if has id e.ymap
        then e
        else (elim (detail_of id) [ none ↦ e | some thread ↦ receive_thread thread e ]))

    abbrev pub is_empty_thread : StoredThread → Bool
    is_empty_thread t = elim t.comments [
      | [] ↦ (elim t.suggestion [ none ↦ true | some s ↦ false ])
      | c ∷ cs ↦ false
    ]

    -- Threads without a comment and a suggestion are deleted.
    unfoldable pub collect_empty : List (Text × StoredThread) → CommentEngine → CommentEngine
    collect_empty [] e = e
    collect_empty ((id, t) ∷ rest) e =
        collect_empty rest (if is_empty_thread t then delete_thread config id e else e)

    -- `loadFromSPI`, with the ids of the listed threads.
    unfoldable pub load_from_spi : Option (List Text) → CommentEngine → CommentEngine
    load_from_spi none e = e
    load_from_spi (some ids) e = let e1 = load_entries ids e in collect_empty e1.ymap e1

  unfoldable pub stop_polling : CommentEngine → CommentEngine
  stop_polling e = record e { poll_timer = false }

  unfoldable pub start_polling : CommentEngine → CommentEngine
  start_polling e = elim e.capabilities [
    | none ↦ e
    | some c ↦
        if c.poll_supported && ltb 0 config.poll_interval_ms
        then record (stop_polling e) { poll_timer = true }
        else e
  ]

-- `fetchCapabilities`: an answer that is not ok clears them.
unfoldable pub fetch_capabilities : Option CommentsCapabilities → CommentEngine → CommentEngine
fetch_capabilities answer e = record e { capabilities = answer }
