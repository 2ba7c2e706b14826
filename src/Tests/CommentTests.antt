-- ===== src/Tests/CommentTests.antt =====
-- Threads of comments, their persistence and their anchors.
use collab_editor.Prelude.{
  ◌⊎◌, ◌≡◌, ◌↔◌, refl, inl, inr, true, List, [], ◌∷◌, some, none, arith, Text, text, text_eq,
  starts_with,
}
use collab_editor.Prelude.Maps.{lookup, member}
use collab_editor.Interfaces.{pos, negsuc, Comment, Mention, Suggestion, accepted, opened}
use collab_editor.Comments.{StoredThread, Config, CommentEngine, new_comment_engine}
use collab_editor.Comments.Threads.{on_comment}
use collab_editor.Comments.Threads.Kept.{IsKept, perform, perform-IsKept, deleting}
use collab_editor.Comments.Persist.{
  Request, Reply, responded, network_error, accepts, persist, run_of, requests_of, updates_of,
}
use collab_editor.Comments.Persist.Tracking.{persist-IsPersisted, IsPersisted}
use collab_editor.Comments.Persist.Accepted.{dirty-persist}
use collab_editor.Comments.Persist.Edits.{updates_of-on_comment}
use collab_editor.Comments.Poll.{
  CommentThread, PollBody, reply_added, receive_thread, wire_snapshot,
}
use collab_editor.Comments.Poll.Laws.{receive_thread-decided}
use collab_editor.Comments.Anchors.{
  resolve_anchor, relative_range, fallback_range, is_thread_orphaned,
}
use collab_editor.Comments.Anchors.Laws.{
  IsInside, IsLost, resolve_anchor-IsInside, is_thread_orphaned-IsLost,
}

abbrev ann : Mention
ann = record { user_id = text "u1"; display_name = text "Ann" }

abbrev config : Config
config = record {
  document_id = text "doc";
  user_id = text "u1";
  user_name = text "Ann";
  poll_interval_ms = 30000;
  persist_enabled = true;
}

abbrev remark : Comment
remark = record {
  id = text "c1";
  thread_id = text "t1";
  author_id = text "u1";
  author_name = text "Ann";
  content = text "why";
  mentions = [];
  reactions = [];
  created_at = text "now";
  updated_at = none;
  deleted_at = none;
}

abbrev thread : StoredThread
thread = record {
  anchor = record { start = pos 0; end = pos 3; quoted_text = text "cat" };
  start_rel = none;
  end_rel = none;
  status = opened;
  resolved_by = none;
  resolved_at = none;
  suggestion = none;
  comments = remark ∷ [];
  reactions = [];
  created_at = text "now";
}

abbrev suggestion : Suggestion
suggestion = record {
  yjs_payload = none;
  human_readable = record { summary = []; before_text = []; after_text = []; operations = [] };
  author_id = text "u1";
  author_name = text "Ann";
  author_note = none;
  status = accepted;
  decided_by = none;
  decided_by_name = none;
  decided_at = none;
  applied_version_id = none;
}

abbrev decided_thread : StoredThread
decided_thread = record thread { suggestion = some suggestion }

abbrev key : Text
key = text "t1"

abbrev engine : CommentEngine
engine = record (new_comment_engine none ((key, thread) ∷ [])) { dirty = key ∷ [] }

abbrev persisted_engine : CommentEngine
persisted_engine = record (new_comment_engine none ((key, thread) ∷ [])) {
  last_persisted = (key, thread) ∷ [];
}

perform-IsKept_example : IsKept config key (perform config (deleting key) persisted_engine)
unfolding member text_eq lookup
perform-IsKept_example =
    perform-IsKept config (deleting key) key persisted_engine
      (inl ((λ absent. ground (arith, absent)), inr refl))

abbrev offline : List Request → Request → Reply
offline sent r = network_error

abbrev taking : List Request → Request → Reply
taking sent r = responded 409

persist-IsPersisted_example :
    (member key (persist taking engine).dirty ≡ true)
    ⊎ IsPersisted taking key
        (requests_of key engine)
        (run_of taking engine).sent
        (persist taking engine)
unfolding member text_eq starts_with lookup
persist-IsPersisted_example = persist-IsPersisted taking key engine refl refl (omega arith) refl

abbrev all_ok : List Request → Request → Reply
all_ok sent r = responded 200

all_ok-accepts : (sent : List Request) (r : Request) → accepts r (all_ok sent r) ≡ true
unfolding accepts
all_ok-accepts sent (Request.create_request a b c d) = refl
all_ok-accepts sent (Request.reply_request a b) = refl
all_ok-accepts sent (Request.status_request a b c) = refl
all_ok-accepts sent (Request.decision_request a b c d) = refl
all_ok-accepts sent (Request.delete_request a) = refl

dirty-persist_example : (persist all_ok engine).dirty ≡ []
dirty-persist_example = dirty-persist all_ok all_ok-accepts engine

abbrev decided_after : CommentEngine
decided_after = record (new_comment_engine none ((key, decided_thread) ∷ [])) {
  last_persisted = (key, thread) ∷ [];
}

updates_of-on_comment_example :
    updates_of key thread
      (on_comment config (text "c1") (λ c. record c { content = text "ok" }) thread)
    ≡ []
updates_of-on_comment_example =
    updates_of-on_comment config key (text "c1") (λ c. record c { content = text "ok" }) thread
      (λ c. refl)

abbrev wire : CommentThread
wire = record {
  id = key;
  anchor = thread.anchor;
  status = opened;
  created_at = text "now";
  resolved_at = none;
  resolved_by = none;
  comments = remark ∷ [];
  reactions = [];
  suggestion = none;
}

abbrev polled : PollBody
polled = record {
  changes =
      record {
        thread_id = key;
        action = reply_added;
        by = text "u2";
        at = text "now";
        comment_id = none;
      }
      ∷ [];
  server_time = none;
}

abbrev decided_engine : CommentEngine
decided_engine = new_comment_engine none ((key, decided_thread) ∷ [])

receive_thread-decided_example :
    (lookup key (receive_thread config wire decided_engine).ymap
      ≡ some (record (wire_snapshot wire) { suggestion = some suggestion }))
    × (member key (receive_thread config wire decided_engine).dirty ≡ true)
unfolding lookup text_eq
receive_thread-decided_example =
    receive_thread-decided config wire decided_thread suggestion decided_engine refl refl refl refl

-- An insertion whose offsets are not in the text.
abbrev misplaced : StoredThread
misplaced = record thread { anchor = record { start = negsuc 1; end = pos 9; quoted_text = [] } }

resolve_anchor-IsInside_example : IsInside (text "the cat") (record { from = 0; to = 7 })
unfolding resolve_anchor relative_range fallback_range
resolve_anchor-IsInside_example =
    resolve_anchor-IsInside (λ s. none) (text "the cat") misplaced (record { from = 0; to = 7 })
      refl

is_thread_orphaned-IsLost_example :
    (is_thread_orphaned (text "the dog") key engine ≡ true) ↔ IsLost (text "the dog") thread
unfolding lookup text_eq
is_thread_orphaned-IsLost_example =
    is_thread_orphaned-IsLost (text "the dog") key thread engine refl
