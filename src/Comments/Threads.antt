-- ===== src/Comments/Threads.antt =====
-- The operations of `CommentEngine` on threads. `makeId()` and the clock are outside: a new id and
-- the time are arguments.
pub mod Laws
pub mod Kept
use collab_editor.Prelude.{
  Bool, true, false, not, ◌&&◌, List, [], ◌∷◌, ◌++◌, map, filter, any, Option, none, some, Text,
  text, text_eq, if◌then◌else◌,
}
use collab_editor.Prelude.Maps.{lookup, add}
use collab_editor.Interfaces.{
  CommentAnchor, Comment, Mention, Reaction, Suggestion, SuggestionStatus, pending,
  SuggestionPayload, opened, resolved,
}
use collab_editor.Comments.{
  StoredThread, Config, CommentEngine, user_origin, schedule_persist, write, drop_key,
  mutate_thread, fits, Attempt, returned, size_error,
}
use collab_editor.Comments.Mentions.{extract_mentions}

-- The ids and the time of one call.
pub record Stamp : Type 0 where
  pub thread_id : Text
  pub comment_id : Text
  pub now : Text

module _ (config : Config) where
  abbrev pub comment_of : Stamp → Text → Text → Comment
  comment_of stamp thread_id content = record {
    id = stamp.comment_id;
    thread_id = thread_id;
    author_id = config.user_id;
    author_name = config.user_name;
    content = content;
    mentions = extract_mentions content;
    reactions = [];
    created_at = stamp.now;
    updated_at = none;
    deleted_at = none;
  }

  abbrev pub first_comments : Stamp → Option Text → List Comment
  first_comments stamp none = []
  first_comments stamp (some []) = []
  first_comments stamp (some (c ∷ s)) = comment_of stamp stamp.thread_id (c ∷ s) ∷ []

  abbrev pub content_fits : CommentEngine → Option Text → Bool
  content_fits e none = fits e []
  content_fits e (some s) = fits e s

  -- `if (suggestion?.author_note) enforceSize(suggestion.author_note)`
  abbrev pub note_fits : CommentEngine → Option Suggestion → Bool
  note_fits e none = true
  note_fits e (some s) = elim s.author_note [
    | none ↦ true
    | some t ↦ elim t [ [] ↦ true | c ∷ cs ↦ fits e (c ∷ cs) ]
  ]

  -- The relative positions are given as their base64 text.
  unfoldable pub create_thread :
      Stamp
      → CommentAnchor
      → Text
      → Text
      → Option Text
      → Option Suggestion
      → CommentEngine
      → Attempt CommentEngine
  create_thread stamp anchor start_rel end_rel content suggestion e =
      if content_fits e content && note_fits e suggestion
      then returned (
          write config user_origin stamp.thread_id
            (record {
              anchor = anchor;
              start_rel = some start_rel;
              end_rel = some end_rel;
              status = opened;
              resolved_by = none;
              resolved_at = none;
              suggestion = suggestion;
              comments = first_comments stamp content;
              reactions = [];
              created_at = stamp.now;
            })
            e)
      else size_error

  abbrev pub suggestion_of : SuggestionPayload → Suggestion
  suggestion_of payload = record {
    yjs_payload = payload.yjs_payload;
    human_readable = payload.view;
    author_id = config.user_id;
    author_name = config.user_name;
    author_note = payload.author_note;
    status = pending;
    decided_by = none;
    decided_by_name = none;
    decided_at = none;
    applied_version_id = none;
  }

  unfoldable pub commit_suggestion :
      Stamp → SuggestionPayload → Text → Text → CommentEngine → Attempt CommentEngine
  unfolding create_thread
  commit_suggestion stamp payload start_rel end_rel e =
      create_thread stamp payload.anchor start_rel end_rel none (some (suggestion_of payload)) e

  -- The reply is returned with the engine; `none` for an unknown thread.
  unfoldable pub add_reply :
      Stamp → Text → Text → CommentEngine → Attempt (CommentEngine × Option Comment)
  add_reply stamp thread_id content e =
      if fits e content
      then returned (elim (lookup thread_id e.ymap) [
        | none ↦ (e, none)
        | some t ↦ (
          write config user_origin thread_id
              (record t { comments = t.comments ++ comment_of stamp thread_id content ∷ [] }) e,
          some (comment_of stamp thread_id content),
        )
      ])
      else size_error

  abbrev pub as_resolved : Text → StoredThread → StoredThread
  as_resolved now t = record t {
    status = resolved;
    resolved_by = some config.user_id;
    resolved_at = some now;
  }

  abbrev pub as_reopened : StoredThread → StoredThread
  as_reopened t = record t { status = opened; resolved_by = none; resolved_at = none }

  unfoldable pub resolve_thread : Text → Text → CommentEngine → CommentEngine
  resolve_thread now thread_id = mutate_thread config thread_id (λ t. some (as_resolved now t))

  unfoldable pub reopen_thread : Text → CommentEngine → CommentEngine
  reopen_thread thread_id = mutate_thread config thread_id (λ t. some (as_reopened t))

  abbrev pub deleted_key : Text → Text
  deleted_key thread_id = text "__deleted__:" ++ thread_id

  unfoldable pub delete_thread : Text → CommentEngine → CommentEngine
  delete_thread thread_id e =
      let e1 = drop_key config user_origin thread_id e in
      record e1 {
        dirty = add (deleted_key thread_id) e1.dirty;
        persist_timer = (if config.persist_enabled then true else e1.persist_timer);
      }

  -- `comments.map((c) => c.id === commentId ? change(c) : c)`
  unfoldable pub map_comment : Text → (Comment → Comment) → List Comment → List Comment
  map_comment comment_id change [] = []
  map_comment comment_id change (c ∷ cs) =
      (if text_eq c.id comment_id then change c else c) ∷ map_comment comment_id change cs

  abbrev pub on_comment : Text → (Comment → Comment) → StoredThread → StoredThread
  on_comment comment_id change t = record t { comments = map_comment comment_id change t.comments }

  abbrev pub edited : Text → Text → Comment → Comment
  edited now content c = record c {
    content = content;
    mentions = extract_mentions content;
    updated_at = some now;
  }

  abbrev pub blanked : Text → Comment → Comment
  blanked now c = record c { content = []; mentions = []; deleted_at = some now }

  abbrev pub can_edit : CommentEngine → Bool
  can_edit e = elim e.capabilities [ none ↦ false | some c ↦ c.comment_edit ]

  abbrev pub can_delete : CommentEngine → Bool
  can_delete e = elim e.capabilities [ none ↦ false | some c ↦ c.comment_delete ]

  abbrev pub can_react : CommentEngine → Text → Bool
  can_react e emoji = elim e.capabilities [
    | none ↦ false
    | some c ↦ any (λ x. text_eq x emoji) c.reactions
  ]

  unfoldable pub edit_comment : Text → Text → Text → Text → CommentEngine → Attempt CommentEngine
  edit_comment now thread_id comment_id content e =
      if not (can_edit e)
      then returned e
      else if fits e content
      then returned (
          mutate_thread config thread_id (λ t. some (on_comment comment_id (edited now content) t))
            e)
      else size_error

  unfoldable pub delete_comment : Text → Text → Text → CommentEngine → CommentEngine
  delete_comment now thread_id comment_id e =
      if not (can_delete e)
      then e
      else mutate_thread config thread_id (λ t. some (on_comment comment_id (blanked now) t)) e

  abbrev pub is_by : Text → Text → Reaction → Bool
  is_by user_id emoji r = text_eq r.user_id user_id && text_eq r.emoji emoji

  abbrev pub reacted : List Reaction → Text → Bool
  reacted reactions emoji = any (is_by config.user_id emoji) reactions

  abbrev pub reaction_of : Text → Text → Reaction
  reaction_of now emoji = record {
    user_id = config.user_id;
    user_name = config.user_name;
    emoji = emoji;
    created_at = now;
  }

  -- A user reacts with an emoji once.
  unfoldable pub with_reaction : Text → Text → List Reaction → List Reaction
  with_reaction now emoji reactions =
      if reacted reactions emoji then reactions else reactions ++ reaction_of now emoji ∷ []

  unfoldable pub without_reaction : Text → List Reaction → List Reaction
  without_reaction emoji = filter (λ r. not (is_by config.user_id emoji r))

  -- The mutator of `addReaction`: `none` where the source returns the thread as it is.
  unfoldable pub react : Text → Text → Option Text → StoredThread → Option StoredThread
  react now emoji none t =
      if reacted t.reactions emoji
      then none
      else some (record t { reactions = with_reaction now emoji t.reactions })
  react now emoji (some comment_id) t =
      some (
        on_comment comment_id (λ c. record c { reactions = with_reaction now emoji c.reactions }) t)

  unfoldable pub add_reaction : Text → Text → Option Text → Text → CommentEngine → CommentEngine
  add_reaction now thread_id comment_id emoji e =
      if not (can_react e emoji)
      then e
      else mutate_thread config thread_id (react now emoji comment_id) e

  unfoldable pub unreact : Text → Option Text → StoredThread → StoredThread
  unreact emoji none t = record t { reactions = without_reaction emoji t.reactions }
  unreact emoji (some comment_id) t =
      on_comment comment_id (λ c. record c { reactions = without_reaction emoji c.reactions }) t

  unfoldable pub remove_reaction : Text → Option Text → Text → CommentEngine → CommentEngine
  remove_reaction thread_id comment_id emoji =
      mutate_thread config thread_id (λ t. some (unreact emoji comment_id t))

  abbrev pub decided : Text → SuggestionStatus → Option Text → Suggestion → Suggestion
  decided now decision version s = record s {
    status = decision;
    decided_by = some config.user_id;
    decided_by_name = some config.user_name;
    decided_at = some now;
    applied_version_id = version;
  }

  -- The mutator of `decideSuggestion`.
  unfoldable pub decide : Text → SuggestionStatus → Option Text → StoredThread → Option StoredThread
  decide now decision version t = elim t.suggestion [
    | none ↦ none
    | some s ↦ some (record t {
      status = resolved;
      resolved_by = some config.user_id;
      resolved_at = some now;
      suggestion = some (decided now decision version s);
    })
  ]

  unfoldable pub decide_suggestion :
      Text → Text → SuggestionStatus → Option Text → CommentEngine → CommentEngine
  decide_suggestion now thread_id decision version =
      mutate_thread config thread_id (decide now decision version)
