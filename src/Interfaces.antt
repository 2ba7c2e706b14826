-- ===== src/Interfaces.antt =====
-- The wire types of frontend/src/interfaces/comments.ts and suggest.ts. Identifiers and timestamps
-- are strings; an optional field is an `Option`.
use collab_editor.Prelude.{ℕ, Bool, List, Option, Text}

-- A number that comes from a peer or the server; `negsuc n` is -(n + 1).
pub data ℤ : Type 0 where
  pos : ℕ → ℤ
  negsuc : ℕ → ℤ

pub record CommentAnchor : Type 0 where
  pub start : ℤ
  pub end : ℤ
  pub quoted_text : Text

pub record Mention : Type 0 where
  pub user_id : Text
  pub display_name : Text

pub record Reaction : Type 0 where
  pub user_id : Text
  pub user_name : Text
  pub emoji : Text
  pub created_at : Text

pub record Comment : Type 0 where
  pub id : Text
  pub thread_id : Text
  pub author_id : Text
  pub author_name : Text
  pub content : Text
  pub mentions : List Mention
  pub reactions : List Reaction
  pub created_at : Text
  pub updated_at : Option Text
  pub deleted_at : Option Text

pub data SuggestionStatus : Type 0 where
  pending accepted rejected not_applicable : SuggestionStatus

pub data OperationKind : Type 0 where
  insert delete replace format : OperationKind

pub record OperationSummary : Type 0 where
  pub kind : OperationKind
  pub offset : ℕ
  pub length : ℕ
  pub inserted_text : Option Text
  pub format_change : Option Text

pub record SuggestionView : Type 0 where
  pub summary : Text
  pub before_text : Text
  pub after_text : Text
  pub operations : List OperationSummary

pub record Suggestion : Type 0 where
  pub yjs_payload : Option Text
  pub human_readable : SuggestionView
  pub author_id : Text
  pub author_name : Text
  pub author_note : Option Text
  pub status : SuggestionStatus
  pub decided_by : Option Text
  pub decided_by_name : Option Text
  pub decided_at : Option Text
  pub applied_version_id : Option Text

pub data ThreadStatus : Type 0 where
  opened resolved : ThreadStatus

pub record CommentsCapabilities : Type 0 where
  pub comment_edit : Bool
  pub comment_delete : Bool
  pub reactions : List Text
  pub mentions : Bool
  pub suggestions : Bool
  pub max_comment_size : ℕ
  pub poll_supported : Bool

-- The payload that Suggest Mode submits.
pub record SuggestionPayload : Type 0 where
  pub anchor : CommentAnchor
  pub yjs_payload : Option Text
  pub view : SuggestionView
  pub author_note : Option Text
