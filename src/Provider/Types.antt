-- ===== src/Provider/Types.antt =====
-- The records of versions and clients of packages/provider-sdk-ts/src/types.ts; a full version is in
-- Blame/Versions.antt.
use collab_editor.Prelude.{ℕ, List, Option, Text}
use collab_editor.Blame.{BlameSegment}
use collab_editor.Blame.Versions.{VersionType}

pub record VersionListEntry : Type 0 where
  pub id : Text
  pub created_at : Text
  pub type : VersionType
  pub label : Option Text
  pub creator : Option Text
  pub mime_type : Option Text

pub record FailedUpdate : Type 0 where
  pub sequence : ℕ
  pub error : Text

pub record StoreResponse : Type 0 where
  pub stored : ℕ
  pub duplicates_ignored : Option ℕ
  pub failed : Option (List FailedUpdate)
  pub version_created : Option VersionListEntry

pub record CreateVersionRequest : Type 0 where
  pub content : Text
  pub mime_type : Option Text
  pub label : Option Text
  pub creator : Option Text
  pub type : Option VersionType
  pub blame : Option (List BlameSegment)

pub record ClientUserMapping : Type 0 where
  pub client_id : ℕ
  pub user_name : Text
