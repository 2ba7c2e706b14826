-- ===== src/YjsEngine/Docs.antt =====
-- The document registry of cmd/yjs-engine/index.js, and what it asks of Yjs.
use collab_editor.Prelude.{List, ◌++◌, Option, none, some, Text, text}
use collab_editor.Prelude.Maps.{lookup, insert, erase}
use collab_editor.YjsEngine.Varint.{Bytes, Failure, Attempt, returned, failed}

-- The calls of Yjs. `apply_update` leaves a document also where it throws. `get_text` names the
-- root text it reads, which is no part of the document's state.
pub record DocOps : Type 1 where
  pub Doc : Type 0
  pub new_doc : Doc
  pub apply_update : Doc → Bytes → Doc × Option Failure
  pub encode_state_as_update : Doc → Option Bytes → Attempt Bytes
  pub encode_state_vector : Doc → Attempt Bytes
  pub get_text : Doc → Text → Attempt Text

module _ (y : DocOps) where
  open y use {Doc, new_doc}

  abbrev pub Docs : Type 0
  Docs = List (Text × Doc)

  unfoldable pub open_doc : Text → Docs → Docs
  open_doc doc_id docs = elim (lookup doc_id docs) [
    | none ↦ insert doc_id new_doc docs
    | some doc ↦ docs
  ]

  unfoldable pub close_doc : Text → Docs → Docs
  close_doc doc_id docs = elim (lookup doc_id docs) [ none ↦ docs | some doc ↦ erase doc_id docs ]

  unfoldable pub get_doc : Text → Docs → Attempt Doc
  get_doc doc_id docs = elim (lookup doc_id docs) [
    | none ↦
        failed record { code = some (text "UNKNOWN_DOC"); message = text "unknown doc: " ++ doc_id }
    | some doc ↦ returned doc
  ]
