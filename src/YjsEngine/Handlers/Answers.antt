-- ===== src/YjsEngine/Handlers/Answers.antt =====
-- What the requests on a document answer.
use collab_editor.Prelude.{
  ℕ, ◌^◌, ◌≡◌, ◌∙◌, ◌<◌, ◌≤◌, append-nil, ◌⊎◌, inl, inr, true, [], ◌∷◌, ◌++◌, length, none, some,
  Text, text, text_eq, text_eq_refl, ltb, Option-cases, arith,
}
use collab_editor.Prelude.Maps.{lookup, lookup-insert}
use collab_editor.YjsEngine.Varint.{
  Bytes, returned, failed, read_var_uint, read_var_uint8_array, write_var_uint,
  write_var_uint8_array,
}
use collab_editor.YjsEngine.Varint.RoundTrip.{
  read_var_uint-write_var_uint, read_var_uint8_array-write_var_uint8_array,
}
use collab_editor.YjsEngine.Frames.{Node, read_var_string, build_frame, status_err}
use collab_editor.YjsEngine.Docs.{DocOps, Docs, get_doc}
use collab_editor.YjsEngine.Handlers.{
  apply_to_doc, sync_update, sync_doc, sync_step1, handle_apply_update, handle_sync_message,
  handle_encode_state, handle_encode_sv, handler_of, answer, failure_text, with_doc,
}

three_to_six : (op : ℕ) → 3 ≤ op → op ≤ 6 → (op ≡ 3) ⊎ ((op ≡ 4) ⊎ ((op ≡ 5) ⊎ (op ≡ 6)))
three_to_six op low high = ground arith

module _ (node : Node) (y : DocOps) where
  get_doc_unknown :
      (doc_id : Text) (docs : Docs y)
      → lookup doc_id docs ≡ none
      → get_doc y doc_id docs
        ≡ failed
            record { code = some (text "UNKNOWN_DOC"); message = text "unknown doc: " ++ doc_id }
  unfolding get_doc
  get_doc_unknown doc_id docs absent = rw (get_doc, absent)

  -- An update, state or sync request for a document that is not open is answered with an error
  -- frame that says so, and opens nothing.
  answer_unknown :
      (seq op next : ℕ) (doc_id : Text) (payload : Bytes) (docs : Docs y)
      → 3 ≤ op
      → op ≤ 6
      → read_var_string node payload 0 ≡ returned (doc_id, next)
      → lookup doc_id docs ≡ none
      → answer node y seq op payload docs ≡ (
        build_frame seq op status_err (node.encode (text "UNKNOWN_DOC: unknown doc: " ++ doc_id)),
        docs,
      )
  unfolding answer handler_of handle_apply_update handle_sync_message handle_encode_state
      handle_encode_sv with_doc failure_text text_eq
  answer_unknown seq op next doc_id payload docs low high named absent =
      let unknown = get_doc_unknown doc_id docs absent in
      elim (three_to_six op low high) [
        | inl e ↦ rw e (rw (handle_apply_update, named, unknown))
        | inr (inl e) ↦ rw e (rw (handle_sync_message, named, unknown))
        | inr (inr (inl e)) ↦ rw e (rw (with_doc, named, unknown))
        | inr (inr (inr e)) ↦ rw e (rw (with_doc, named, unknown))
      ]

  -- A SyncStep1 request is answered with its sub-type and a SyncStep2 message that a reader of the
  -- protocol takes apart into the update Yjs computes from the state vector.
  pub sync_doc_step1 :
      (doc_id : Text) (doc : y.Doc) (sv update rest : Bytes) (docs : Docs y)
      → length sv < 2 ^ 32
      → length update < 2 ^ 32
      → y.encode_state_as_update doc (some sv) ≡ returned update
      → (reply body : Bytes) × ((sync_doc node y doc_id doc
              (write_var_uint 0 ++ (write_var_uint8_array sv ++ rest))
              docs
            ≡ (returned (0 ∷ reply), docs))
          × ((read_var_uint reply ≡ returned (1, body))
              × (read_var_uint8_array body ≡ returned (update, []))))
  unfolding sync_doc sync_step1
  sync_doc_step1 doc_id doc sv update rest docs hs hu h = (
    write_var_uint 1 ++ write_var_uint8_array update,
    write_var_uint8_array update,
    (
      rw (sync_doc, read_var_uint-write_var_uint 0 (write_var_uint8_array sv ++ rest) (omega arith))
          (rw (sync_step1, read_var_uint8_array-write_var_uint8_array sv rest hs, h)),
      (
        read_var_uint-write_var_uint 1 (write_var_uint8_array update) (omega arith),
        rw (append-nil (write_var_uint8_array update)) at
            (read_var_uint8_array-write_var_uint8_array update [] hu),
      ),
    ),
  )

  sync_doc-update :
      (msg_type : ℕ) (doc_id : Text) (doc : y.Doc) (update rest : Bytes) (docs : Docs y)
      → (msg_type ≡ 1) ⊎ (msg_type ≡ 2)
      → length update < 2 ^ 32
      → sync_doc node y doc_id doc
          (write_var_uint msg_type ++ (write_var_uint8_array update ++ rest))
          docs
        ≡ apply_to_doc node y doc_id doc update (msg_type ∷ []) docs
  unfolding sync_doc sync_update
  sync_doc-update msg_type doc_id doc update rest docs ty small =
      let array = read_var_uint8_array-write_var_uint8_array update rest small in
      let number =
        read_var_uint-write_var_uint msg_type (write_var_uint8_array update ++ rest)
          (ground arith) in
      rw (sync_doc, number)
        (elim ty [
          | inl e ↦ rw e (rw (sync_update, array))
          | inr e ↦ rw e (rw (sync_update, array))
        ])

  -- A SyncStep2 or Update message with an update applies it to the document it names; if Yjs throws,
  -- the answer is its error.
  sync_doc_update :
      (msg_type : ℕ) (doc_id : Text) (doc : y.Doc) (update rest : Bytes) (docs : Docs y)
      → (msg_type ≡ 1) ⊎ (msg_type ≡ 2)
      → 0 < length update
      → length update < 2 ^ 32
      → (lookup doc_id
            (sync_doc node y doc_id doc
              (write_var_uint msg_type ++ (write_var_uint8_array update ++ rest))
              docs).1
          ≡ some (y.apply_update doc update).0)
        × ((sync_doc node y doc_id doc
              (write_var_uint msg_type ++ (write_var_uint8_array update ++ rest))
              docs).0
            ≡ (elim (y.apply_update doc update).1 [
              | none ↦ returned (msg_type ∷ [])
              | some e ↦ failed e
            ]))
  unfolding apply_to_doc
  sync_doc_update msg_type doc_id doc update rest docs ty some_bytes small =
      let full : ltb 0 (length update) ≡ true = ground arith in
      let set =
        lookup-insert doc_id doc_id (y.apply_update doc update).0 docs ∙ rw (text_eq_refl doc_id) in
      rw (sync_doc-update msg_type doc_id doc update rest docs ty small)
        (elim (Option-cases (y.apply_update doc update).1) [
          | inl fine ↦ (rw (apply_to_doc, full, fine) set, rw (apply_to_doc, full, fine))
          | inr (e, thrown) ↦ (rw (apply_to_doc, full, thrown) set, rw (apply_to_doc, full, thrown))
        ])
