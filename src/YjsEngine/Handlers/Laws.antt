-- ===== src/YjsEngine/Handlers/Laws.antt =====
-- What a request may change, and how it fails.
use collab_editor.Prelude.{
  ℕ, ◌≡◌, refl, ◌∙◌, inl, inr, false, [], ◌∷◌, length, drop, Option, some, Text, text_eq, ltb, ◌==◌,
  if◌then◌else◌, Bool-cases, Option-cases, arith,
}
use collab_editor.Prelude.Maps.{lookup, lookup-insert, lookup-erase}
use collab_editor.YjsEngine.Varint.{
  Bytes, Attempt-cases, returned, failed, read_var_uint, read_var_uint8_array,
}
use collab_editor.YjsEngine.Frames.{Node, read_var_string}
use collab_editor.YjsEngine.Docs.{DocOps, Docs, open_doc, close_doc, get_doc}
use collab_editor.YjsEngine.Handlers.{
  Handled, apply_to_doc, sync_update, sync_doc, handle_open, handle_close, handle_apply_update,
  handle_sync_message, handle_encode_state, handle_encode_sv, handle_get_text, handle_ping,
  handler_of, answer,
}

module _ (node : Node) (y : DocOps) where
  -- Every registered document but one is the same in two registries.
  abbrev pub SameBut : Text → Docs y → Docs y → Type 0
  SameBut doc_id docs docs' =
      (other : Text) → text_eq doc_id other ≡ false → lookup other docs' ≡ lookup other docs

  open_doc-SameBut : (doc_id : Text) (docs : Docs y) → SameBut doc_id docs (open_doc y doc_id docs)
  unfolding open_doc
  open_doc-SameBut doc_id docs other h = elim (Option-cases (lookup doc_id docs)) [
    | inl absent ↦ rw (open_doc, absent) (lookup-insert doc_id other y.new_doc docs ∙ rw h)
    | inr (doc, present) ↦ rw (open_doc, present)
  ]

  close_doc-SameBut :
      (doc_id : Text) (docs : Docs y) → SameBut doc_id docs (close_doc y doc_id docs)
  unfolding close_doc
  close_doc-SameBut doc_id docs other h = elim (Option-cases (lookup doc_id docs)) [
    | inl absent ↦ rw (close_doc, absent)
    | inr (doc, present) ↦ rw (close_doc, present) (lookup-erase doc_id other docs ∙ rw h)
  ]

  apply_to_doc-SameBut :
      (doc_id : Text) (doc : y.Doc) (update answer : Bytes) (docs : Docs y)
      → SameBut doc_id docs (apply_to_doc node y doc_id doc update answer docs).1
  unfolding apply_to_doc
  apply_to_doc-SameBut doc_id doc update answer docs other h =
      elim (Bool-cases (ltb 0 (length update))) [
        | inr empty ↦ rw (apply_to_doc, empty)
        | inl some_bytes ↦ elim (Option-cases (y.apply_update doc update).1) [
          | inl fine ↦
              rw (apply_to_doc, some_bytes, fine)
                (lookup-insert doc_id other (y.apply_update doc update).0 docs ∙ rw h)
          | inr (e, thrown) ↦
              rw (apply_to_doc, some_bytes, thrown)
                (lookup-insert doc_id other (y.apply_update doc update).0 docs ∙ rw h)
        ]
      ]

  -- A request whose payload names no document changes nothing, another only the document it names.
  abbrev pub Named : Bytes → Docs y → Docs y → Type 0
  Named payload docs docs' = elim (read_var_string node payload 0) [
    | failed e ↦ docs' ≡ docs
    | returned (doc_id, next) ↦ SameBut doc_id docs docs'
  ]

  same-Named : (payload : Bytes) (docs : Docs y) → Named payload docs docs
  same-Named payload docs = elim (Attempt-cases (read_var_string node payload 0)) [
    | inr (e, bad) ↦ rw (Named, bad)
    | inl ((doc_id, next), named) ↦ rw (Named, named) (λ other h. refl)
  ]

  handle_open-Named :
      (payload : Bytes) (docs : Docs y) → Named payload docs (handle_open node y payload docs).1
  unfolding handle_open
  handle_open-Named payload docs = elim (Attempt-cases (read_var_string node payload 0)) [
    | inr (e, bad) ↦ rw (Named, bad) (rw (handle_open, bad))
    | inl ((doc_id, next), named) ↦
        rw (Named, named)
          (λ other h. rw (handle_open, named) (open_doc-SameBut doc_id docs other h))
  ]

  handle_close-Named :
      (payload : Bytes) (docs : Docs y) → Named payload docs (handle_close node y payload docs).1
  unfolding handle_close
  handle_close-Named payload docs = elim (Attempt-cases (read_var_string node payload 0)) [
    | inr (e, bad) ↦ rw (Named, bad) (rw (handle_close, bad))
    | inl ((doc_id, next), named) ↦
        rw (Named, named)
          (λ other h. rw (handle_close, named) (close_doc-SameBut doc_id docs other h))
  ]

  handle_apply_update-Named :
      (payload : Bytes) (docs : Docs y)
      → Named payload docs (handle_apply_update node y payload docs).1
  unfolding handle_apply_update
  handle_apply_update-Named payload docs = elim (Attempt-cases (read_var_string node payload 0)) [
    | inr (e, bad) ↦ rw (Named, bad) (rw (handle_apply_update, bad))
    | inl ((doc_id, next), named) ↦ elim (Attempt-cases (get_doc y doc_id docs)) [
      | inr (e, unknown) ↦ rw (Named, named) (λ other h. rw (handle_apply_update, named, unknown))
      | inl (doc, known) ↦
          rw (Named, named)
            (λ other h.
              rw (handle_apply_update, named, known)
                (apply_to_doc-SameBut doc_id doc (drop next payload) [] docs other h))
    ]
  ]

  sync_update-SameBut :
      (msg_type : ℕ) (doc_id : Text) (doc : y.Doc) (decoder : Bytes) (docs : Docs y)
      → SameBut doc_id docs (sync_update node y msg_type doc_id doc decoder docs).1
  unfolding sync_update
  sync_update-SameBut msg_type doc_id doc decoder docs =
      elim (Attempt-cases (read_var_uint8_array decoder)) [
        | inr (e, bad) ↦ rw (sync_update, bad) (λ other h. refl)
        | inl ((update, rest), ok) ↦
            rw (sync_update, ok) (apply_to_doc-SameBut doc_id doc update (msg_type ∷ []) docs)
      ]

  sync_doc-SameBut :
      (doc_id : Text) (doc : y.Doc) (sync_body : Bytes) (docs : Docs y)
      → SameBut doc_id docs (sync_doc node y doc_id doc sync_body docs).1
  unfolding sync_doc
  sync_doc-SameBut doc_id doc sync_body docs = elim (Attempt-cases (read_var_uint sync_body)) [
    | inr (e, bad) ↦ rw (sync_doc, bad) (λ other h. refl)
    | inl ((msg_type, decoder), ok) ↦ elim (Bool-cases (msg_type == 0)) [
      | inl step1 ↦ rw (sync_doc, ok, step1) (λ other h. refl)
      | inr not_step1 ↦ elim (Bool-cases (msg_type == 1)) [
        | inl step2 ↦
            rw (sync_doc, ok, not_step1, step2)
              (sync_update-SameBut msg_type doc_id doc decoder docs)
        | inr not_step2 ↦ elim (Bool-cases (msg_type == 2)) [
          | inl update ↦
              rw (sync_doc, ok, not_step1, not_step2, update)
                (sync_update-SameBut msg_type doc_id doc decoder docs)
          | inr unknown ↦ rw (sync_doc, ok, not_step1, not_step2, unknown) (λ other h. refl)
        ]
      ]
    ]
  ]

  handle_sync_message-Named :
      (payload : Bytes) (docs : Docs y)
      → Named payload docs (handle_sync_message node y payload docs).1
  unfolding handle_sync_message
  handle_sync_message-Named payload docs = elim (Attempt-cases (read_var_string node payload 0)) [
    | inr (e, bad) ↦ rw (Named, bad) (rw (handle_sync_message, bad))
    | inl ((doc_id, next), named) ↦ elim (Attempt-cases (get_doc y doc_id docs)) [
      | inr (e, unknown) ↦ rw (Named, named) (λ other h. rw (handle_sync_message, named, unknown))
      | inl (doc, known) ↦
          rw (Named, named)
            (λ other h.
              rw (handle_sync_message, named, known)
                (sync_doc-SameBut doc_id doc (drop next payload) docs other h))
    ]
  ]

  docs-handle_get_text :
      (payload : Bytes) (docs : Docs y) → (handle_get_text node y payload docs).1 ≡ docs
  unfolding handle_get_text
  docs-handle_get_text payload docs = elim (Attempt-cases (read_var_string node payload 0)) [
    | inr (e, bad) ↦ rw (handle_get_text, bad)
    | inl ((doc_id, next), named) ↦ elim (Attempt-cases (read_var_string node payload next)) [
      | inr (e, bad) ↦ rw (handle_get_text, named, bad)
      | inl ((name, next'), ok) ↦ elim (Attempt-cases (get_doc y doc_id docs)) [
        | inr (e, unknown) ↦ rw (handle_get_text, named, ok, unknown)
        | inl (doc, known) ↦ rw (handle_get_text, named, ok, known)
      ]
    ]
  ]

  -- What holds of each handler holds of the one an op has.
  handler_of_ind :
      (P : (Bytes → Docs y → Handled node y) → Type 0)
      → P (handle_open node y)
      → P (handle_close node y)
      → P (handle_apply_update node y)
      → P (handle_sync_message node y)
      → P (handle_encode_state node y)
      → P (handle_encode_sv node y)
      → P (handle_get_text node y)
      → P (handle_ping node y)
      → (op : ℕ) (handler : Bytes → Docs y → Handled node y) → handler_of node y op ≡ some handler
      → P handler
  unfolding handler_of
  handler_of_ind P p1 p2 p3 p4 p5 p6 p7 p8 op handler h =
      next 1 (handle_open node y) p1
        (next 2 (handle_close node y) p2 (
          next 3 (handle_apply_update node y) p3 (
            next 4 (handle_sync_message node y) p4 (
              next 5 (handle_encode_state node y) p5 (
                next 6 (handle_encode_sv node y) p6 (
                  next 7 (handle_get_text node y) p7
                    (next 8 (handle_ping node y) p8 (λ h. ground arith))))))))
        h
    where
      next :
          (code : ℕ) (f : Bytes → Docs y → Handled node y)
          {rest : Option (Bytes → Docs y → Handled node y)}
          → P f
          → (rest ≡ some handler → P handler)
          → (if op == code then some f else rest) ≡ some handler
          → P handler
      next code f p more h = elim (Bool-cases (op == code)) [
        | inl e ↦ let k : some f ≡ some handler = rw e at h in let q : f ≡ handler = cc in rw q at p
        | inr e ↦ more (rw e at h)
      ]

  -- A request changes the registry at the document that its payload names and nowhere else, and
  -- not at all where no name can be read.
  pub answer-Named :
      (seq op : ℕ) (payload : Bytes) (docs : Docs y)
      → Named payload docs (answer node y seq op payload docs).1
  unfolding answer handle_encode_state handle_encode_sv handle_ping
  answer-Named seq op payload docs = elim (Option-cases (handler_of node y op)) [
    | inl unknown ↦ rw (answer, unknown) (same-Named payload docs)
    | inr (handler, h) ↦
        rw (answer, h)
          (handler_of_ind
            (λ f. (payload : Bytes) (docs : Docs y) → Named payload docs (f payload docs).1)
            handle_open-Named handle_close-Named handle_apply_update-Named handle_sync_message-Named
            same-Named same-Named
            (λ payload docs. rw (docs-handle_get_text payload docs) (same-Named payload docs))
            same-Named op handler h payload docs)
  ]
