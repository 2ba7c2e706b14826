-- ===== src/YjsEngine/Handlers.antt =====
-- The request handlers of cmd/yjs-engine/index.js. A handler passes on the
-- registry, `docs`, and answers with a payload or throws.
pub mod Laws
pub mod Answers
use collab_editor.Prelude.{
  ℕ, zero, suc, ◌+◌, ◌*◌, ◌/◌, ◌%◌, ◌-◌, Bool, true, false, not, List, [], ◌∷◌, ◌++◌, length, drop,
  Option, none, some, Text, text, text_eq, decimal, ltb, ◌==◌, if◌then◌else◌,
}
use collab_editor.Prelude.Maps.{lookup, insert, erase}
use collab_editor.YjsEngine.Varint.{
  Bytes, Failure, Attempt, returned, failed, plain_error, read_var_uint, read_var_uint8_array,
  write_var_uint, write_var_uint8_array,
}
use collab_editor.YjsEngine.Frames.{
  Node, read_uint8, read_uint32_be, read_var_string, build_frame, protocol_version, header_bytes,
  status_ok, status_err,
}
use collab_editor.YjsEngine.Docs.{DocOps, Docs, open_doc, close_doc, get_doc}

-- The `OP` codes.
abbrev pub op_open : ℕ
op_open = 1

abbrev pub op_close : ℕ
op_close = 2

abbrev pub op_apply_update : ℕ
op_apply_update = 3

abbrev pub op_sync_message : ℕ
op_sync_message = 4

abbrev pub op_encode_state : ℕ
op_encode_state = 5

abbrev pub op_encode_sv : ℕ
op_encode_sv = 6

abbrev pub op_get_text : ℕ
op_get_text = 7

abbrev pub op_ping : ℕ
op_ping = 8

abbrev pub msg_sync_step1 : ℕ
msg_sync_step1 = 0

abbrev pub msg_sync_step2 : ℕ
msg_sync_step2 = 1

abbrev pub msg_update : ℕ
msg_update = 2

-- A number below 256 in base 16.
unfoldable pub hex_digit : ℕ → ℕ
hex_digit n = if ltb n 10 then b'0' + n else b'a' + (n - 10)

unfoldable pub hex_byte : ℕ → Text
hex_byte n = if ltb n 16 then hex_digit n ∷ [] else hex_digit (n / 16) ∷ hex_digit (n % 16) ∷ []

-- `${err.code || 'ERR'}: ${err.message}`
unfoldable pub failure_text : Failure → Text
failure_text e =
    (elim e.code [ none ↦ text "ERR" | some code ↦ if text_eq code [] then text "ERR" else code ])
    ++ text ": "
    ++ e.message

module _ (node : Node) (y : DocOps) where
  open y use {Doc, apply_update, encode_state_as_update, encode_state_vector, get_text}

  -- A payload with the registry behind it.
  abbrev pub Handled : Type 0
  Handled = Attempt Bytes × Docs y

  unfoldable pub handle_open : Bytes → Docs y → Handled
  handle_open payload docs = elim (read_var_string node payload 0) [
    | failed e ↦ (failed e, docs)
    | returned (doc_id, next) ↦ (returned [], open_doc y doc_id docs)
  ]

  unfoldable pub handle_close : Bytes → Docs y → Handled
  handle_close payload docs = elim (read_var_string node payload 0) [
    | failed e ↦ (failed e, docs)
    | returned (doc_id, next) ↦ (returned [], close_doc y doc_id docs)
  ]

  -- `if (update.length > 0) Y.applyUpdate(doc, update)` on a registered document, and what is
  -- answered if it does not throw.
  unfoldable pub apply_to_doc : Text → Doc → Bytes → Bytes → Docs y → Handled
  apply_to_doc doc_id doc update answer docs =
      if ltb 0 (length update)
      then (elim (apply_update doc update).1 [
        | some e ↦ (failed e, insert doc_id (apply_update doc update).0 docs)
        | none ↦ (returned answer, insert doc_id (apply_update doc update).0 docs)
      ])
      else (returned answer, docs)

  unfoldable pub handle_apply_update : Bytes → Docs y → Handled
  handle_apply_update payload docs = elim (read_var_string node payload 0) [
    | failed e ↦ (failed e, docs)
    | returned (doc_id, next) ↦ elim (get_doc y doc_id docs) [
      | failed e ↦ (failed e, docs)
      | returned doc ↦ apply_to_doc doc_id doc (drop next payload) [] docs
    ]
  ]

  -- The branches on the sync sub-type, at the decoder behind it.
  unfoldable pub sync_step1 : Doc → Bytes → Attempt Bytes
  sync_step1 doc decoder = elim (read_var_uint8_array decoder) [
    | failed e ↦ failed e
    | returned (sv, rest) ↦ elim (encode_state_as_update doc (some sv)) [
      | failed e ↦ failed e
      | returned update ↦
          returned (msg_sync_step1 ∷ write_var_uint msg_sync_step2 ++ write_var_uint8_array update)
    ]
  ]

  unfoldable pub sync_update : ℕ → Text → Doc → Bytes → Docs y → Handled
  sync_update msg_type doc_id doc decoder docs = elim (read_var_uint8_array decoder) [
    | failed e ↦ (failed e, docs)
    | returned (update, rest) ↦ apply_to_doc doc_id doc update (msg_type ∷ []) docs
  ]

  unfoldable pub sync_doc : Text → Doc → Bytes → Docs y → Handled
  sync_doc doc_id doc sync_body docs = elim (read_var_uint sync_body) [
    | failed e ↦ (failed e, docs)
    | returned (msg_type, decoder) ↦
        if msg_type == msg_sync_step1
        then (sync_step1 doc decoder, docs)
        else if msg_type == msg_sync_step2
        then sync_update msg_type doc_id doc decoder docs
        else if msg_type == msg_update
        then sync_update msg_type doc_id doc decoder docs
        else (
          failed record {
            code = some (text "BAD_SYNC_TYPE");
            message = text "unknown sync sub-type " ++ decimal msg_type;
          },
          docs,
        )
  ]

  unfoldable pub handle_sync_message : Bytes → Docs y → Handled
  handle_sync_message payload docs = elim (read_var_string node payload 0) [
    | failed e ↦ (failed e, docs)
    | returned (doc_id, next) ↦ elim (get_doc y doc_id docs) [
      | failed e ↦ (failed e, docs)
      | returned doc ↦ sync_doc doc_id doc (drop next payload) docs
    ]
  ]

  -- The queries name a document and read it.
  unfoldable pub with_doc : (Doc → Attempt Bytes) → Bytes → Docs y → Attempt Bytes
  with_doc query payload docs = elim (read_var_string node payload 0) [
    | failed e ↦ failed e
    | returned (doc_id, next) ↦ elim (get_doc y doc_id docs) [
      | failed e ↦ failed e
      | returned doc ↦ query doc
    ]
  ]

  unfoldable pub handle_encode_state : Bytes → Docs y → Handled
  handle_encode_state payload docs =
      (with_doc (λ doc. encode_state_as_update doc none) payload docs, docs)

  unfoldable pub handle_encode_sv : Bytes → Docs y → Handled
  handle_encode_sv payload docs = (with_doc encode_state_vector payload docs, docs)

  unfoldable pub text_bytes : Text → Doc → Attempt Bytes
  text_bytes name doc = elim (get_text doc name) [
    | failed e ↦ failed e
    | returned t ↦ returned (node.encode t)
  ]

  unfoldable pub handle_get_text : Bytes → Docs y → Handled
  handle_get_text payload docs = elim (read_var_string node payload 0) [
    | failed e ↦ (failed e, docs)
    | returned (doc_id, next) ↦ elim (read_var_string node payload next) [
      | failed e ↦ (failed e, docs)
      | returned (name, next') ↦ elim (get_doc y doc_id docs) [
        | failed e ↦ (failed e, docs)
        | returned doc ↦ (text_bytes name doc, docs)
      ]
    ]
  ]

  unfoldable pub handle_ping : Bytes → Docs y → Handled
  handle_ping payload docs = (returned [], docs)

  -- `HANDLERS[op]`, and `none` for an op without one.
  unfoldable pub handler_of : ℕ → Option (Bytes → Docs y → Handled)
  handler_of op =
      if op == op_open
      then some handle_open
      else if op == op_close
      then some handle_close
      else if op == op_apply_update
      then some handle_apply_update
      else if op == op_sync_message
      then some handle_sync_message
      else if op == op_encode_state
      then some handle_encode_state
      else if op == op_encode_sv
      then some handle_encode_sv
      else if op == op_get_text
      then some handle_get_text
      else if op == op_ping
      then some handle_ping
      else none

  -- The answer to a request whose fields are read.
  unfoldable pub answer : ℕ → ℕ → Bytes → Docs y → Bytes × Docs y
  answer seq op payload docs = elim (handler_of op) [
    | none ↦
        (build_frame seq op status_err (node.encode (text "unknown op 0x" ++ hex_byte op)), docs)
    | some handler ↦ (
      elim (handler payload docs).0 [
        | returned response ↦ build_frame seq op status_ok response
        | failed e ↦ build_frame seq op status_err (node.encode (failure_text e))
      ],
      (handler payload docs).1,
    )
  ]

  -- What is thrown here is thrown out of the socket's `data` callback.
  unfoldable pub process_frame : Bytes → Docs y → Attempt Bytes × Docs y
  process_frame frame docs = elim (read_uint8 node frame 0) [
    | failed e ↦ (failed e, docs)
    | returned version ↦
        if not (version == protocol_version)
        then (
          failed (
              plain_error (
                text "protocol version mismatch: got "
                ++ decimal version
                ++ text ", want "
                ++ decimal protocol_version)),
          docs,
        )
        else (elim (read_uint32_be node frame 5) [
          | failed e ↦ (failed e, docs)
          | returned seq ↦ elim (read_uint8 node frame 9) [
            | failed e ↦ (failed e, docs)
            | returned op ↦
                let (response, docs') = answer seq op (drop header_bytes frame) docs in
                (returned response, docs')
          ]
        ])
  ]
