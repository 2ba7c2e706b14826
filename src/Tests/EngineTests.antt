-- ===== src/Tests/EngineTests.antt =====
-- A sidecar whose documents are the updates they were given, over ASCII text.
use collab_editor.Prelude.{
  ◌∷◌, ◌++◌, ◌≡◌, ◌≢◌, ◌⊎◌, refl, [], some, none, arith, text, ◌+◌, List, length, text_eq,
}
use collab_editor.Prelude.Maps.{lookup, insert}
use collab_editor.YjsEngine.Varint.{
  Bytes, returned, plain_error, read_var_uint, write_var_uint, read_var_uint8_array,
  write_var_uint8_array, read_groups,
}
use collab_editor.YjsEngine.Varint.RoundTrip.{read_var_uint8_array-write_var_uint8_array}
use collab_editor.YjsEngine.Frames.{
  Node, build_frame, read_var_string, write_var_string, uint32_be, uint32_at, read_uint8,
  read_uint16_be, read_uint32_be,
}
use collab_editor.YjsEngine.Frames.RoundTrip.{read_var_string-write_var_string}
use collab_editor.YjsEngine.Docs.{DocOps, Docs, open_doc, get_doc}
use collab_editor.YjsEngine.Handlers.{
  answer, process_frame, sync_doc, handler_of, handle_open, handle_apply_update, apply_to_doc,
}
use collab_editor.YjsEngine.Handlers.Laws.{answer-Named, Named}
use collab_editor.YjsEngine.Handlers.Answers.{sync_doc_step1}
use collab_editor.YjsEngine.Connection.{
  receive_all, receive, concat, next_frame, serve_next, serve_frame, drain, extend,
}
use collab_editor.YjsEngine.Connection.Chunks.{receive_all_lem, drain-receive}
use collab_editor.YjsEngine.Connection.Requests.{
  Request, request_stream, answer_all, docs_after, idle, receive_all-request_stream,
}

abbrev ascii : Node
ascii = record {
  decode = λ bytes. bytes;
  encode = λ s. s;
  read_error = λ size offset. plain_error (text "out of range");
  write_error = λ n. plain_error (text "out of range");
}

abbrev log : DocOps
log = record {
  Doc = Bytes;
  new_doc = [];
  apply_update = λ doc u. (doc ++ u, none);
  encode_state_as_update = λ doc sv. returned doc;
  encode_state_vector = λ doc. returned (length doc ∷ []);
  get_text = λ doc name. returned doc;
}

-- Opening the document "d".
abbrev open_request : Request
open_request = record { seq = 7; op = 1; payload = 0 ∷ 1 ∷ text "d" }

abbrev update_request : Request
update_request = record { seq = 8; op = 3; payload = 0 ∷ 1 ∷ text "d" ++ 5 ∷ 6 ∷ [] }

abbrev requests : List Request
requests = open_request ∷ update_request ∷ []

-- The stream, cut in the middle of a length field and of a payload.
abbrev chunks : List Bytes
unfolding build_frame uint32_be
chunks =
    (1 ∷ 0 ∷ 0 ∷ [])
    ∷ (0 ∷ 9 ∷ 0 ∷ 0 ∷ 0 ∷ 7 ∷ 1 ∷ 0 ∷ 0 ∷ 1 ∷ [])
    ∷ (100 ∷ 1 ∷ 0 ∷ 0 ∷ 0 ∷ 11 ∷ 0 ∷ 0 ∷ 0 ∷ 8 ∷ 3 ∷ 0 ∷ 0 ∷ 1 ∷ 100 ∷ 5 ∷ 6 ∷ [])
    ∷ []

chunks_stream : concat chunks ≡ request_stream requests
unfolding build_frame uint32_be
chunks_stream = refl

receive_all-request_stream_example :
    receive_all ascii log (idle ascii log [] []) chunks
    ≡ idle ascii log (docs_after ascii log requests []) (answer_all ascii log requests [])
receive_all-request_stream_example =
    receive_all-request_stream ascii log requests [] chunks
      ((omega arith, omega arith), ((omega arith, omega arith), tt)) chunks_stream

-- The document then has the update.
docs_after_both : docs_after ascii log requests [] ≡ (text "d", 5 ∷ 6 ∷ []) ∷ []
unfolding answer handler_of handle_open handle_apply_update read_var_string read_uint16_be open_doc
    get_doc apply_to_doc lookup insert text_eq
docs_after_both = refl

idle_settled : serve_next ascii log (idle ascii log [] []) ≡ none
unfolding serve_next next_frame
idle_settled = refl

receive_all_lem_example :
    receive_all ascii log (idle ascii log [] []) chunks
    ≡ receive ascii log (idle ascii log [] []) (concat chunks)
receive_all_lem_example = receive_all_lem ascii log (idle ascii log [] []) chunks idle_settled

drain-receive_example :
    (drain ascii log 33 (extend ascii log (idle ascii log [] []) (concat chunks))
      ≡ receive ascii log (idle ascii log [] []) (concat chunks))
    × (((receive ascii log (idle ascii log [] []) (concat chunks)).thrown ≢ none)
        ⊎ (next_frame (receive ascii log (idle ascii log [] []) (concat chunks)).buffer ≡ none))
unfolding chunks
drain-receive_example =
    drain-receive ascii log (idle ascii log [] []) (concat chunks) 33 (omega arith)

read_var_uint8_array-write_var_uint8_array_example :
    read_var_uint8_array (write_var_uint8_array (5 ∷ 6 ∷ []) ++ 9 ∷ [])
    ≡ returned (5 ∷ 6 ∷ [], 9 ∷ [])
read_var_uint8_array-write_var_uint8_array_example =
    read_var_uint8_array-write_var_uint8_array (5 ∷ 6 ∷ []) (9 ∷ []) (omega arith)

abbrev docs : Docs log
docs = (text "d", 5 ∷ 6 ∷ []) ∷ []

answer-Named_example :
    Named ascii log (0 ∷ 1 ∷ text "d") docs (answer ascii log 7 2 (0 ∷ 1 ∷ text "d") docs).1
answer-Named_example = answer-Named ascii log 7 2 (0 ∷ 1 ∷ text "d") docs

sync_doc_step1_example :
    (reply body : Bytes) × ((sync_doc ascii log
          (text "d")
          (5 ∷ 6 ∷ [])
          (write_var_uint 0 ++ (write_var_uint8_array [] ++ []))
          docs
        ≡ (returned (0 ∷ reply), docs))
      × ((read_var_uint reply ≡ returned (1, body))
          × (read_var_uint8_array body ≡ returned (5 ∷ 6 ∷ [], []))))
sync_doc_step1_example =
    sync_doc_step1 ascii log (text "d") (5 ∷ 6 ∷ []) [] (5 ∷ 6 ∷ []) [] docs (omega arith)
      (omega arith) refl

read_var_string-write_var_string_example :
    (written : Bytes) × ((write_var_string ascii (text "d") ≡ returned written)
      × (read_var_string ascii ((9 ∷ []) ++ (written ++ [])) 1
          ≡ returned (text "d", 1 + length written)))
read_var_string-write_var_string_example =
    read_var_string-write_var_string ascii (text "d") (9 ∷ []) [] refl (omega arith)

-- A frame whose length field is zero is cut, and reading its sequence number throws out of the
-- callback.
short_frame_throws :
    (receive ascii log (idle ascii log [] []) (1 ∷ 0 ∷ 0 ∷ 0 ∷ 0 ∷ [])).thrown
    ≡ some (plain_error (text "out of range"))
unfolding receive drain extend serve_next next_frame serve_frame process_frame read_uint8
    read_uint32_be uint32_at
short_frame_throws = refl

-- The sixth byte that the loop accepts is shifted by 35 modulo 32 places, into bits that are taken.
sixth_byte : read_var_uint (128 ∷ 128 ∷ 128 ∷ 128 ∷ 128 ∷ 1 ∷ []) ≡ returned (8, [])
unfolding read_var_uint read_groups
sixth_byte = refl
