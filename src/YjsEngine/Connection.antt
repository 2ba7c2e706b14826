-- ===== src/YjsEngine/Connection.antt =====
-- `attachConnection` of cmd/yjs-engine/index.js: the callback of the socket's `data` event, which
-- cuts the bytes that arrive into frames and answers each.
mod Rounds
pub mod Chunks
pub mod Requests
use collab_editor.Prelude.{
  ℕ, zero, suc, ◌+◌, Bool, true, false, List, [], ◌∷◌, ◌++◌, length, take, drop, Option, none, some,
  ltb, if◌then◌else◌,
}
use collab_editor.YjsEngine.Varint.{Bytes, Failure, Attempt, returned, failed}
use collab_editor.YjsEngine.Frames.{Node, uint32_at}
use collab_editor.YjsEngine.Docs.{DocOps, Docs}
use collab_editor.YjsEngine.Handlers.{process_frame}

-- The first full frame of a buffer, and the bytes behind it. The two early returns are `none`.
unfoldable pub next_frame : Bytes → Option (Bytes × Bytes)
next_frame buffer =
    if ltb (length buffer) 5
    then none
    else (let total = 1 + 4 + uint32_at buffer 1 in
        if ltb (length buffer) total then none else some (take total buffer, drop total buffer))

module _ (node : Node) (y : DocOps) where
  -- The connection's buffer, the process's registry, what was written to the socket, and what was
  -- thrown out of the callback: nothing catches that, and the process ends.
  pub record Connection : Type 0 where
    pub buffer : Bytes
    pub docs : Docs y
    pub written : List Bytes
    pub thrown : Option Failure

  -- The loop's body on a full frame. The buffer is cut before the frame is processed.
  unfoldable pub serve_frame : Bytes → Bytes → Connection → Connection
  serve_frame frame rest c =
      let (response, docs') = process_frame node y frame c.docs in
      elim response [
        | returned bytes ↦ record {
          buffer = rest;
          docs = docs';
          written = c.written ++ bytes ∷ [];
          thrown = none;
        }
        | failed e ↦ record { buffer = rest; docs = docs'; written = c.written; thrown = some e }
      ]

  -- One round of the loop; `none` where the callback returns.
  unfoldable pub serve_next : Connection → Option Connection
  serve_next c = elim c.thrown [
    | some e ↦ none
    | none ↦ elim (next_frame c.buffer) [
      | none ↦ none
      | some (frame, rest) ↦ some (serve_frame frame rest c)
    ]
  ]

  -- The loop on fuel. A frame has five bytes at least, so the buffer's length is enough.
  unfoldable pub drain : ℕ → Connection → Connection
  drain zero c = c
  drain (suc fuel) c = elim (serve_next c) [ none ↦ c | some c' ↦ drain fuel c' ]

  unfoldable pub extend : Connection → Bytes → Connection
  extend c chunk = record {
    buffer = c.buffer ++ chunk;
    docs = c.docs;
    written = c.written;
    thrown = c.thrown;
  }

  -- A `data` event.
  unfoldable pub receive : Connection → Bytes → Connection
  receive c chunk = drain (length (c.buffer ++ chunk)) (extend c chunk)

  unfoldable pub receive_all : Connection → List Bytes → Connection
  receive_all c [] = c
  receive_all c (chunk ∷ chunks) = receive_all (receive c chunk) chunks

-- `Buffer.concat`.
abbrev pub concat : List Bytes → Bytes
concat [] = []
concat (chunk ∷ chunks) = chunk ++ concat chunks
