-- ===== src/YjsEngine/Connection/Requests.antt =====
-- What the relay gets for the requests it sends: the frames it builds, cut anyhow.
use collab_editor.Prelude.{
  ℕ, ◌+◌, ◌^◌, ◌≡◌, refl, sym, ap, ◌∙◌, ◌<◌, ◌≤◌, false, List, [], ◌∷◌, ◌++◌, length, drop, none,
  some, ltb, All, append_assoc, append-nil, length-append, take-append_left, drop-append_left,
  arith,
}
use collab_editor.YjsEngine.Varint.{Bytes, returned}
use collab_editor.YjsEngine.Frames.{Node, build_frame, uint32_at, header_bytes}
use collab_editor.YjsEngine.Frames.RoundTrip.{
  build_frame_fields, length-build_frame, uint32_at-build_frame,
}
use collab_editor.YjsEngine.Docs.{DocOps, Docs}
use collab_editor.YjsEngine.Handlers.{answer, process_frame}
use collab_editor.YjsEngine.Connection.{
  Connection, next_frame, serve_frame, serve_next, drain, extend, receive, receive_all, concat,
}
use collab_editor.YjsEngine.Connection.Chunks.{
  receive_all_lem, drain_round, drain_stop, serve_next_empty,
}

-- A request of the relay.
pub record Request : Type 0 where
  pub seq : ℕ
  pub op : ℕ
  pub payload : Bytes

-- Its sequence number and its length fit their fields.
abbrev pub Fits : Request → Type 0
Fits r = (r.seq < 2 ^ 32) × (length r.payload + 6 < 2 ^ 32)

abbrev pub request_frame : Request → Bytes
request_frame r = build_frame r.seq r.op 0 r.payload

abbrev pub request_stream : List Request → Bytes
request_stream [] = []
request_stream (r ∷ rs) = request_frame r ++ request_stream rs

next_frame-build_frame :
    (seq op status : ℕ) (payload rest : Bytes)
    → length payload + 6 < 2 ^ 32
    → next_frame (build_frame seq op status payload ++ rest)
      ≡ some (build_frame seq op status payload, rest)
unfolding next_frame
next_frame-build_frame seq op status payload rest h =
    let frame = build_frame seq op status payload in
    let n = 5 + uint32_at (frame ++ rest) 1 in
    let len : n ≡ length frame = omega (
      arith,
      uint32_at-build_frame seq op status payload rest h,
      length-build_frame seq op status payload,
    ) in
    let a : ltb (length (frame ++ rest)) 5 ≡ false =
      ground (arith, length-append frame rest, length-build_frame seq op status payload) in
    let b : ltb (length (frame ++ rest)) n ≡ false =
      ground (arith, length-append frame rest, len) in
    rw (next_frame, a, b)
      (rw (take-append_left n frame rest len, drop-append_left n frame rest len))

module _ (node : Node) (y : DocOps) where
  -- The specification: the requests are answered one after the other.
  abbrev pub answer_all : List Request → Docs y → List Bytes
  answer_all [] docs = []
  answer_all (r ∷ rs) docs =
      (answer node y r.seq r.op r.payload docs).0
      ∷ answer_all rs (answer node y r.seq r.op r.payload docs).1

  abbrev pub docs_after : List Request → Docs y → Docs y
  docs_after [] docs = docs
  docs_after (r ∷ rs) docs = docs_after rs (answer node y r.seq r.op r.payload docs).1

  -- The frame of a request is processed as the request.
  pub process_frame-build_frame :
      (r : Request) (docs : Docs y)
      → Fits r
      → process_frame node y (request_frame r) docs ≡ (
        returned (answer node y r.seq r.op r.payload docs).0,
        (answer node y r.seq r.op r.payload docs).1,
      )
  unfolding process_frame
  process_frame-build_frame r docs h =
      let frame = request_frame r in
      let nil = append-nil frame in
      let (v, (l, (s, (o, p)))) = build_frame_fields node r.seq r.op 0 r.payload [] h.0 h.1 in
      let v' = rw nil at v in
      let s' = rw nil at s in
      let o' = rw nil at o in
      let p' : drop header_bytes frame ≡ r.payload = rw (nil, append-nil r.payload) at p in
      rw (process_frame, v', s', o', p')

  abbrev pub idle : Docs y → List Bytes → Connection node y
  idle docs written = record { buffer = []; docs = docs; written = written; thrown = none }

  serve_next-request :
      (r : Request) (rest : Bytes) (docs : Docs y) (written : List Bytes)
      → Fits r
      → serve_next node y (extend node y (idle docs written) (request_frame r ++ rest))
        ≡ some (
            extend node y
              (idle
                (answer node y r.seq r.op r.payload docs).1
                (written ++ (answer node y r.seq r.op r.payload docs).0 ∷ []))
              rest)
  unfolding serve_next extend serve_frame
  serve_next-request r rest docs written h =
      let e = process_frame-build_frame r docs h in
      let answered = ap (λ p. p.0) e in
      let kept = ap (λ p. p.1) e in
      rw (serve_next, next_frame-build_frame r.seq r.op 0 r.payload rest h.1)
        (rw (serve_frame, answered, kept))

  drain-request_stream :
      (f : ℕ) (rs : List Request) (docs : Docs y) (written : List Bytes)
      → All Fits rs
      → length (request_stream rs) ≤ f
      → drain node y f (extend node y (idle docs written) (request_stream rs))
        ≡ idle (docs_after rs docs) (written ++ answer_all rs docs)
  unfolding extend
  drain-request_stream f [] docs written h fuel =
      drain_stop node y f (idle docs written) (serve_next_empty node y (idle docs written) refl)
      ∙ ap (idle docs) (sym (append-nil written))
  drain-request_stream f (r ∷ rs) docs written h fuel =
      let (response, docs') = answer node y r.seq r.op r.payload docs in
      drain_round node y f (extend node y (idle docs written) (request_stream (r ∷ rs)))
        (extend node y (idle docs' (written ++ response ∷ [])) (request_stream rs)) fuel
        (serve_next-request r (request_stream rs) docs written h.0)
      ∙ drain-request_stream f rs docs' (written ++ response ∷ []) h.1
          (omega (arith, length-append (request_frame r) (request_stream rs), fuel))
      ∙ ap (idle (docs_after rs docs')) (append_assoc written (response ∷ []) (answer_all rs docs'))

  -- However the stream of the relay's requests is cut into chunks, the sidecar answers each request
  -- once and in their order, nothing is thrown, and no byte is left over.
  pub receive_all-request_stream :
      (rs : List Request) (docs : Docs y) (chunks : List Bytes)
      → All Fits rs
      → concat chunks ≡ request_stream rs
      → receive_all node y (idle docs []) chunks ≡ idle (docs_after rs docs) (answer_all rs docs)
  unfolding receive
  receive_all-request_stream rs docs chunks h e =
      receive_all_lem node y (idle docs []) chunks (serve_next_empty node y (idle docs []) refl)
      ∙ ap (receive node y (idle docs [])) e
      ∙ drain-request_stream (length (request_stream rs)) rs docs [] h (omega arith)
