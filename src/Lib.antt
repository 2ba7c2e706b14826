-- ===== src/Lib.antt =====
-- Collab editor: a verification of the TypeScript core of the collaborative editor.
--
-- The editor keeps a shared document in Yjs, which is third-party code. Yjs.antt states what the
-- program relies on of it, as two records of operations and laws; everything that uses Yjs takes
-- such a record as its parameter. Strings are lists of UTF-16 code units (Prelude/Texts.antt), an
-- optional field is an `Option`, and an array is a list.
--
-- The parts, and the files that model them:
--
-- - Interfaces.antt: the wire types of frontend/src/interfaces/comments.ts and suggest.ts.
-- - Diff/Lines.antt and Diff/Lcs.antt: `computeLineDiff`, `splitLines` and `computeLCS` of
--   frontend/src/collab/diff-engine.ts. The table is filled row by row; the walk back recurs on both
--   indices, so it needs no fuel. A `while` loop that counts up to a bound is a recursion on the
--   rounds that are left.
-- - Diff/Affix.antt: `applyStringDiff` of frontend/src/collab/text-binding.ts.
-- - Replicator.antt: `DocReplicator` of frontend/src/collab/doc-replicator.ts and `resetEditorDoc` of
--   collab-provider.ts. The listeners call one another through Yjs events; `deliver` runs them on
--   fuel, and two rounds are enough.
-- - CollabProvider.antt: the connection of `CollaborationProvider` of collab-provider.ts, as a state
--   machine over its calls, the status events of the transport and the time-outs.
-- - SocketIo.antt: `SocketIOProvider` of frontend/src/collab/socketio-provider.ts, over parameters for
--   lib0 and y-protocols. SocketIo/Session.antt puts it under the provider for collaboration, with the
--   calls and the events of the socket as a step relation.
-- - Suggest.antt and Suggest/Engine.antt: `SuggestEngine` of frontend/src/collab/suggest-engine.ts.
--   The decimal digits in a summary have fuel for seventeen digits; a string length has sixteen.
-- - Blame/Live.antt and Blame/Color.antt: the walk and the colors of
--   frontend/src/collab/blame-engine.ts. The hash is kept as a bit pattern below 2 ^ 32.
-- - Blame/Log.antt: the log that the engine keeps in the storage of the browser; what fits into it is
--   a parameter. Blame/Coordinator.antt: `BlameCoordinator` of frontend/src/collab/blame-coordinator.ts,
--   over a parameter for the blame of a document, while the awareness states stay as they are; its
--   timer fires at any time while it is set.
-- - Blame/Versions.antt: packages/provider-sdk-ts/src/blame.ts, over the same `computeLCS`.
-- - Comments.antt and its children: `CommentEngine` of frontend/src/collab/comment-engine.ts. The map
--   of threads is an association list, and the engine a record that every operation passes on.
--   Threads.antt has the operations, Mentions.antt the regular expression for mentions, with the
--   length of the text as fuel, Persist.antt the loop that sends changes, Poll.antt loading and
--   polling, Anchors.antt the positions, over integers, since the offsets come from the server. The
--   network is a function of the requests sent so far; a run of the loop is one step, so that no call
--   falls between two of its requests.
-- - Binding.antt: `TextBinding` of text-binding.ts, a state machine over a parameter for the rich
--   editor. A pending timer fires at any time.
-- - Provider.antt: packages/provider-sdk-ts/src: the cache and the Yjs helpers of engine.ts, loading,
--   storing and versions of provider.ts, the routes of handler.ts. The provider is a parameter whose
--   methods may throw.
-- - YjsEngine.antt: cmd/yjs-engine/index.js, the sidecar that holds the documents for the relay.
--   Varint.antt and Frames.antt have its codecs, over bytes as numbers; a decoder is what is left to
--   read, an encoder what was written. Docs.antt has the registry, Handlers.antt the requests,
--   Connection.antt the loop that cuts the stream into frames. Writing a number takes four rounds
--   of fuel, which serve 32 bits, and the loop the length of the buffer, of which each frame takes
--   five bytes at least. Yjs, UTF-8 and the errors of Node are parameters.
-- - PositionMap.antt: frontend/src/collab/pm-position-map.ts. The document is the list of its text
--   nodes in the order of `descendants`, and a `Map` or `Set` of numbers a list in insertion order.
--   Overrides.antt has the formatting overrides, over the items of Blame/Live.antt.
-- - VersionHistory.antt: `VersionManager` and `VersionCoordinator` of frontend/src/collab. A request
--   is in the log of the manager from the call on, and what follows its reply is a step of its own.
-- - Provider/CommentRoutes.antt: packages/provider-sdk-ts/src/comments/handler.ts. `handler_for` finds
--   the handler that express finds, by the segments of the path. A body is read by express.json first,
--   which refuses one over 256 kB before any handler.
-- - FeatureModes.antt: the modes of frontend/src/multi-editor.ts that share the editor. The blame
--   coordinator, the suggest engine and the replicator are the ones above, as fields of its state.
--   FeatureModes/Handlers.antt and the files below it have the handlers, FeatureModes/Session.antt what a user and the peers do.
--   The outcome of applying a suggestion to the text is an argument of the handlers, what the comment
--   engine takes a field, and a handler that awaits runs in one step.
--
-- Not modelled: the editors' plugins and bindings, and the web components, which are
-- DOM and event wiring; the coordinator of comments, of which only the
-- flags that the modes set are there.
mod Prelude
pub mod Yjs
pub mod Interfaces
pub mod Diff
pub mod Replicator
pub mod Suggest
pub mod Blame
pub mod Comments
pub mod Binding
pub mod Provider
pub mod YjsEngine
pub mod PositionMap
pub mod VersionHistory
pub mod CollabProvider
pub mod SocketIo
pub mod FeatureModes
mod Tests
