-- ===== src/YjsEngine.antt =====
-- The Yjs sidecar of the relay, cmd/yjs-engine/index.js: a process that keeps a Y.Doc per document
-- and answers length-prefixed binary requests on a socket.
pub mod Varint
pub mod Frames
pub mod Docs
pub mod Handlers
pub mod Connection
