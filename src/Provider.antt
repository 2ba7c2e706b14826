-- ===== src/Provider.antt =====
-- The provider SDK, packages/provider-sdk-ts/src: the document cache, the processor of requests and
-- its HTTP routes.
pub mod Types
pub mod Cache
pub mod Processor
pub mod Versions
pub mod Routes
pub mod CommentRoutes
