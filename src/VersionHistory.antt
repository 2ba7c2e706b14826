-- ===== src/VersionHistory.antt =====
-- The version history of the editor: frontend/src/collab/version-manager.ts and
-- version-coordinator.ts.
pub mod Manager
pub mod Coordinator
