-- ===== src/Diff.antt =====
-- Comparing texts: lines by a longest common subsequence (frontend/src/collab/diff-engine.ts), and
-- characters by a common prefix and suffix (text-binding.ts and suggest-engine.ts).
pub mod Lcs
pub mod Lines
pub mod Affix
