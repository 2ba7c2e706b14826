-- ===== src/Tests.antt =====
-- Runs at concrete inputs, and the theorems at inputs that meet their hypotheses.
mod Models
mod DiffTests
mod SuggestTests
mod BlameTests
mod CommentTests
mod BindingTests
mod ProviderTests
mod EngineTests
mod MapTests
mod HistoryTests
mod CommentRouteTests
mod LiveBlameTests
mod CollabProviderTests
mod SocketTests
mod FeatureTests
