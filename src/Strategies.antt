-- ===== src/Strategies.antt =====
-- internal/strategies: specs, drafts and claim signals.
pub mod Themes
pub mod Signals
pub mod Spec
pub mod Universe
pub mod Service
pub mod Builder
