-- ===== src/RewardStore.antt =====
-- The grant, budget and outbox tables (services/pulse/internal/store/mysql/reward.go).
mod Records
mod Validate
mod Statements
unfoldable pub use Records.*
unfoldable pub use Validate.*
unfoldable pub use Statements.*
