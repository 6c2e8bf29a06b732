-- ===== src/Ledger.antt =====
-- The append-only accounting primitives (services/pulse/internal/domain/ledger/ledger.go): entries,
-- account snapshots, validation, application of one entry and replay. It has no persistence.
-- `AssetType` and `Operation` are string types in Go: `other` holds any string that is none of the
-- named constants, the empty one included. Amounts and balances are int64, versions and
-- identities uint64, times instants.
mod Defs
pub mod Validate
pub mod Apply
pub mod Rebuild
mod Tests
unfoldable pub use Defs.*
