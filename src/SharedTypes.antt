-- ===== src/SharedTypes.antt =====
-- packages/shared-types/src/index.ts: the types that the ledger keeps and the commodity routes.
mod Enums
mod Records
pub mod Events
pub mod Routes
pub use Enums.*
pub use Records.*
