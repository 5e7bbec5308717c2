-- ===== src/Ledger/Entitlements.antt =====
-- What the ledger promises on monthly entitlements.
pub mod Claim
pub mod Quota
