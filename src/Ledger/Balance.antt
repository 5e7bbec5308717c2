-- ===== src/Ledger/Balance.antt =====
-- Where the grain is: the quantity that the ledger accounts for, and what each operation does to
-- it.
pub mod Quantities
pub mod Moves
pub mod Dispatch
pub mod Receive
pub mod Allocate
pub mod FpsReceipt
pub mod Creation
pub mod Distribute
