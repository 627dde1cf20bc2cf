-- ===== src/Ledger/Balance.antt =====
-- Every operation of credit-ledger.ts keeps the books of every organization balanced.
pub mod Amounts
pub mod Grants
pub mod Release
pub mod Expiry
pub mod Exits
pub mod Kept
pub mod Loading
pub mod Reservations
pub mod Captures
