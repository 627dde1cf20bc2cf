-- ===== src/Ledger.antt =====
-- packages/billing/src/credit-ledger.ts.
pub mod Schema
pub mod Table
pub mod Monad
pub mod Client
pub mod Wallet
pub mod Sweeps
pub mod Reservations
pub mod Purchase
pub mod Exits
pub mod Audit
pub mod Sound
pub mod Books
pub mod Moves
pub mod Balance
pub mod Holds
pub mod Invariant
