-- ===== src/Storage.antt =====
-- native/src/storage: what an incoming file may be called, and the transaction that writes it.
pub mod Types
pub mod Budget
pub mod Cleanup
pub mod Transaction
pub mod Pool
pub mod Component
pub mod Codepoints
pub mod Path
pub mod Examples
