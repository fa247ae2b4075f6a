-- ===== src/Transfer.antt =====
-- native/src/transfer: the transfer of one file, and what one connection shares among its
-- transfers.
pub mod Credit
pub mod Types
pub mod Errors
pub mod Limits
pub mod Sequence
pub mod Builder
pub mod Encode
pub mod Encoding
pub mod Inbound
pub mod Receiver
pub mod Examples
