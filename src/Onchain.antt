-- ===== src/Onchain.antt =====
-- src/onchain.rs: the XDR reader and what it reads, contract ids, and the check of a deployment.
pub mod Cursor
pub mod Tags
pub mod Entry
pub mod ContractId
pub mod Verify
