-- ===== src/Audit.antt =====
-- src/audit.rs: upgrade events, the scan for them, and the lineage that they give.
pub mod Event
pub mod NoPanic
pub mod Scan
pub mod Window
pub mod Lineage
pub mod Command
