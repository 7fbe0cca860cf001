-- ===== src/Sim.antt =====
-- src/sim.rs: the encoders of the synthetic ledger, and what the readers make of them.
pub mod Encode
pub mod RoundTrip
pub mod Deployed
pub mod Ledger
pub mod Simulate
