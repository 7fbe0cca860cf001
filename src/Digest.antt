-- ===== src/Digest.antt =====
-- src/digest.rs and the hex parsers of src/onchain.rs, src/sim.rs and src/sign.rs.
pub mod Hex
pub mod Blank
pub mod Tree
