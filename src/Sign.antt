-- ===== src/Sign.antt =====
-- src/sign.rs: the DSSE envelope, the SLSA statement and the keys.
pub mod Envelope
pub mod Statement
pub mod Keys
pub mod Commands
