-- ===== src/Interfaces.antt =====
-- Code that the repository calls and does not hold, as interfaces with the laws that it relies on.
pub mod Json
pub mod Encodings
pub mod Services
pub mod Files
pub mod Machine
pub mod Signatures
pub mod Serde
pub mod Drive
