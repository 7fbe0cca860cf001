-- ===== src/Runner.antt =====
-- src/runner.rs and src/git.rs: recording a provenance and verifying one by rebuilding.
pub mod Git
pub mod Build
pub mod Verify
