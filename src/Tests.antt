-- ===== src/Tests.antt =====
-- Runs of the definitions on concrete inputs, and each theorem with hypotheses applied to some.
mod Concrete
mod Ids
mod Records
mod History
mod Files
mod Suppress
mod Rules
mod Trees
mod Hooks
mod Windows
mod Deployed
mod Rebuild
mod Wasm
mod Keys
mod Simulated
mod Rounds
mod Gates
