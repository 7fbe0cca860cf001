-- ===== src/Lib.antt =====
-- The sorseal verification library.
--
-- sorseal seals the build of Soroban contracts. `record` builds the artifacts of a manifest and keeps the digests
-- of the wasm files and of the sources as a provenance record; `verify` builds again and compares; `onchain`
-- compares a sealed digest with the one that a contract has on the ledger; `audit` scans the ledger's upgrade events
-- and checks the contract's lineage against the record; `watch` compares files with recorded baselines and sends alerts.
-- `keygen`, `sign` and `verify-attestation` make and check signed attestations of a record. A simulator builds the
-- ledger entries and events that the on-chain commands read. `analyze` runs lexical rules over the
-- contracts' sources, and `hook` installs a git hook that runs the checks before a commit.
--
-- Files and the code that they model:
-- - Base: shared helpers. Texts are lists of code points, bytes are lists of numbers, and `Result` has the
--   values, the errors of `anyhow` (each message as its format string with arguments) and panics. Utf8, Trim and
--   Paths are the string and path methods of the standard library that the code calls.
-- - Interfaces: the libraries that the code calls, as records with the laws that the theorems use: serde_json, base64,
--   strkeys, Ed25519, the file system during one check, a drive that commands write to, and the machine on which builds
--   run (shell, git, rustc, clock). SHA-256 is a function on bytes, with no law. Of Ed25519 it is only said that
--   keys and signatures are read back and that a key verifies what it has signed.
-- - Digest: src/digest.rs (`hex`, `tree_sha256`). A directory is the tree of what `read_dir` lists.
-- - Manifest: src/manifest.rs (`validate`). Provenance: src/provenance.rs (`validate`, and `load` and
--   `save` in File).
-- - Clock: src/clock.rs. Runner: src/runner.rs and src/git.rs (`record` is `record_provenance`, `verify` is
--   `verify`, `contains` is `contains_commit`); a build is a step on the machine's state.
-- - Onchain: src/onchain.rs: Cursor and Entry read XDR, ContractId normalizes ids, Verify makes the check.
-- - Audit: src/audit.rs: Event decodes, Scan pages through the events, Lineage builds the
--   report, Window probes for the ledgers that a node has, Command is the command `onchain-audit` of src/main.rs.
-- - Sim: src/sim.rs. Encode has the encoders and RoundTrip what the readers of Onchain and Audit make of them; Ledger
--   has MockLedger, MockTransport (`mock_post`) and the ledger of a record, Simulate the command
--   `simulate-onchain` of src/main.rs (`simulate_onchain`).
-- - Sign: src/sign.rs. Envelope has the DSSE envelope, Statement the SLSA statement and the subject check, Keys the key
--   files and `attest`, and Commands the commands `keygen`, `sign` and `verify-attestation` of src/main.rs.
-- - Watch: src/watch.rs, with the baselines as explicit state, which comes back with an error too. Check has
--   `check_once`, Alerts the texts, SARIF values and requests, Loop `run_loop` on a list of rounds, each with the
--   files as they are then and the answer to saving, and `watch --once` of src/main.rs (`watch_once`), State the files.
-- - WasmScan: src/wasm_scan.rs (`scan`, `wasm_findings`), with additions of positions as in a build with overflow checks.
-- - Analyze: src/analyze.rs. Lexer strips comments and literals, Blocks finds test blocks and functions, FunctionRules
--   and LineRules are the rules with their findings in Reports, Suppress has the inline suppressions, File runs all of
--   them on one file, Tree walks over the sources and sorts, Findings has the types, the digest and the gate, and
--   RuleTable and Explain have the documented rules, and Render the console and Markdown texts.
--   A source tree is what `read_dir` and `read_to_string` find. Command is the command `analyze` of src/main.rs.
-- - Hook: src/hook.rs, with the file at the hook's path as state and the answers of git and of each call as arguments.
-- - Tests: concrete libraries, runs of the definitions, and the theorems applied to concrete inputs.
--
-- Bounds: `scan_pages` counts down the pages that MAX_PAGES still allows, as the source counts them up, so no fuel
-- is added to the code. `walk_sections` is given as many rounds as the file has bytes, and each round reads at
-- least one. `digits` prints at most 20 digits, and a u64 has no more. A cursor's offsets and lengths are checked
-- as `checked_add` does on 64 bits. A line number of the analyzer is a `u32`: sums are taken modulo 2^32. So
-- are the ledgers of the simulator, as in a build without overflow checks, and `hex_number` prints at most 16 digits.
--
-- Not modelled: the text of TOML and JSON, printing by the commands, HTTP, argument parsing and the other commands of
-- src/main.rs, the templates (src/scaffold.rs), src/report.rs and src/sarif.rs, and how libraries word their errors. A
-- hash in a warning of the audit is kept whole, where the source prints its first twelve bytes and would panic inside a
-- character; what the events and the contract are decoded to is hex. The mode 0755 of the hook is that it may be
-- executed. In a build without overflow checks an offset past 2^64 of a wasm section wraps around, which is not modelled.
-- `char::is_alphanumeric` is a parameter.
pub mod Analyze
pub mod Audit
pub mod Base
pub mod Clock
pub mod Digest
pub mod Hook
pub mod Interfaces
pub mod Manifest
pub mod Onchain
pub mod Provenance
pub mod Runner
pub mod Sign
pub mod Sim
pub mod Tests
pub mod WasmScan
pub mod Watch
