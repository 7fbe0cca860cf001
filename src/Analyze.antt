-- ===== src/Analyze.antt =====
-- src/analyze.rs: the static analyzer.
pub mod Findings
pub mod Gate
pub mod Suppress
pub mod Lexer
pub mod Reports
pub mod Lines
pub mod FunctionRules
pub mod LineRules
pub mod Blocks
pub mod File
pub mod RuleTable
pub mod Explain
pub mod Tree
pub mod Command
pub mod Render
