-- ===== src/Tests.antt =====
-- Tests on concrete inputs, and the theorems at inputs where their hypotheses hold.
mod Fixtures
mod Sha256
mod Tables
mod Host
mod Engines
mod Let
mod Declarations
mod Sema
mod Runtime
mod Filter
mod Lexer
mod Parser
mod Cli
