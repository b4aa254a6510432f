-- ===== src/Testing.antt =====
-- packages/rqgtest: values and exceptions of the running program, the Case contract, the result
-- ledger, the executor and the command line runner.
pub mod Value
pub mod Runtime
pub mod Case
pub mod Ledger
pub mod TestUnit
pub mod Loader
pub mod Run
mod Tests
