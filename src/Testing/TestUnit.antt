-- ===== src/Testing/TestUnit.antt =====
-- packages/rqgtest/src/rqgtest/core/unit.py: the executor of a Case.
pub mod Invoke
pub mod Streams
pub mod Stateful
pub mod Multi
pub mod Samples
pub mod Sequence
