-- ===== src/Process.antt =====
-- The supervision of subprocesses: runtime/src/process_lifecycle.py. Times are natural numbers of one
-- unit of the clock.
pub mod Alive
pub mod Tree
pub mod Watch
pub mod Command
mod Tests
