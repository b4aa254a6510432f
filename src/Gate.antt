-- ===== src/Gate.antt =====
-- The quality gate: runtime/src/model.py, gate_status.py and baseline_regression_rules.py.
pub mod Evidence
pub mod Findings
pub mod Interface
pub mod Report
pub mod Status
pub mod Gather
pub mod Docstrings
pub mod Regression
pub mod Baseline
mod Tests
