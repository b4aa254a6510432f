-- ===== src/Testing/Ledger/Laws.antt =====
-- When a ledger counts as a success.
use repository_quality_guard.Prelude.{
  ◌≡◌, ◌↔◌, true, false, arith, all, nonempty, all_of_count_true, count_true_of_all,
}
use repository_quality_guard.Testing.Ledger.{BatchResult, is_pass, has_text, succeeded}

-- A batch succeeds exactly when it has samples, no invalidity message, and every sample passed.
pub succeeded_iff :
    (report : BatchResult)
    → (succeeded report ≡ true) ↔ (
        (nonempty report.samples ≡ true)
        × (has_text report.invalid ≡ false)
        × (all is_pass report.samples ≡ true))
unfolding succeeded
succeeded_iff report = (
  λ h. ground (arith, all_of_count_true is_pass report.samples),
  λ h. ground (arith, count_true_of_all is_pass report.samples),
)
