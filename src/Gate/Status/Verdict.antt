-- ===== src/Gate/Status/Verdict.antt =====
-- What each verdict of the gate says of the report.
use repository_quality_guard.Prelude.{
  String, ◌≡◌, ◌↔◌, ◌⊎◌, ◌==◌, Bool, true, false, List, ◌++◌, any, arith, ◌≤◌, ℕ, any-append,
}
use repository_quality_guard.Gate.Findings.{Finding}
use repository_quality_guard.Gate.Report.{ScanReport}
use repository_quality_guard.Gate.Status.{
  CodeStatus, accept, review_required, reject, code_status, is_absolute_blocker_finding,
  interface_errors, has_review, is_quality_debt, without_baseline,
}

-- The verdicts in their order.
abbrev pub level : CodeStatus → ℕ
level accept = 0
level review_required = 1
level reject = 2

module _ (is_test : String → Bool) where
  -- The gate accepts exactly when nothing rejects, nothing of the interface is up for review, and
  -- there is a baseline or no finding that a baseline would have to explain.
  pub code_status-accept_iff :
      (report : ScanReport)
      → (code_status is_test report ≡ accept) ↔ (
          ((report.baseline_error == "") ≡ true)
          × (any (is_absolute_blocker_finding is_test true) report.test_findings ≡ false)
          × (any (is_absolute_blocker_finding is_test false) report.findings ≡ false)
          × (interface_errors report.interface_diff ≡ false)
          × (has_review is_test report.interface_diff ≡ false)
          × ((without_baseline report ≡ false)
              ⊎ (any (is_quality_debt is_test) report.findings ≡ false)))
  unfolding code_status
  code_status-accept_iff report = (λ h. ground arith, λ h. ground arith)

  -- More findings never make the verdict better.
  pub code_status_grows :
      (report : ScanReport) (more more_tests : List Finding)
      → level (code_status is_test report)
        ≤ level (
            code_status is_test (record report {
              findings = report.findings ++ more;
              test_findings = report.test_findings ++ more_tests;
            }))
  unfolding code_status
  code_status_grows report more more_tests = ground (
    arith,
    any-append (is_absolute_blocker_finding is_test true) report.test_findings more_tests,
    any-append (is_absolute_blocker_finding is_test false) report.findings more,
    any-append (is_quality_debt is_test) report.findings more,
  )
