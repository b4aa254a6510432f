-- ===== src/Testing/Run/Status.antt =====
-- What the exit status says of the ledger.
use repository_quality_guard.Prelude.{◌≡◌, ◌↔◌, true, arith}
use repository_quality_guard.Testing.Ledger.{BatchResult, succeeded, has_text}
use repository_quality_guard.Testing.Run.{exit_status}

-- The exit status is 0 exactly for a ledger that `TestUnit.require_pass` accepts, and 2 exactly for
-- one that is marked invalid.
pub exit_status_iff :
    (report : BatchResult)
    → ((exit_status report ≡ 0) ↔ (succeeded report ≡ true))
      × ((exit_status report ≡ 2) ↔ (has_text report.invalid ≡ true))
unfolding exit_status succeeded
exit_status_iff report =
    ((λ h. ground arith, λ h. ground arith), (λ h. ground arith, λ h. ground arith))
