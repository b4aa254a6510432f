-- ===== src/Gate/Status.antt =====
-- runtime/src/gate_status.py: the static verdict on a scan report. `is_test path` stands for
-- `is_test_path(path, report.project_name)` on a path for which it does not raise.
pub mod Verdict
use repository_quality_guard.Prelude.{
  String, Bool, true, false, not, ◌&&◌, ◌||◌, List, [], ◌∷◌, Option, none, some, ◌==◌, any, select,
  nonempty, contains, starts_with_any, if◌then◌else◌,
}
use repository_quality_guard.Gate.Evidence.{flag}
use repository_quality_guard.Gate.Findings.{Finding, is_ranked}
use repository_quality_guard.Gate.Interface.{
  InterfaceChange, InterfaceDiffReport, removed, file, InterfaceKind, InterfaceChangeType,
}
use repository_quality_guard.Gate.Report.{ScanReport}

pub data CodeStatus : Type 0 where
  accept review_required reject : CodeStatus

abbrev pub absolute_blocker_codes : List String
absolute_blocker_codes =
    "QG149" ∷ "QG168" ∷ "QG179" ∷ "QG183" ∷ "QG186" ∷ "QG187" ∷ "QG189" ∷ "QG190" ∷ []

abbrev pub test_contract_codes : List String
test_contract_codes = "QG240" ∷ "QG241" ∷ "QG242" ∷ "QG243" ∷ "QG244" ∷ "QG245" ∷ "QG246" ∷ []

-- `BASELINE_GATE_EXEMPT_CODES`
abbrev pub baseline_gate_exempt_codes : List String
baseline_gate_exempt_codes = "QG179" ∷ "QG180" ∷ "QG181" ∷ "QG182" ∷ "QG208" ∷ []

abbrev is_removed : InterfaceChangeType → Bool
is_removed removed = true
is_removed _ = false

abbrev is_file : InterfaceKind → Bool
is_file file = true
is_file _ = false

-- `interface_errors`
unfoldable pub interface_errors : Option InterfaceDiffReport → Bool
interface_errors none = false
interface_errors (some diff) = nonempty diff.errors

abbrev pub without_baseline : ScanReport → Bool
without_baseline report = elim report.baseline [ none ↦ true | some b ↦ false ]

module _ (is_test : String → Bool) where
  unfoldable pub is_absolute_blocker_finding : Bool → Finding → Bool
  is_absolute_blocker_finding true f =
      contains f.code test_contract_codes && flag "absolute_blocker" f.evidence
  is_absolute_blocker_finding false f =
      flag "absolute_blocker" f.evidence
      || contains f.code absolute_blocker_codes && not (is_test f.path)

  -- A change that counts in `review_changes`.
  unfoldable pub is_review_change : InterfaceChange → Bool
  is_review_change c = not (is_test c.path) && not (is_removed c.change) && not (is_file c.kind)

  -- A finding that counts in `protocol_review`.
  unfoldable pub is_protocol_review : Finding → Bool
  is_protocol_review f = f.code == "QG182" && not (is_test f.path)

  -- `has_review`
  unfoldable pub has_review : Option InterfaceDiffReport → Bool
  has_review none = false
  has_review (some diff) =
      nonempty (select is_review_change diff.changes)
      || any is_protocol_review diff.contract_findings

  -- A finding that counts in `current_quality`.
  unfoldable pub is_quality_debt : Finding → Bool
  is_quality_debt f =
      is_ranked f.severity
      && not (starts_with_any f.code ("QG98" ∷ "QG99" ∷ []))
      && not (contains f.code baseline_gate_exempt_codes)

  unfoldable pub code_status : ScanReport → CodeStatus
  code_status report =
      let absolute_test_contract = any (is_absolute_blocker_finding true) report.test_findings in
      let absolute_code = any (is_absolute_blocker_finding false) report.findings in
      if not (report.baseline_error == "")
        || absolute_test_contract
        || absolute_code
        || interface_errors report.interface_diff
      then reject
      else if without_baseline report && any is_quality_debt report.findings
      then review_required
      else if has_review report.interface_diff
      then review_required
      else accept
