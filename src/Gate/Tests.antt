-- ===== src/Gate/Tests.antt =====
-- The theorems on the quality gate at concrete reports.
use repository_quality_guard.Prelude.{
  String, ◌≡◌, ◌↔◌, ◌≤◌, refl, Bool, true, List, [], ◌∷◌, ◌++◌, Option, none, some, Member, here,
  there, format, nonempty, starts_with, ap, sym, ◌∙◌,
}
use repository_quality_guard.Gate.Evidence.{nothing}
use repository_quality_guard.Gate.Findings.{Finding, Severity, error, warning, high, fingerprint}
use repository_quality_guard.Gate.Interface.{
  InterfaceChange, InterfaceDiffReport, added, removed, function,
}
use repository_quality_guard.Gate.Report.{QualityBaseline, ScanReport}
use repository_quality_guard.Gate.Status.{code_status, reject}
use repository_quality_guard.Gate.Status.Verdict.{level, code_status_grows}
use repository_quality_guard.Gate.Gather.Latest.{latest}
use repository_quality_guard.Gate.Docstrings.{docstring_regression}
use repository_quality_guard.Gate.Docstrings.Missing.{IsIntroduced, docstring_regression_iff}
use repository_quality_guard.Gate.Regression.{is_gated, quality_regression}
use repository_quality_guard.Gate.Regression.NoOffset.{Regresses, quality_regression_iff}
use repository_quality_guard.Gate.Baseline.{
  no_counts, quality_baseline, append_quality_count_regression_finding, with_deltas,
}
use repository_quality_guard.Gate.Baseline.Rejects.{append-reject}
use repository_quality_guard.Gate.Baseline.Quiet.{append-eq_of_nothing_new}

abbrev digest : String → String
digest message = message

abbrev codes : List String
codes = "QG180" ∷ "QG181" ∷ "QG182" ∷ []

abbrev is_test : String → Bool
is_test path = starts_with path "tests/"

-- A long function, of the severity given.
abbrev long_function : Severity → Finding
long_function severity = record {
  code = "QG010";
  severity = severity;
  confidence = high;
  path = "a.py";
  line = 3;
  column = 1;
  message = "too long";
  symbol = "f";
  suggestion = "";
  evidence = [];
  source = "quality-guard";
}

abbrev undocumented : Finding
undocumented = record (long_function warning) { code = "QG027"; message = "no docstring" }

abbrev baseline : QualityBaseline
baseline = record {
  revision = "HEAD";
  files_scanned = 1;
  definitions = 1;
  documented_definitions = 1;
  complete_docstrings = 1;
  docstring_definitions = 1;
  summary = record no_counts { warning = 1 };
  by_rule = [];
  by_file = [];
  finding_severities = (fingerprint digest (long_function warning), warning) ∷ [];
  semantic_review_fingerprints = [];
}

abbrev scan : List Finding → Option QualityBaseline → ScanReport
scan findings against = record {
  root = ".";
  files_scanned = 1;
  findings = findings;
  definitions = 1;
  documented_definitions = 1;
  complete_docstrings = 1;
  docstring_definitions = 1;
  interface_diff = none;
  scope_notes = [];
  focus_paths = [];
  project_name = "";
  profile_source = "";
  profile_capabilities = [];
  commit_policy = [];
  profile_metadata = [];
  baseline = against;
  baseline_error = "";
  comparison_mode = "";
  comparison_target = "WORKTREE";
  quality_count_deltas = none;
  test_findings = [];
  test_files_scanned = 0;
  test_definitions = 0;
  test_baseline = none;
  relation_graph = [];
  multilang_summary = [];
}

abbrev worse : ScanReport
worse = scan (long_function error ∷ []) (some baseline)

-- The long function was a warning and is an error now.
worse-Regresses : Regresses digest codes baseline worse.findings
unfolding latest is_gated fingerprint format
worse-Regresses = (fingerprint digest (long_function error), (long_function error, (refl, refl)))

append-reject_example :
    (joined : ScanReport) × ((append_quality_count_regression_finding digest codes worse
        ≡ some joined)
      × (code_status is_test joined ≡ reject))
append-reject_example =
    append-reject digest codes is_test worse baseline refl refl refl refl worse-Regresses

quality_regression_iff_example :
    (out : List Finding) × ((quality_regression digest codes worse ≡ some out)
      × ((nonempty out ≡ true) ↔ Regresses digest codes baseline worse.findings))
quality_regression_iff_example = quality_regression_iff digest codes worse baseline refl refl

docstring_regression_iff_example :
    (nonempty (
        docstring_regression digest
          (λ documented eligible. nothing)
          (scan (undocumented ∷ []) (some baseline)))
      ≡ true)
    ↔ ((f : Finding) × IsIntroduced digest baseline (undocumented ∷ []) f)
docstring_regression_iff_example =
    docstring_regression_iff digest baseline (λ documented eligible. nothing)
      (scan (undocumented ∷ []) (some baseline)) refl

code_status_grows_example :
    level (code_status is_test (scan [] none))
    ≤ level (
        code_status is_test (record (scan [] none) {
          findings = [] ++ long_function error ∷ [];
          test_findings = [] ++ [];
        }))
code_status_grows_example = code_status_grows is_test (scan [] none) (long_function error ∷ []) []

abbrev known : ScanReport
known = scan (long_function warning ∷ []) none

abbrev again : ScanReport
again = scan (long_function warning ∷ []) (some (quality_baseline digest (λ fs. []) known "HEAD"))

only-Member : {x a : Finding} → Member x (a ∷ []) → x ≡ a
only-Member here = refl
only-Member (there m) = elim m [ ]

known-consistent :
    (f g : Finding)
    → Member f known.findings
    → Member g known.findings
    → fingerprint digest f ≡ fingerprint digest g
    → f.severity ≡ g.severity
known-consistent f g m n e = ap (λ (x : Finding). x.severity) (only-Member m ∙ sym (only-Member n))

append-eq_of_nothing_new_example :
    append_quality_count_regression_finding digest codes again
    ≡ some (with_deltas digest codes again)
append-eq_of_nothing_new_example =
    append-eq_of_nothing_new digest (λ fs. []) codes again known "HEAD" refl known-consistent
      (λ f m. m)

abbrev change : InterfaceChange
change = record {
  change = removed;
  kind = function;
  path = "a.py";
  symbol = "f";
  before = none;
  after = none;
  details = [];
}

abbrev diff : InterfaceDiffReport
diff = record {
  base = "HEAD";
  target = "WORKTREE";
  changes = change ∷ record change { change = added } ∷ [];
  base_files = 1;
  target_files = 1;
  errors = [];
  contract_findings = [];
  api_scope = "all";
  private_min_lines = 20;
}
