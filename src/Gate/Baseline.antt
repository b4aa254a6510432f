-- ===== src/Gate/Baseline.antt =====
-- runtime/src/cli.py: the summary of a scan as a baseline, and how the findings of the rules QG169 and
-- QG179 join those of the report.

pub mod Quiet
pub mod Rejects
use repository_quality_guard.Prelude.{
  String, ℕ, suc, ◌+◌, Bool, true, false, not, ◌&&◌, ◌||◌, List, [], ◌∷◌, ◌++◌, map, Option, none,
  some, ◌==◌, starts_with, Dict, find, put, ltb, eqb, nonempty, all, text_ltb, if◌then◌else◌,
}
use repository_quality_guard.Prelude.Options.{◌>>=◌}
use repository_quality_guard.Prelude.Sort.{sorted_by}
use repository_quality_guard.Gate.Evidence.{Datum}
use repository_quality_guard.Gate.Findings.{
  Severity, critical, error, warning, info, Finding, is_ranked, rank,
}
use repository_quality_guard.Gate.Report.{SeverityCounts, QualityBaseline, ScanReport}
use repository_quality_guard.Gate.Gather.{gather}
use repository_quality_guard.Gate.Docstrings.{docstring_regression}
use repository_quality_guard.Gate.Regression.{quality_regression, count_deltas}

abbrev pub no_counts : SeverityCounts
no_counts = record { critical = 0; error = 0; warning = 0; info = 0 }

-- `counts[severity] += 1`
bump : Severity → SeverityCounts → SeverityCounts
bump critical t = record t { critical = suc t.critical }
bump error t = record t { error = suc t.error }
bump warning t = record t { warning = suc t.warning }
bump info t = record t { info = suc t.info }

-- The loop over the findings that fills `summary`.
count_all : SeverityCounts → List Finding → SeverityCounts
unfolding bump
count_all t [] = t
count_all t (f ∷ fs) = count_all (bump f.severity t) fs

abbrev or_zero : Option SeverityCounts → SeverityCounts
or_zero none = no_counts
or_zero (some t) = t

-- The loop that fills `by_rule` and `by_file`: a table of counts for each key.
count_by : (Finding → String) → Dict SeverityCounts → List Finding → Dict SeverityCounts
unfolding bump
count_by key d [] = d
count_by key d (f ∷ fs) =
    count_by key (put (key f) (bump f.severity (or_zero (find (key f) d))) d) fs

-- The findings that `finding_severities` keeps.
unfoldable pub is_kept : Finding → Bool
is_kept f = is_ranked f.severity && not (starts_with f.code "QG98")

abbrev pub with_severity : String × Finding → String × Severity
with_severity (k, f) = (k, f.severity)

-- `_quality_baseline`. `reviews` counts the fingerprints that ask for a semantic review.
unfoldable pub quality_baseline :
    (String → String) → (List Finding → Dict ℕ) → ScanReport → String → QualityBaseline
unfolding count_all count_by
quality_baseline digest reviews report revision = record {
  revision = revision;
  files_scanned = report.files_scanned;
  definitions = report.definitions;
  documented_definitions = report.documented_definitions;
  complete_docstrings = report.complete_docstrings;
  docstring_definitions = report.docstring_definitions;
  summary = count_all no_counts report.findings;
  by_rule = count_by (λ f. f.code) [] report.findings;
  by_file = count_by (λ f. f.path) [] report.findings;
  finding_severities = map with_severity (gather digest is_kept [] report.findings);
  semantic_review_fingerprints = reviews report.findings;
}

abbrev rank_or_zero : Severity → ℕ
rank_or_zero s = elim (rank s) [ some n ↦ n | none ↦ 0 ]

-- `(-SEVERITY_RANK[item.severity], item.path, item.line, item.code)` of the first is not above that
-- of the second.
unfoldable pub not_after : Finding → Finding → Bool
not_after a b =
    if ltb (rank_or_zero b.severity) (rank_or_zero a.severity)
    then true
    else if ltb (rank_or_zero a.severity) (rank_or_zero b.severity)
    then false
    else if text_ltb a.path b.path
    then true
    else if text_ltb b.path a.path
    then false
    else if ltb a.line b.line
    then true
    else if ltb b.line a.line
    then false
    else not (text_ltb b.code a.code)

-- `report.findings.extend(findings); report.findings.sort(...)`, if there are findings; `none` is the
-- KeyError of a severity that has no rank.
unfoldable pub join_findings : List Finding → ScanReport → Option ScanReport
join_findings new report =
    if nonempty new
    then if all (λ (f : Finding). is_ranked f.severity) (report.findings ++ new)
      then some (record report { findings = sorted_by not_after (report.findings ++ new) })
      else none
    else some report

module _ (digest : String → String) where
  -- `_append_docstring_regression_finding`
  unfoldable pub append_docstring_regression_finding :
      (ℕ → ℕ → Datum) → ScanReport → Option ScanReport
  append_docstring_regression_finding percent report =
      join_findings (docstring_regression digest percent report) report

  -- The assignment to `quality_count_deltas` in the rule's `evaluate`.
  abbrev pub with_deltas : List String → ScanReport → ScanReport
  with_deltas codes report = record report {
    quality_count_deltas = elim report.baseline [
      | none ↦ report.quality_count_deltas
      | some baseline ↦ some (count_deltas codes baseline report.findings)
    ];
  }

  -- `_append_quality_count_regression_finding`
  unfoldable pub append_quality_count_regression_finding :
      List String → ScanReport → Option ScanReport
  unfolding join_findings
  append_quality_count_regression_finding codes report = do
    findings ← quality_regression digest codes report
    join_findings findings (with_deltas codes report)

  -- The part of `_apply_git_quality_baseline` behind the scan of the baseline.
  unfoldable pub apply_git_quality_baseline :
      (ℕ → ℕ → Datum)
      → List String
      → QualityBaseline
      → QualityBaseline
      → ScanReport
      → Option ScanReport
  unfolding append_docstring_regression_finding append_quality_count_regression_finding
  apply_git_quality_baseline percent codes production_baseline test_baseline report = do
    report' ←
        append_docstring_regression_finding percent (record report {
          baseline = some production_baseline;
          test_baseline = some test_baseline;
        })
    append_quality_count_regression_finding codes report'
