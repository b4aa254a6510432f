-- ===== src/Gate/Docstrings.antt =====
-- runtime/src/baseline_regression_rules.py: the rule QG169. `digest` is the digest of a message in a
-- fingerprint, `percent` the value of a coverage.
pub mod Missing
use repository_quality_guard.Prelude.{
  String, ℕ, Bool, true, false, not, ◌&&◌, ◌||◌, List, [], ◌∷◌, ◌++◌, map, Option, none, some, ◌==◌,
  any, select, count_true, nonempty, length, contains, starts_with, has_infix, text_sorted, format,
  join, decimal, ltb, Dict, find, put, is_some, if◌then◌else◌, eqb,
}
use repository_quality_guard.Prelude.Options.{◌>>=◌}
use repository_quality_guard.Gate.Evidence.{
  Datum, boolean, integer, text, array_of, object_of, flag,
}
use repository_quality_guard.Prelude.Integers.{ℤ, pos, difference}
use repository_quality_guard.Gate.Findings.{
  Severity, critical, error, warning, info, Confidence, high, Finding, fingerprint, is_ranked, rank,
  same_severity,
}
use repository_quality_guard.Gate.Report.{QualityBaseline, ScanReport, SeverityCounts, CountDeltas}
use repository_quality_guard.Gate.Gather.{gather, count, repository_finding}

-- `dict.keys`
abbrev pub keys {ℓ} : {A : Type ℓ} → Dict A → List String
keys d = map (λ e. e.0) d

-- `finding.symbol or f"{finding.path}:{finding.line}"`
abbrev symbol_or_place : Finding → String
symbol_or_place f = if f.symbol == "" then format (f.path ∷ ":" ∷ decimal f.line ∷ []) else f.symbol

abbrev pub is_missing_docstring : Finding → Bool
is_missing_docstring f = f.code == "QG027"

-- `[current_missing[fingerprint] for fingerprint in introduced]`
lookups : Dict Finding → List String → List Finding
lookups d [] = []
lookups d (k ∷ ks) = elim (find k d) [ some f ↦ f ∷ lookups d ks | none ↦ lookups d ks ]

module _ (digest : String → String) where
  -- `introduced` of QG169: the keys, sorted, that the baseline does not have.
  unfoldable pub introduced_missing : QualityBaseline → List Finding → List String
  introduced_missing baseline fs =
      let baseline_missing = select (has_infix ":QG027:") (keys baseline.finding_severities) in
      text_sorted (
        select (λ k. not (contains k baseline_missing))
          (keys (gather digest is_missing_docstring [] fs)))

module _ (digest : String → String) (percent : ℕ → ℕ → Datum) where
  -- `DocstringRegressionRule.evaluate`
  unfoldable pub docstring_regression : ScanReport → List Finding
  unfolding lookups
  docstring_regression report = elim report.baseline [
    | none ↦ []
    | some baseline ↦
        let introduced = introduced_missing digest baseline report.findings in
        let introduced_findings =
          lookups (gather digest is_missing_docstring [] report.findings) introduced in
        if nonempty introduced
        then repository_finding "QG169" "repository.missing_docstrings"
            (format (
              "相对 Git 基线 `"
              ∷ baseline.revision
              ∷ "` 新增 "
              ∷ decimal (length introduced_findings)
              ∷ " 个缺失 docstring 的生产定义。"
              ∷ []))
            "为新增缺失定义补充准确 docstring，或删除不必要定义。覆盖率百分比仅展示，不得通过扩写无关 docstring 抵消缺失对象。"
            (("baseline_revision", text baseline.revision)
              ∷ ("introduced_missing_count", count (length introduced_findings))
              ∷ (
                "introduced_missing_symbols",
                array_of (λ f. text (symbol_or_place f)) introduced_findings,
              )
              ∷ ("introduced_missing_fingerprints", array_of text introduced)
              ∷ (
                "baseline_coverage_percent",
                percent baseline.documented_definitions baseline.docstring_definitions,
              )
              ∷ (
                "current_coverage_percent",
                percent report.documented_definitions report.docstring_definitions,
              )
              ∷ ("coverage_percent_is_informational", boolean true)
              ∷ [])
          ∷ []
        else []
  ]
