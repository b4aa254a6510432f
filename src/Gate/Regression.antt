-- ===== src/Gate/Regression.antt =====
-- runtime/src/baseline_regression_rules.py: the rule QG179. `digest` is the digest of a message in a
-- fingerprint.
pub mod NoOffset
pub mod Raised
use repository_quality_guard.Prelude.{
  String, ℕ, Bool, true, false, not, ◌&&◌, ◌||◌, List, [], ◌∷◌, ◌++◌, map, Option, none, some, ◌==◌,
  any, select, count_true, nonempty, length, contains, starts_with, has_infix, text_sorted, format,
  join, decimal, ltb, Dict, find, put, is_some, if◌then◌else◌, eqb,
}
use repository_quality_guard.Prelude.Options.{◌>>=◌}
use repository_quality_guard.Gate.Evidence.{
  Datum, boolean, integer, text, array_of, object_of, flag,
}
use repository_quality_guard.Prelude.Integers.{ℤ, pos, difference}
use repository_quality_guard.Gate.Findings.{
  Severity, critical, error, warning, info, Confidence, high, Finding, fingerprint, is_ranked, rank,
  same_severity,
}
use repository_quality_guard.Gate.Report.{QualityBaseline, ScanReport, SeverityCounts, CountDeltas}
use repository_quality_guard.Gate.Gather.{gather, count, repository_finding}

-- The findings that QG179 counts: all but those of the `if any(...): continue`.
unfoldable pub is_gated : List String → Finding → Bool
is_gated interface_codes f =
    not (starts_with f.code "QG98")
    && not (f.code == "QG179")
    && not (contains f.code interface_codes)
    && not (flag "qg179_exempt" f.evidence)
    && is_ranked f.severity

-- `current_counts[severity]`
abbrev pub current_count : List String → Severity → List Finding → ℕ
current_count interface_codes s fs =
    count_true (λ (f : Finding). is_gated interface_codes f && same_severity f.severity s) fs

-- `report.quality_count_deltas`
unfoldable pub count_deltas : List String → QualityBaseline → List Finding → CountDeltas
count_deltas interface_codes baseline fs = record {
  critical = difference (current_count interface_codes critical fs) baseline.summary.critical;
  error = difference (current_count interface_codes error fs) baseline.summary.error;
  warning = difference (current_count interface_codes warning fs) baseline.summary.warning;
}

-- `rank[finding.severity] > rank[previous]`: a severity that has no rank is a KeyError.
unfoldable pub is_worse : Severity → Severity → Option Bool
is_worse now previous = do a ← rank now; b ← rank previous; some (ltb b a)

-- What the loop over `current_findings` makes of one entry.
pub data Regress : Type 0 where
  introduced : Finding → Regress
  worsened : Finding → Severity → Regress
  held : Regress

unfoldable pub regress : QualityBaseline → String × Finding → Option Regress
unfolding is_worse
regress baseline (k, f) = elim (find k baseline.finding_severities) [
  | none ↦ some (introduced f)
  | some previous ↦ do
    worse ← is_worse f.severity previous
    some (if worse then worsened f previous else held)
]

-- The loop, whose results stand in one list in their order.
unfoldable pub compare_all : QualityBaseline → Dict Finding → Option (List Regress)
unfolding regress
compare_all baseline [] = some []
compare_all baseline (e ∷ d) = do r ← regress baseline e; rs ← compare_all baseline d; some (r ∷ rs)

introduced_of : List Regress → List Finding
introduced_of [] = []
introduced_of (introduced f ∷ rs) = f ∷ introduced_of rs
introduced_of (_ ∷ rs) = introduced_of rs

worsened_of : List Regress → List (Finding × Severity)
worsened_of [] = []
worsened_of (worsened f previous ∷ rs) = (f, previous) ∷ worsened_of rs
worsened_of (_ ∷ rs) = worsened_of rs

severity_name : Severity → String
severity_name critical = "critical"
severity_name error = "error"
severity_name warning = "warning"
severity_name info = "info"

upper_name : Severity → String
upper_name critical = "CRITICAL"
upper_name error = "ERROR"
upper_name warning = "WARNING"
upper_name info = "INFO"

abbrev severities : List Severity
severities = critical ∷ error ∷ warning ∷ []

-- The parts of the message: the severities that have a new or an upgraded finding.
detail_parts : List Finding → List (Finding × Severity) → List Severity → List String
unfolding upper_name
detail_parts news worse [] = []
detail_parts news worse (s ∷ ss) =
    let added = count_true (λ (f : Finding). same_severity f.severity s) news in
    let upgraded = count_true (λ (e : Finding × Severity). same_severity e.0.severity s) worse in
    let rest = detail_parts news worse ss in
    if eqb added 0 && eqb upgraded 0
    then rest
    else format (upper_name s ∷ " 新增 " ∷ decimal added ∷ "、升级至该档 " ∷ decimal upgraded ∷ []) ∷ rest

abbrev counts_of : (Severity → ℕ) → Datum
counts_of n = object_of (map (λ s. (severity_name s, count (n s))) severities)

summary_count : SeverityCounts → Severity → ℕ
summary_count t critical = t.critical
summary_count t error = t.error
summary_count t warning = t.warning
summary_count t info = t.info

module _ (digest : String → String) where
  -- `current_findings`
  abbrev pub current_findings : List String → List Finding → Dict Finding
  current_findings interface_codes fs = gather digest (is_gated interface_codes) [] fs

  abbrev introduced_row : Finding → Datum
  introduced_row f = object_of (
      ("fingerprint", text (fingerprint digest f))
      ∷ ("code", text f.code)
      ∷ ("severity", text (severity_name f.severity))
      ∷ ("path", text f.path)
      ∷ ("line", count f.line)
      ∷ ("symbol", text f.symbol)
      ∷ [])

  abbrev worsened_row : Finding × Severity → Datum
  worsened_row (f, previous) = object_of (
      ("fingerprint", text (fingerprint digest f))
      ∷ ("code", text f.code)
      ∷ ("baseline_severity", text (severity_name previous))
      ∷ ("current_severity", text (severity_name f.severity))
      ∷ ("path", text f.path)
      ∷ ("line", count f.line)
      ∷ ("symbol", text f.symbol)
      ∷ [])

  regression_finding :
      List String
      → ScanReport
      → QualityBaseline
      → List Finding
      → List (Finding × Severity)
      → Finding
  unfolding detail_parts severity_name summary_count count_deltas
  regression_finding interface_codes report baseline news worse =
      let deltas = count_deltas interface_codes baseline report.findings in
      repository_finding "QG179" "repository.quality_fingerprint_regression"
        (format (
          "相对 Git 基线 `"
          ∷ baseline.revision
          ∷ "` 检测到不可抵消的新增或升级问题："
          ∷ join "；" (detail_parts news worse severities)
          ∷ "。历史债务减少不抵消本轮回归。"
          ∷ []))
        "本门禁不可由修改说明或历史债务削减豁免。必须删除、修复或回退每一项 INTRODUCED/WORSENED 问题后重新扫描。"
        (("comparison_mode", text report.comparison_mode)
          ∷ ("comparison_target", text report.comparison_target)
          ∷ ("baseline_counts", counts_of (summary_count baseline.summary))
          ∷ ("current_counts", counts_of (λ s. current_count interface_codes s report.findings))
          ∷ (
            "raw_count_delta",
            object_of (
                ("critical", integer deltas.critical)
                ∷ ("error", integer deltas.error)
                ∷ ("warning", integer deltas.warning)
                ∷ []),
          )
          ∷ ("introduced", array_of introduced_row news)
          ∷ ("worsened", array_of worsened_row worse)
          ∷ [])

  -- `evaluate` behind its test of the baseline; `none` is the KeyError of a severity with no rank.
  unfoldable pub regression_against :
      List String → ScanReport → QualityBaseline → Option (List Finding)
  unfolding compare_all introduced_of worsened_of regression_finding
  regression_against interface_codes report baseline = do
    rs ← compare_all baseline (current_findings interface_codes report.findings)
    let news = introduced_of rs
    let worse = worsened_of rs
    some (
        if not (nonempty news) && not (nonempty worse)
        then []
        else regression_finding interface_codes report baseline news worse ∷ [])

  -- `QualityFingerprintRegressionRule.evaluate`
  unfoldable pub quality_regression : List String → ScanReport → Option (List Finding)
  unfolding regression_against
  quality_regression interface_codes report = elim report.baseline [
    | none ↦ some []
    | some baseline ↦ regression_against interface_codes report baseline
  ]
