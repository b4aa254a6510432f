-- ===== src/Gate/Gather.antt =====
-- The dictionary of findings by fingerprint that the rules of runtime/src/baseline_regression_rules.py
-- build, and the findings that they raise.
pub mod Latest
use repository_quality_guard.Prelude.{
  String, ℕ, Bool, true, false, not, ◌&&◌, ◌||◌, List, [], ◌∷◌, ◌++◌, map, Option, none, some, ◌==◌,
  any, select, count_true, nonempty, length, contains, starts_with, has_infix, text_sorted, format,
  join, decimal, ltb, Dict, find, put, is_some, if◌then◌else◌, eqb,
}
use repository_quality_guard.Prelude.Options.{◌>>=◌}
use repository_quality_guard.Gate.Evidence.{
  Datum, boolean, integer, text, array_of, object_of, flag,
}
use repository_quality_guard.Prelude.Integers.{ℤ, pos, difference}
use repository_quality_guard.Gate.Findings.{
  Severity, critical, error, warning, info, Confidence, high, Finding, fingerprint, is_ranked, rank,
  same_severity,
}
use repository_quality_guard.Gate.Report.{QualityBaseline, ScanReport, SeverityCounts, CountDeltas}

abbrev pub count : ℕ → Datum
count n = integer (pos n)

-- The finding of a rule on the whole repository.
abbrev pub repository_finding : String → String → String → String → Dict Datum → Finding
repository_finding code symbol message suggestion evidence = record {
  code = code;
  severity = critical;
  confidence = high;
  path = ".";
  line = 1;
  column = 1;
  message = message;
  symbol = symbol;
  suggestion = suggestion;
  evidence = evidence;
  source = "quality-guard";
}

module _ (digest : String → String) where
  -- `{finding.fingerprint: finding for finding in fs if test(finding)}`, added to a dictionary
  unfoldable pub gather : (Finding → Bool) → Dict Finding → List Finding → Dict Finding
  gather test d [] = d
  gather test d (f ∷ fs) =
      if test f then gather test (put (fingerprint digest f) f d) fs else gather test d fs
