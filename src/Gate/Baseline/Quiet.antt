-- ===== src/Gate/Baseline/Quiet.antt =====
-- A scan that brings nothing new over its baseline raises no regression.
use repository_quality_guard.Prelude.{
  String, ℕ, ◌≡◌, ◌∙◌, sym, ap, subst, refl, true, false, List, [], ◌∷◌, map, none, some, eq_iff,
  Dict, find, find-map, all, nonempty, arith, is_some, Member, inl, inr, Bool-cases,
}
use mathlib.Core.Option
use repository_quality_guard.Prelude.Options.{Option-cases}
use repository_quality_guard.Gate.Findings.{Severity, Finding, fingerprint, is_ranked}
use repository_quality_guard.Gate.Report.{QualityBaseline, ScanReport}
use repository_quality_guard.Gate.Gather.{gather}
use repository_quality_guard.Gate.Gather.Latest.{
  latest, find-gather_empty, gather-passes, latest-Member, latest-is_some, passes,
}
use repository_quality_guard.Gate.Regression.{is_gated}
use repository_quality_guard.Gate.Regression.NoOffset.{
  IsRanked, Regresses, is_regression, outranks, quality_regression_iff,
}
use repository_quality_guard.Gate.Baseline.{
  quality_baseline, is_kept, with_severity, append_quality_count_regression_finding, join_findings,
  with_deltas,
}

is_regression-eq :
    (baseline : QualityBaseline) (k : String) (f : Finding) (s : Severity)
    → find k baseline.finding_severities ≡ some s
    → is_regression baseline (k, f) ≡ outranks f.severity s
is_regression-eq baseline k f s known = rw (is_regression, known) refl

module _ (digest : String → String) (reviews : List Finding → Dict ℕ) where
  -- Findings with one fingerprint have one severity.
  abbrev pub IsConsistent : List Finding → Type 0
  IsConsistent fs =
      (f g : Finding)
      → Member f fs
      → Member g fs
      → fingerprint digest f ≡ fingerprint digest g
      → f.severity ≡ g.severity

  all_mapped :
      (d : Dict Finding)
      → all (passes digest is_kept) d ≡ true
      → all (λ (e : String × Severity). is_ranked e.1) (map with_severity d) ≡ true
  unfolding is_kept
  all_mapped [] h = refl
  all_mapped ((k, f) ∷ d) h = ground (arith, h, all_mapped d)

  -- The baseline of a scan has ranked severities only.
  pub quality_baseline-IsRanked :
      (old : ScanReport) (revision : String)
      → IsRanked (quality_baseline digest reviews old revision)
  unfolding quality_baseline
  quality_baseline-IsRanked old revision =
      all_mapped (gather digest is_kept [] old.findings)
        (gather-passes digest is_kept old.findings [] refl)

  gated_kept : (codes : List String) (f : Finding) → is_gated codes f ≡ true → is_kept f ≡ true
  unfolding is_gated is_kept
  gated_kept codes f h = ground (arith, h)

  not_above_itself : (s : Severity) → outranks s s ≡ false
  not_above_itself s = grind arith

  -- The baseline of the scan knows the fingerprint of each of its counted findings, with its severity.
  find-quality_baseline :
      (old : ScanReport) (revision : String) (f : Finding)
      → IsConsistent old.findings
      → Member f old.findings
      → is_kept f ≡ true
      → find
          (fingerprint digest f)
          (quality_baseline digest reviews old revision).finding_severities
        ≡ some f.severity
  unfolding quality_baseline
  find-quality_baseline old revision f one m kept =
      elim (Option-cases (latest digest is_kept (fingerprint digest f) old.findings)) [
        | inl unseen ↦
            let seen = latest-is_some digest is_kept f old.findings m kept in
            let off : is_some {A = Finding} none ≡ true = rw unseen at seen in cc
        | inr (g, seen) ↦
            let (n, (_, at)) =
              latest-Member digest is_kept (fingerprint digest f) old.findings g seen in
            let same = one g f n m ((eq_iff (fingerprint digest g) (fingerprint digest f)).0 at) in
            find-map (λ (h : Finding). h.severity) (fingerprint digest f)
              (gather digest is_kept [] old.findings)
            ∙ ap (Option.map (λ (h : Finding). h.severity))
                (find-gather_empty digest is_kept (fingerprint digest f) old.findings ∙ seen)
            ∙ ap some same
      ]

  module _ (codes : List String) where
    holds :
        (report old : ScanReport) (revision : String)
        → IsConsistent old.findings
        → ((f : Finding) → Member f report.findings → Member f old.findings)
        → ¬ Regresses digest codes (quality_baseline digest reviews old revision) report.findings
    holds report old revision one kept (k, (f, (latest_is, worse))) =
        let (m, (gated, at)) =
          latest-Member digest (is_gated codes) k report.findings f latest_is in
        let e : fingerprint digest f ≡ k = (eq_iff (fingerprint digest f) k).0 at in
        let known =
          find-quality_baseline old revision f one (kept f m) (gated_kept codes f gated) in
        let known_at =
          subst
            (λ l.
              find l (quality_baseline digest reviews old revision).finding_severities
              ≡ some f.severity)
            e known in
        let up : outranks f.severity f.severity ≡ true =
          sym (
            is_regression-eq (quality_baseline digest reviews old revision) k f f.severity known_at)
          ∙ worse in
        let level = not_above_itself f.severity in cc

    -- Where each finding of the scan is one of the scan of the baseline, QG179 adds nothing: the report
    -- keeps its findings. Findings with one fingerprint must have one severity.
    pub append-eq_of_nothing_new :
        (report old : ScanReport) (revision : String)
        → report.baseline ≡ some (quality_baseline digest reviews old revision)
        → IsConsistent old.findings
        → ((f : Finding) → Member f report.findings → Member f old.findings)
        → append_quality_count_regression_finding digest codes report
          ≡ some (with_deltas digest codes report)
    unfolding append_quality_count_regression_finding
    append-eq_of_nothing_new report old revision given one kept =
        let (out, (ran, is)) =
          quality_regression_iff digest codes report (quality_baseline digest reviews old revision)
            given (quality_baseline-IsRanked old revision) in
        elim (Bool-cases (nonempty out)) [
          | inl found ↦ elim (holds report old revision one kept (is.0 found)) [ ]
          | inr quiet ↦ rw (ran, join_findings, quiet) refl
        ]
