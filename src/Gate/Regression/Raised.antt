-- ===== src/Gate/Regression/Raised.antt =====
-- What QG179 raises: critical findings with its code on the root of the repository.
use repository_quality_guard.Prelude.{
  String, ◌≡◌, ◌∙◌, sym, refl, List, [], ◌∷◌, Option, none, some, Bool, true, false, subst,
  some_inj, inl, inr, if◌then◌else◌,
}
use repository_quality_guard.Prelude.Options.{Option-cases}
use repository_quality_guard.Gate.Findings.{Finding, Severity, critical}
use repository_quality_guard.Gate.Report.{QualityBaseline, ScanReport}
use repository_quality_guard.Gate.Regression.{
  quality_regression, regression_against, regression_finding, introduced_of, worsened_of,
  compare_all, current_findings,
}

abbrev pub IsRaised : Finding → Type 0
IsRaised f = (f.code ≡ "QG179") × ((f.path ≡ ".") × (f.severity ≡ critical))

abbrev pub AllRaised : List Finding → Type 0
AllRaised [] = Unit
AllRaised (f ∷ fs) = IsRaised f × AllRaised fs

when_some :
    (o : Option QualityBaseline) (b : QualityBaseline) (f : QualityBaseline → Option (List Finding))
    → o ≡ some b
    → elim o [ none ↦ some [] | some b' ↦ f b' ] ≡ f b
when_some o b f h = rw h refl

module _ (digest : String → String) (codes : List String) where
  regression_finding-IsRaised :
      (report : ScanReport) (baseline : QualityBaseline) (news : List Finding)
      (worse : List (Finding × Severity))
      → IsRaised (regression_finding digest codes report baseline news worse)
  unfolding regression_finding
  regression_finding-IsRaised report baseline news worse = (refl, (refl, refl))

  AllRaised-if : (b : Bool) (f : Finding) → IsRaised f → AllRaised (if b then [] else f ∷ [])
  AllRaised-if true f h = tt
  AllRaised-if false f h = (h, tt)

  regression_against-AllRaised :
      (report : ScanReport) (baseline : QualityBaseline) (out : List Finding)
      → regression_against digest codes report baseline ≡ some out
      → AllRaised out
  unfolding regression_against
  regression_against-AllRaised report baseline out h =
      elim (Option-cases (compare_all baseline (current_findings digest codes report.findings))) [
        | inl failed ↦ let bad : none ≡ some out = rw failed at h in cc
        | inr (rs, done) ↦
            let made : some _ ≡ some out = rw done at h in
            subst AllRaised (some_inj made) (
              AllRaised-if _ _
                (regression_finding-IsRaised report baseline (introduced_of rs) (worsened_of rs)))
      ]

  pub quality_regression-AllRaised :
      (report : ScanReport) (baseline : QualityBaseline) (out : List Finding)
      → report.baseline ≡ some baseline
      → quality_regression digest codes report ≡ some out
      → AllRaised out
  unfolding quality_regression
  quality_regression-AllRaised report baseline out given h =
      regression_against-AllRaised report baseline out (
        sym (when_some report.baseline baseline (regression_against digest codes report) given) ∙ h)
