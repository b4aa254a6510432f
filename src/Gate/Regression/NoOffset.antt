-- ===== src/Gate/Regression/NoOffset.antt =====
-- When QG179 is raised: a new or an upgraded fingerprint, whatever else has improved.
use repository_quality_guard.Prelude.{
  String, ◌≡◌, ◌↔◌, refl, Bool, true, false, not, ◌&&◌, ◌||◌, List, [], ◌∷◌, none, some, Dict, find,
  all, any, any-find, nonempty, all_mono, sym, ◌∙◌, arith, inl, inr, Bool-cases, if◌then◌else◌,
}
use repository_quality_guard.Prelude.Options.{Option-cases}
use repository_quality_guard.Gate.Findings.{Severity, Finding, is_ranked}
use repository_quality_guard.Gate.Report.{QualityBaseline, ScanReport}
use repository_quality_guard.Gate.Gather.Latest.{
  latest, gather-IsDict, gather-passes, find-gather_empty,
}
use repository_quality_guard.Gate.Regression.{
  Regress, introduced, worsened, held, is_gated, is_worse, regress, compare_all, introduced_of,
  worsened_of, current_findings, quality_regression,
}

-- The first severity has a rank above that of the second.
abbrev pub outranks : Severity → Severity → Bool
outranks Severity.error Severity.warning = true
outranks Severity.critical Severity.warning = true
outranks Severity.critical Severity.error = true
outranks _ _ = false

-- The baseline does not have the fingerprint, or has it with a lower severity.
abbrev pub is_regression : QualityBaseline → String × Finding → Bool
is_regression baseline (k, f) = elim (find k baseline.finding_severities) [
  | none ↦ true
  | some previous ↦ outranks f.severity previous
]

-- All severities of the baseline have a rank.
abbrev pub IsRanked : QualityBaseline → Type 0
IsRanked baseline =
    all (λ (e : String × Severity). is_ranked e.1) baseline.finding_severities ≡ true

is_worse-eq :
    (now previous : Severity)
    → is_ranked now ≡ true
    → is_ranked previous ≡ true
    → is_worse now previous ≡ some (outranks now previous)
unfolding is_worse
is_worse-eq now previous a b = grind arith

find-ranked :
    (k : String) (d : Dict Severity) (s : Severity)
    → all (λ (e : String × Severity). is_ranked e.1) d ≡ true
    → find k d ≡ some s
    → is_ranked s ≡ true
find-ranked k [] s h e = cc
find-ranked k ((l, r) ∷ d) s h e = ground (arith, h, e, find-ranked k d s)

abbrev regressed : List Regress → Bool
regressed rs = nonempty (introduced_of rs) || nonempty (worsened_of rs)

-- One entry gives a result, which is a regression where the entry is one.
regress_gives :
    (baseline : QualityBaseline) (k : String) (f : Finding)
    → IsRanked baseline
    → is_ranked f.severity ≡ true
    → (r : Regress) × ((regress baseline (k, f) ≡ some r)
        × (regressed (r ∷ []) ≡ is_regression baseline (k, f)))
unfolding regress introduced_of worsened_of
regress_gives baseline k f ranked now = elim (Option-cases (find k baseline.finding_severities)) [
  | inl new ↦ (introduced f, (rw (regress, new) refl, rw (is_regression, new) refl))
  | inr (previous, old) ↦
      let compared =
        is_worse-eq f.severity previous now
          (find-ranked k baseline.finding_severities previous ranked old) in
      elim (Bool-cases (outranks f.severity previous)) [
        | inl worse ↦ (
          worsened f previous,
          (rw (regress, old, compared, worse) refl, rw (is_regression, old, worse) refl),
        )
        | inr same ↦
            (held, (rw (regress, old, compared, same) refl, rw (is_regression, old, same) refl))
      ]
]

regressed-cons :
    (r : Regress) (rs : List Regress) → regressed (r ∷ rs) ≡ (regressed (r ∷ []) || regressed rs)
unfolding introduced_of worsened_of
regressed-cons (introduced f) rs = refl
regressed-cons (worsened f s) rs = grind arith
regressed-cons held rs = refl

compare_all_gives :
    (baseline : QualityBaseline) (d : Dict Finding)
    → IsRanked baseline
    → all (λ (e : String × Finding). is_ranked e.1.severity) d ≡ true
    → (rs : List Regress) × ((compare_all baseline d ≡ some rs)
        × (regressed rs ≡ any (is_regression baseline) d))
unfolding compare_all
compare_all_gives baseline [] ranked now = ([], (refl, (unfold introduced_of worsened_of in refl)))
compare_all_gives baseline ((k, f) ∷ d) ranked now =
    let (r, (first, is)) = regress_gives baseline k f ranked (ground (arith, now)) in
    let (rs, (others, are)) = compare_all_gives baseline d ranked (ground (arith, now)) in
    (r ∷ rs, (rw (first, others) refl, grind (arith, is, are, regressed-cons r rs)))

raised : (a b : Bool) (f : Finding) → nonempty (if not a && not b then [] else f ∷ []) ≡ (a || b)
raised a b f = ground arith

module _ (digest : String → String) (codes : List String) where
  -- The latest of the counted findings with the fingerprint `k` is new or has got worse.
  abbrev pub Regresses : QualityBaseline → List Finding → Type 0
  Regresses baseline fs =
      (k : String) × ((f : Finding) × ((latest digest (is_gated codes) k fs ≡ some f)
          × (is_regression baseline (k, f) ≡ true)))

  any-Regresses :
      (baseline : QualityBaseline) (fs : List Finding)
      → (any (is_regression baseline) (current_findings digest codes fs) ≡ true)
        ↔ Regresses baseline fs
  any-Regresses baseline fs =
      let found =
        any-find (is_regression baseline) (current_findings digest codes fs)
          (gather-IsDict digest (is_gated codes) fs [] tt) in
      (
        λ h.
            let (k, (f, (e, r))) = found.0 h in
            (k, (f, (sym (find-gather_empty digest (is_gated codes) k fs) ∙ e, r))),
        λ (k, (f, (e, r))).
            found.1 (k, (f, (find-gather_empty digest (is_gated codes) k fs ∙ e, r))),
      )

  gated_ranked : (f : Finding) → is_gated codes f ≡ true → is_ranked f.severity ≡ true
  unfolding is_gated
  gated_ranked f h = ground (arith, h)

  current_findings_ranked :
      (fs : List Finding)
      → all (λ (e : String × Finding). is_ranked e.1.severity) (current_findings digest codes fs)
        ≡ true
  current_findings_ranked fs =
      all_mono (λ (e : String × Finding). is_gated codes e.1)
        (λ (e : String × Finding). is_ranked e.1.severity) (current_findings digest codes fs)
        (λ e h. gated_ranked e.1 h) (gather-passes digest (is_gated codes) fs [] refl)

  -- Against a baseline whose severities all have a rank, QG179 ends without a lookup error, and it is
  -- raised exactly when the latest counted finding of some fingerprint is not in the baseline or has
  -- a higher severity there than before; no other finding and no count can offset it.
  pub quality_regression_iff :
      (report : ScanReport) (baseline : QualityBaseline)
      → report.baseline ≡ some baseline
      → IsRanked baseline
      → (out : List Finding) × ((quality_regression digest codes report ≡ some out)
          × ((nonempty out ≡ true) ↔ Regresses baseline report.findings))
  unfolding quality_regression
  quality_regression_iff report baseline given ranked =
      let (rs, (done, are)) =
        compare_all_gives baseline (current_findings digest codes report.findings) ranked
          (current_findings_ranked report.findings) in
      let some_regress = any-Regresses baseline report.findings in
      rw (given, done)
        (
          _,
          (
            refl,
            (
              λ h. some_regress.0 (sym are ∙ sym (raised _ _ _) ∙ h),
              λ h. raised _ _ _ ∙ are ∙ some_regress.1 h,
            ),
          ),
        )
