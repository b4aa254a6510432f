-- ===== src/Gate/Baseline/Rejects.antt =====
-- A regression against the baseline makes the gate reject.
use repository_quality_guard.Prelude.{
  String, ◌≡◌, ◌∙◌, refl, Bool, true, false, ◌||◌, List, [], ◌∷◌, ◌++◌, some, any, any-append, all,
  all-append, nonempty, arith,
}
use repository_quality_guard.Prelude.Sort.{sorted_by, any-sorted_by}
use repository_quality_guard.Gate.Evidence.{flag}
use repository_quality_guard.Gate.Findings.{Finding, is_ranked}
use repository_quality_guard.Gate.Report.{QualityBaseline, ScanReport}
use repository_quality_guard.Gate.Status.{code_status, reject, is_absolute_blocker_finding}
use repository_quality_guard.Gate.Regression.Raised.{
  IsRaised, AllRaised, quality_regression-AllRaised,
}
use repository_quality_guard.Gate.Regression.NoOffset.{Regresses, IsRanked, quality_regression_iff}
use repository_quality_guard.Gate.Baseline.{
  append_quality_count_regression_finding, not_after, with_deltas,
}

||-true : (b : Bool) → (b || true) ≡ true
||-true b = ground arith

-- Such a finding is an absolute blocker, unless the root counts as a test path.
raised_blocks :
    (is_test : String → Bool) (f : Finding)
    → IsRaised f
    → is_test "." ≡ false
    → is_absolute_blocker_finding is_test false f ≡ true
unfolding is_absolute_blocker_finding
raised_blocks is_test f (code, (path, _)) root =
    rw (code, path, root) (||-true (flag "absolute_blocker" f.evidence))

all_raised :
    (fs : List Finding) → AllRaised fs → all (λ (f : Finding). is_ranked f.severity) fs ≡ true
all_raised [] h = refl
all_raised (f ∷ fs) ((_, (_, severity)), h) = rw severity (all_raised fs h)

any_raised :
    (is_test : String → Bool) (fs : List Finding)
    → AllRaised fs
    → nonempty fs ≡ true
    → is_test "." ≡ false
    → any (is_absolute_blocker_finding is_test false) fs ≡ true
any_raised is_test [] h some_raised root = cc
any_raised is_test (f ∷ fs) (h, _) some_raised root = rw (raised_blocks is_test f h root) refl

-- A finding that blocks makes the gate reject.
code_status_of_blocker :
    (is_test : String → Bool) (report : ScanReport)
    → any (is_absolute_blocker_finding is_test false) report.findings ≡ true
    → code_status is_test report ≡ reject
unfolding code_status
code_status_of_blocker is_test report h = ground (arith, h)

module _ (digest : String → String) (codes : List String) (is_test : String → Bool) where
  -- Where a fingerprint is new or has got worse, the report that QG179 joins is rejected: no debt that
  -- went away and no reviewed interface changes that. The repository's root must not count as a
  -- test path, and every severity must have a rank, which the sort needs.
  pub append-reject :
      (report : ScanReport) (baseline : QualityBaseline)
      → report.baseline ≡ some baseline
      → IsRanked baseline
      → all (λ (f : Finding). is_ranked f.severity) report.findings ≡ true
      → is_test "." ≡ false
      → Regresses digest codes baseline report.findings
      → (joined : ScanReport) × ((append_quality_count_regression_finding digest codes report
            ≡ some joined)
          × (code_status is_test joined ≡ reject))
  unfolding append_quality_count_regression_finding
  append-reject report baseline given ranked rankable root regresses =
      let (out, (ran, is)) = quality_regression_iff digest codes report baseline given ranked in
      let found = is.1 regresses in
      let are = quality_regression-AllRaised digest codes report baseline out given ran in
      let rankable_all : all (λ (f : Finding). is_ranked f.severity) (report.findings ++ out)
          ≡ true =
        all-append (λ (f : Finding). is_ranked f.severity) report.findings out
        ∙ rw (rankable, all_raised out are) refl in
      let blocks : any (is_absolute_blocker_finding is_test false) (report.findings ++ out) ≡ true =
        any-append (is_absolute_blocker_finding is_test false) report.findings out
        ∙ rw (any_raised is_test out are found root) (||-true _) in
      (
        record (with_deltas digest codes report) {
          findings = sorted_by not_after (report.findings ++ out);
        },
        (
          rw (ran, found, rankable_all) refl,
          code_status_of_blocker is_test _ (
              any-sorted_by not_after (is_absolute_blocker_finding is_test false)
                (report.findings ++ out)
              ∙ blocks),
        ),
      )
