-- ===== src/Testing/TestUnit/Invoke/Laws.antt =====
-- When an invocation passes, and what it may raise.
use repository_quality_guard.Prelude.{
  String, ◌≡◌, ◌↔◌, inl, inr, true, false, Option, none, some, refl, Bool-cases, if◌then◌else◌,
  subst,
}
use repository_quality_guard.Testing.Value.{
  Value, Values, Fields, boolean, exception, is_caught, is_ordinary, none_value,
}
use repository_quality_guard.Testing.Runtime
use repository_quality_guard.Testing.Runtime.{
  Runtime, Reply, returned, Result, ok, err, Exec, Shown, described, undescribed, continue, ◌>>=◌,
}
use repository_quality_guard.Testing.Ledger.{SampleResult, pass}
use repository_quality_guard.Testing.Case
use repository_quality_guard.Testing.Case.{Case, Outcome}
use repository_quality_guard.Testing.TestUnit.Invoke.{
  observe, invoke, judge, compare, compare_answer, expected_type, run_expected, text_from,
  text_of_shown,
}

-- What a call has to show for its outcome: a value where it was to return, its exception where it
-- was to raise.
abbrev pub observation : Outcome → Reply → Option Value
observation Case.return (returned v) = some v
observation Case.return (Reply.raised e) = none
observation Case.exception (returned v) = none
observation Case.exception (Reply.raised e) = if is_caught e then some (exception e) else none

abbrev pub IsPassed : Result SampleResult → Type 0
IsPassed (ok s) = s.status ≡ pass
IsPassed (err e) = ⊥

-- A sample, or an exception that is no `_PartialCaseError`.
abbrev pub IsBare : Result SampleResult → Type 0
IsBare (ok s) = Unit
IsBare (err (Runtime.Error.raised e)) = Unit
IsBare (err (Runtime.Error.partial samples message)) = ⊥

module _ {W : Type 0} where
  -- Behind a text, nothing passes that does not pass for any text, and all is plain that is plain.
  unpassed-text :
      (rt : Runtime W) (show : W → Shown × W) (f : String → Exec W SampleResult) (w : W)
      → ((t : String) (w' : W) → IsPassed (f t w').0 → ⊥)
      → IsPassed ((text_from rt show >>= f) w).0
      → ⊥
  unpassed-text rt show f w never = after (show w)
    where
      after : (p : Shown × W) → IsPassed (continue (text_of_shown p.0) f p.1).0 → ⊥
      after (described t, w') h = never t w' h
      after (undescribed e, w') h = h

  text-IsBare :
      (rt : Runtime W) (show : W → Shown × W) (f : String → Exec W SampleResult) (w : W)
      → ((t : String) (w' : W) → IsBare (f t w').0)
      → IsBare ((text_from rt show >>= f) w).0
  text-IsBare rt show f w all = after (show w)
    where
      after : (p : Shown × W) → IsBare (continue (text_of_shown p.0) f p.1).0
      after (described t, w') = all t w'
      after (undescribed e, w') = tt

module _ {W : Type 0} (rt : Runtime W) (case : Case W) (name : String) (expected : Value) where
  compare-pass :
      (actual : Value) (r : Reply) (w : W)
      → IsPassed (compare_answer rt name expected actual r w).0 ↔ (r ≡ returned (boolean true))
  unfolding compare_answer
  compare-pass actual (returned (boolean true)) w = (λ _. refl, λ _. refl)
  compare-pass actual (returned (boolean false)) w = (
    λ h. absurd (
        unpassed-text rt (rt.repr expected) _ w
          (λ t w'. unpassed-text rt (rt.repr actual) _ w' (λ u w'' k. cc)) h),
    λ h. cc,
  )
  compare-pass actual (returned none_value) w = (λ h. cc, λ h. cc)
  compare-pass actual (returned _) w = (λ h. cc, λ h. cc)
  compare-pass actual (Reply.raised e) w = elim (Bool-cases (is_ordinary e)) [
    | inl y ↦ rw y (λ h. absurd (unpassed-text rt (rt.str e) _ w (λ t w' k. cc) h), λ h. cc)
    | inr n ↦ rw n (λ h. absurd h, λ h. cc)
  ]

  judge-pass :
      (t : Outcome) (r : Reply) (w : W)
      → IsPassed (judge rt case name expected t r w).0 ↔ (
          (actual : Value) × (observation t r ≡ some actual)
          × ((case.equals expected actual w).0 ≡ returned (boolean true)))
  unfolding judge compare
  judge-pass Case.return (returned v) w = (
    λ h. (v, refl, (compare-pass v (case.equals expected v w).0 (case.equals expected v w).1).0 h),
    λ (a, e, h). (compare-pass v (case.equals expected v w).0 (case.equals expected v w).1).1 (cc),
  )
  judge-pass Case.return (Reply.raised e) w = elim (Bool-cases (is_caught e)) [
    | inl y ↦ rw y (λ h. absurd (unpassed-text rt (rt.str e) _ w (λ t w' k. cc) h), λ (a, p, h). cc)
    | inr n ↦ rw n (λ h. absurd h, λ (a, p, h). cc)
  ]
  judge-pass Case.exception (returned v) w =
      (λ h. absurd (unpassed-text rt (rt.repr v) _ w (λ t w' k. cc) h), λ (a, p, h). cc)
  judge-pass Case.exception (Reply.raised e) w = elim (Bool-cases (is_caught e)) [
    | inl y ↦ rw y (
      λ h. (
        exception e,
        refl,
        (compare-pass (exception e) (case.equals expected (exception e) w).0
              (case.equals expected (exception e) w).1).0
            h,
      ),
      λ (a, p, h).
          (compare-pass (exception e) (case.equals expected (exception e) w).0
              (case.equals expected (exception e) w).1).1
            (cc),
    )
    | inr n ↦ rw n (λ h. absurd h, λ (a, p, h). cc)
  ]

  run_expected-pass :
      (entry : Value) (args : Values) (kwargs : Fields) (o : Option Outcome) (w : W)
      → IsPassed (run_expected rt case entry args kwargs expected name o w).0 ↔ (
          (t : Outcome) × (o ≡ some t)
          × ((actual : Value) × (observation t (observe rt entry args kwargs w).0 ≡ some actual)
              × ((case.equals expected actual (observe rt entry args kwargs w).1).0
                  ≡ returned (boolean true))))
  unfolding run_expected
  run_expected-pass entry args kwargs none w = (λ h. absurd (cc), λ (t, e, _). absurd (cc))
  run_expected-pass entry args kwargs (some t) w =
      let (r, w') = observe rt entry args kwargs w in
      (
        λ h. (t, refl, (judge-pass t r w').0 h),
        λ (u, e, shown).
            let same : u ≡ t = cc in
            (judge-pass t r w').1 (
              subst
                (λ v.
                  (actual : Value) × (observation v r ≡ some actual)
                  × ((case.equals expected actual w').0 ≡ returned (boolean true)))
                same shown),
      )

  -- `_invoke` passes exactly when the expected outcome is known, the call ended in that outcome, and
  -- `equals`, run on the oracle and what the call showed, answered `True`.
  pub invoke-pass_iff :
      (entry : Value) (args : Values) (kwargs : Fields) (outcome : Option Outcome) (w : W)
      → IsPassed (invoke rt case entry args kwargs expected name outcome w).0 ↔ (
          (t : Outcome) × (expected_type case outcome ≡ some t)
          × ((actual : Value) × (observation t (observe rt entry args kwargs w).0 ≡ some actual)
              × ((case.equals expected actual (observe rt entry args kwargs w).1).0
                  ≡ returned (boolean true))))
  unfolding invoke
  invoke-pass_iff entry args kwargs outcome w =
      run_expected-pass entry args kwargs (expected_type case outcome) w

  compare_answer-IsBare :
      (actual : Value) (r : Reply) (w : W) → IsBare (compare_answer rt name expected actual r w).0
  unfolding compare_answer
  compare_answer-IsBare actual (returned (boolean true)) w = tt
  compare_answer-IsBare actual (returned (boolean false)) w =
      text-IsBare rt (rt.repr expected) _ w
        (λ t w'. text-IsBare rt (rt.repr actual) _ w' (λ u w''. tt))
  compare_answer-IsBare actual (returned none_value) w = tt
  compare_answer-IsBare actual (returned _) w = tt
  compare_answer-IsBare actual (Reply.raised e) w = elim (Bool-cases (is_ordinary e)) [
    | inl y ↦ rw y (text-IsBare rt (rt.str e) _ w (λ t w'. tt))
    | inr n ↦ rw n tt
  ]

  judge-IsBare : (t : Outcome) (r : Reply) (w : W) → IsBare (judge rt case name expected t r w).0
  unfolding judge compare
  judge-IsBare Case.return (returned v) w = compare_answer-IsBare v _ _
  judge-IsBare Case.return (Reply.raised e) w = elim (Bool-cases (is_caught e)) [
    | inl y ↦ rw y (text-IsBare rt (rt.str e) _ w (λ t w'. tt))
    | inr n ↦ rw n tt
  ]
  judge-IsBare Case.exception (returned v) w = text-IsBare rt (rt.repr v) _ w (λ t w'. tt)
  judge-IsBare Case.exception (Reply.raised e) w = elim (Bool-cases (is_caught e)) [
    | inl y ↦ rw y (compare_answer-IsBare (exception e) _ _)
    | inr n ↦ rw n tt
  ]

  run_expected-IsBare :
      (entry : Value) (args : Values) (kwargs : Fields) (o : Option Outcome) (w : W)
      → IsBare (run_expected rt case entry args kwargs expected name o w).0
  unfolding run_expected
  run_expected-IsBare entry args kwargs none w = tt
  run_expected-IsBare entry args kwargs (some t) w =
      judge-IsBare t (observe rt entry args kwargs w).0 (observe rt entry args kwargs w).1

  -- `_invoke` never raises a `_PartialCaseError`.
  pub invoke-IsBare :
      (entry : Value) (args : Values) (kwargs : Fields) (outcome : Option Outcome) (w : W)
      → IsBare (invoke rt case entry args kwargs expected name outcome w).0
  unfolding invoke
  invoke-IsBare entry args kwargs outcome w =
      run_expected-IsBare entry args kwargs (expected_type case outcome) w
