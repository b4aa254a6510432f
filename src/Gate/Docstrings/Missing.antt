-- ===== src/Gate/Docstrings/Missing.antt =====
-- When QG169 is raised: a definition without a docstring that the baseline does not have.
use repository_quality_guard.Prelude.{
  String, ℕ, ◌≡◌, ◌↔◌, ◌∙◌, sym, ap, refl, Bool, Bool-cases, inl, inr, true, not, List, [], ◌∷◌,
  map, none, some, ◌==◌, eq_iff, Dict, find, any, any-find, select, nonempty, contains, arith,
  is_some, Member, starts_with, has_infix, text_sorted, nonempty-text_insert, format,
}
use Prim.Native.String.{◌++◌}
use text.Mathlib.TextLemmas.{nil-append, cons-append, append_assoc}
use text.Mathlib.TextPositions.{starts_with-append}
use repository_quality_guard.Prelude.Options.{Option-cases, none_of_not_some}
use repository_quality_guard.Gate.Evidence.{Datum}
use repository_quality_guard.Gate.Findings.{Finding, fingerprint}
use repository_quality_guard.Gate.Report.{QualityBaseline, ScanReport}
use repository_quality_guard.Gate.Gather.{gather}
use repository_quality_guard.Gate.Gather.Latest.{
  latest, find-gather_empty, gather-IsDict, latest-Member, latest-is_some,
}
use repository_quality_guard.Gate.Docstrings.{
  keys, is_missing_docstring, introduced_missing, docstring_regression,
}

nonempty-select {ℓ} : {A : Type ℓ} (p : A → Bool) (xs : List A) → nonempty (select p xs) ≡ any p xs
nonempty-select p [] = refl
nonempty-select p (x ∷ xs) = ground (arith, nonempty-select p xs)

nonempty-text_sorted : (xs : List String) → nonempty (text_sorted xs) ≡ nonempty xs
unfolding text_sorted
nonempty-text_sorted [] = refl
nonempty-text_sorted (x ∷ xs) = nonempty-text_insert x (text_sorted xs)

any-map {ℓ} :
    {A : Type ℓ} (p : String → Bool) (f : A → String) (xs : List A)
    → any p (map f xs) ≡ any (λ x. p (f x)) xs
any-map p f [] = refl
any-map p f (x ∷ xs) = ground (arith, any-map p f xs)

-- A key that passes a test is among the selected keys exactly when the dictionary has it.
contains-select {ℓ} :
    {A : Type ℓ} (test : String → Bool) (k : String) (d : Dict A)
    → test k ≡ true
    → contains k (select test (keys d)) ≡ is_some (find k d)
contains-select test k [] h = refl
contains-select test k ((l, v) ∷ d) h = elim (Bool-cases (l == k)) [
  | inl same ↦
      let e : l ≡ k = (eq_iff l k).0 same in
      let passed : test l ≡ true = rw e h in rw (same, passed, same) refl
  | inr away ↦ elim (Bool-cases (test l)) [
    | inl passed ↦ rw (away, passed, away) (contains-select test k d h)
    | inr failed ↦ rw (away, failed) (contains-select test k d h)
  ]
]

has_infix_of_starts_with : (t s : String) → starts_with s t ≡ true → has_infix t s ≡ true
unfolding has_infix
has_infix_of_starts_with t String.[] h = h
has_infix_of_starts_with t (String.◌∷◌ c s) h = rw h refl

has_infix-append : (s t r : String) → has_infix t (s ++ (t ++ r)) ≡ true
unfolding has_infix
has_infix-append String.[] t r =
    rw (nil-append (t ++ r)) (has_infix_of_starts_with t (t ++ r) (starts_with-append t r))
has_infix-append (String.◌∷◌ c s) t r =
    rw (cons-append c s (t ++ r)) (grind (arith, has_infix-append s t r))

code_between : (r : String) → ":" ++ ("QG027" ++ (":" ++ r)) ≡ ":QG027:" ++ r
code_between r = sym (append_assoc ":" "QG027" (":" ++ r)) ∙ sym (append_assoc ":QG027" ":" r)

-- The fingerprint of a finding with the code QG027 contains that code between colons.
has_infix-fingerprint :
    (digest : String → String) (f : Finding)
    → is_missing_docstring f ≡ true
    → has_infix ":QG027:" (fingerprint digest f) ≡ true
unfolding fingerprint format
has_infix-fingerprint digest f h =
    let e : f.code ≡ "QG027" = (eq_iff f.code "QG027").0 h in
    rw (e, code_between _) (has_infix-append f.source ":QG027:" _)

module _ (digest : String → String) (baseline : QualityBaseline) where
  abbrev is_new : String → Bool
  is_new k = not (contains k (select (has_infix ":QG027:") (keys baseline.finding_severities)))

  -- For the fingerprint of such a finding the test is a lookup in the baseline.
  is_new-eq :
      (f : Finding)
      → is_missing_docstring f ≡ true
      → is_new (fingerprint digest f)
        ≡ not (is_some (find (fingerprint digest f) baseline.finding_severities))
  is_new-eq f h = ap not (
      contains-select (has_infix ":QG027:") (fingerprint digest f) baseline.finding_severities
        (has_infix-fingerprint digest f h))

  nonempty-introduced :
      (fs : List Finding)
      → nonempty (introduced_missing digest baseline fs)
        ≡ any (λ (e : String × Finding). is_new e.0) (gather digest is_missing_docstring [] fs)
  unfolding introduced_missing
  nonempty-introduced fs =
      nonempty-text_sorted _
      ∙ nonempty-select is_new (keys (gather digest is_missing_docstring [] fs))
      ∙ any-map is_new (λ (e : String × Finding). e.0) (gather digest is_missing_docstring [] fs)

  -- A finding of the list is for a missing docstring that the baseline does not have.
  abbrev pub IsIntroduced : List Finding → Finding → Type 0
  IsIntroduced fs f =
      Member f fs
      × ((is_missing_docstring f ≡ true)
          × (find (fingerprint digest f) baseline.finding_severities ≡ none))

  IsIntroduced-found :
      (fs : List Finding)
      → any (λ (e : String × Finding). is_new e.0) (gather digest is_missing_docstring [] fs) ≡ true
      → (f : Finding) × IsIntroduced fs f
  IsIntroduced-found fs h =
      let (k, (f, (found, new))) =
        (any-find (λ (e : String × Finding). is_new e.0) (gather digest is_missing_docstring [] fs)
            (gather-IsDict digest is_missing_docstring fs [] tt)).0
          h in
      let (m, (missing, at)) =
        latest-Member digest is_missing_docstring k fs f
          (sym (find-gather_empty digest is_missing_docstring k fs) ∙ found) in
      let e : fingerprint digest f ≡ k = (eq_iff (fingerprint digest f) k).0 at in
      let unknown : is_new (fingerprint digest f) ≡ true = rw e new in
      (f, (m, (missing, none_of_not_some _ (sym (is_new-eq f missing) ∙ unknown))))

  found_introduced :
      (fs : List Finding) (f : Finding)
      → IsIntroduced fs f
      → any (λ (e : String × Finding). is_new e.0) (gather digest is_missing_docstring [] fs) ≡ true
  found_introduced fs f (m, (missing, unknown)) =
      elim (Option-cases (latest digest is_missing_docstring (fingerprint digest f) fs)) [
        | inl unseen ↦
            let seen = latest-is_some digest is_missing_docstring f fs m missing in
            let off : is_some {A = Finding} none ≡ true = rw unseen at seen in cc
        | inr (g, seen) ↦
            let new : is_new (fingerprint digest f) ≡ true =
              is_new-eq f missing ∙ ap (λ o. not (is_some o)) unknown in
            (any-find (λ (e : String × Finding). is_new e.0)
                (gather digest is_missing_docstring [] fs)
                (gather-IsDict digest is_missing_docstring fs [] tt)).1
              (
                fingerprint digest f,
                (
                  g,
                  (
                    find-gather_empty digest is_missing_docstring (fingerprint digest f) fs ∙ seen,
                    new,
                  ),
                ),
              )
      ]

  -- QG169 is raised against a baseline exactly when some finding for a missing docstring has a
  -- fingerprint that the baseline does not have; no coverage and no removed finding offsets it.
  pub docstring_regression_iff :
      (percent : ℕ → ℕ → Datum) (report : ScanReport)
      → report.baseline ≡ some baseline
      → (nonempty (docstring_regression digest percent report) ≡ true)
        ↔ ((f : Finding) × IsIntroduced report.findings f)
  unfolding docstring_regression
  docstring_regression_iff percent report given =
      let same = nonempty-introduced report.findings in
      rw given (
        λ h. IsIntroduced-found report.findings (sym same ∙ ground (arith, h)),
        λ (f, is). let new = same ∙ found_introduced report.findings f is in ground (arith, new),
      )
