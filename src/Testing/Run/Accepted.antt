-- ===== src/Testing/Run/Accepted.antt =====
-- What a run must be like for the runner to exit with 0.
use repository_quality_guard.Prelude.{
  String, ◌==◌, eq_iff, ◌≡◌, ◌≢◌, ◌↔◌, Bool, true, false, ◌||◌, List, [], ◌∷◌, Option, none, some,
  any, all, nonempty, format, arith, Bool-cases, inl, inr,
}
use Prim.Native.String.{◌++◌}
use text.Mathlib.TextLemmas.{append-eq-nil_iff, append-ne-nil_of_right_ne-nil}
use repository_quality_guard.Testing.Ledger.{is_pass, has_text}
use repository_quality_guard.Testing.Ledger.Laws.{succeeded_iff}
use repository_quality_guard.Testing.Run.{
  Execution, add_error, add_errors, all_samples, final_invalid, ledger, exit_status,
}
use repository_quality_guard.Testing.Run.Status.{exit_status_iff}

abbrev pub is_broken : Execution → Bool
is_broken e = has_text e.error

separator-ne-empty : ◌≢◌ {A = String} "; " ""
separator-ne-empty e = let same : false ≡ true = (eq_iff "; " "").1 e in ground (arith, same)

rest-ne-empty : (error : String) → ("; " ++ (error ++ "")) ≢ ""
rest-ne-empty error empty =
    let whole = append-eq-nil_iff {p = "; "} {q = error ++ ""} in
    separator-ne-empty (whole.0 empty).0

joined-ne-empty : (before error : String) → (format (before ∷ "; " ∷ error ∷ []) == "") ≡ false
unfolding format
joined-ne-empty before error = elim (Bool-cases (format (before ∷ "; " ∷ error ∷ []) == "")) [
  | inl empty ↦
      elim (append-ne-nil_of_right_ne-nil before (rest-ne-empty error)
        ((eq_iff (before ++ ("; " ++ (error ++ ""))) "").0 empty)) [ ]
  | inr filled ↦ filled
]

has_text-add_error :
    (error before : Option String)
    → has_text (add_error error before) ≡ (has_text before || has_text error)
unfolding add_error
has_text-add_error none before = ground arith
has_text-add_error (some error) none = ground arith
has_text-add_error (some error) (some before) =
    let filled = joined-ne-empty before error in ground (arith, filled)

has_text-add_errors :
    (before : Option String) (es : List Execution)
    → has_text (add_errors before es) ≡ (has_text before || any is_broken es)
unfolding add_errors
has_text-add_errors before [] = ground arith
has_text-add_errors before (e ∷ es) =
    let rest = has_text-add_errors (add_error e.error before) es in
    let first = has_text-add_error e.error before in ground (arith, rest, first)

-- The runner exits with 0 on the executions of a run exactly when no source has changed meanwhile, no
-- execution has an error, there is a sample, and every sample of every execution passed.
pub exit_status-ledger_iff :
    (unchanged : Bool) (es : List Execution)
    → (exit_status (ledger unchanged es) ≡ 0) ↔ (
        (unchanged ≡ true)
        × (any is_broken es ≡ false)
        × (nonempty (all_samples es) ≡ true)
        × (all is_pass (all_samples es) ≡ true))
unfolding ledger final_invalid
exit_status-ledger_iff unchanged es =
    let status = (exit_status_iff (ledger unchanged es)).0 in
    let batch = succeeded_iff (ledger unchanged es) in
    let errors = has_text-add_errors none es in
    (λ h. ground (arith, status, batch, errors, h), λ h. ground (arith, status, batch, errors, h))
