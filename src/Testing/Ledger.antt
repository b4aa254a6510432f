-- ===== src/Testing/Ledger.antt =====
-- packages/rqgtest/src/rqgtest/core/result.py: the immutable ledger of one invocation.
pub mod Laws
use repository_quality_guard.Prelude.{
  String, ℕ, ◌==◌, Bool, true, false, not, ◌&&◌, List, Option, none, some, eqb, length, count_true,
  nonempty, map, [], ◌∷◌,
}

pub data Status : Type 0 where
  pass fail invalid : Status

pub record SampleResult : Type 0 where
  pub name : String
  pub status : Status
  pub detail : String

abbrev pub is_pass : SampleResult → Bool
is_pass sample = elim sample.status [ pass ↦ true | _ ↦ false ]

-- `invalid` is an optional message; Python's `not self.invalid` also takes the empty text for none.
pub record BatchResult : Type 0 where
  pub samples : List SampleResult
  pub invalid : Option String

abbrev pub has_text : Option String → Bool
has_text none = false
has_text (some s) = not (s == "")

unfoldable pub passed : BatchResult → ℕ
passed report = count_true is_pass report.samples

unfoldable pub succeeded : BatchResult → Bool
unfolding passed
succeeded report =
    nonempty report.samples
    && not (has_text report.invalid)
    && eqb (passed report) (length report.samples)

-- `to_dict`: what the report file holds of a batch.
pub record LedgerRow : Type 0 where
  pub passed : ℕ
  pub total : ℕ
  pub succeeded : Bool
  pub invalid : Option String
  pub results : List SampleResult

unfoldable pub to_dict : BatchResult → LedgerRow
unfolding passed succeeded
to_dict report = record {
  passed = passed report;
  total = length report.samples;
  succeeded = succeeded report;
  invalid = report.invalid;
  results = report.samples;
}

-- `TestUnit.require_pass`: the report of a failed batch is kept in the exception.
pub data Verdict : Type 0 where
  accepted : Verdict
  test_run_failure : BatchResult → Verdict

unfoldable pub require_pass : BatchResult → Verdict
unfolding succeeded
require_pass report = elim (succeeded report) [ true ↦ accepted | false ↦ test_run_failure report ]
