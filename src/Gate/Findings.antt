-- ===== src/Gate/Findings.antt =====
-- runtime/src/model.py: `Finding` and its fingerprint.
use repository_quality_guard.Prelude.{
  String, ℕ, Bool, true, false, [], ◌∷◌, Option, none, some, ◌==◌, format, decimal, Dict,
  if◌then◌else◌,
}
use repository_quality_guard.Gate.Evidence.{Datum}

pub data Severity : Type 0 where
  info warning error critical : Severity

pub data Confidence : Type 0 where
  low medium high : Confidence

pub record Finding : Type 0 where
  pub code : String
  pub severity : Severity
  pub confidence : Confidence
  pub path : String
  pub line : ℕ
  pub column : ℕ
  pub message : String
  pub symbol : String
  pub suggestion : String
  pub evidence : Dict Datum
  pub source : String

-- `Finding.fingerprint`. `digest` is the text that stands for a message: the first 16 hex digits of
-- the SHA-256 of the message with its white space joined and its numbers replaced by `#`.
unfoldable pub fingerprint : (String → String) → Finding → String
fingerprint digest f =
    let stable_symbol =
      if f.symbol == "" then format ("line:" ∷ decimal f.line ∷ []) else f.symbol in
    format (
      f.source
      ∷ ":"
      ∷ f.code
      ∷ ":"
      ∷ f.path
      ∷ ":"
      ∷ stable_symbol
      ∷ ":message:"
      ∷ digest f.message
      ∷ [])

-- `severity in {"critical", "error", "warning"}`
abbrev pub is_ranked : Severity → Bool
is_ranked info = false
is_ranked _ = true

-- `SEVERITY_RANK` and the `rank` of the regression rule: an information has no entry.
abbrev pub rank : Severity → Option ℕ
rank warning = some 1
rank error = some 2
rank critical = some 3
rank info = none

abbrev pub same_severity : Severity → Severity → Bool
same_severity info info = true
same_severity warning warning = true
same_severity error error = true
same_severity critical critical = true
same_severity _ _ = false
