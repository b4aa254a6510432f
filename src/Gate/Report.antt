-- ===== src/Gate/Report.antt =====
-- runtime/src/model.py: `QualityBaseline` and `ScanReport`.
use repository_quality_guard.Prelude.{String, ℕ, List, Option, Dict}
use repository_quality_guard.Gate.Evidence.{Datum}
use repository_quality_guard.Prelude.Integers.{ℤ}
use repository_quality_guard.Gate.Findings.{Severity, Finding}
use repository_quality_guard.Gate.Interface.{InterfaceDiffReport}

-- `dict.fromkeys(("critical", "error", "warning", "info"), 0)` and what is counted into it.
pub record SeverityCounts : Type 0 where
  pub critical : ℕ
  pub error : ℕ
  pub warning : ℕ
  pub info : ℕ

pub record QualityBaseline : Type 0 where
  pub revision : String
  pub files_scanned : ℕ
  pub definitions : ℕ
  pub documented_definitions : ℕ
  pub complete_docstrings : ℕ
  pub docstring_definitions : ℕ
  pub summary : SeverityCounts
  pub by_rule : Dict SeverityCounts
  pub by_file : Dict SeverityCounts
  pub finding_severities : Dict Severity
  pub semantic_review_fingerprints : Dict ℕ

-- `quality_count_deltas`, for the three severities that the gate counts.
pub record CountDeltas : Type 0 where
  pub critical : ℤ
  pub error : ℤ
  pub warning : ℤ

pub record ScanReport : Type 0 where
  pub root : String
  pub files_scanned : ℕ
  pub findings : List Finding
  pub definitions : ℕ
  pub documented_definitions : ℕ
  pub complete_docstrings : ℕ
  pub docstring_definitions : ℕ
  pub interface_diff : Option InterfaceDiffReport
  pub scope_notes : List String
  pub focus_paths : List String
  pub project_name : String
  pub profile_source : String
  pub profile_capabilities : List String
  pub commit_policy : Dict Datum
  pub profile_metadata : Dict String
  pub baseline : Option QualityBaseline
  pub baseline_error : String
  pub comparison_mode : String
  pub comparison_target : String
  pub quality_count_deltas : Option CountDeltas
  pub test_findings : List Finding
  pub test_files_scanned : ℕ
  pub test_definitions : ℕ
  pub test_baseline : Option QualityBaseline
  pub relation_graph : Dict Datum
  pub multilang_summary : Dict Datum
