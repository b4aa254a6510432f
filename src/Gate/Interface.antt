-- ===== src/Gate/Interface.antt =====
-- runtime/src/model.py: interface symbols, their changes, and the counts of a difference report.
pub mod Counts
use repository_quality_guard.Prelude.{
  String, ℕ, suc, Bool, true, false, ◌||◌, List, [], ◌∷◌, Option, ◌==◌, length, count_true,
  nonempty, format, decimal,
}
use repository_quality_guard.Gate.Evidence.{Datum}
use repository_quality_guard.Gate.Findings.{Finding}
use repository_quality_guard.Prelude.{Dict}

pub data InterfaceKind : Type 0 where
  file class function global_variable method member_variable : InterfaceKind

pub data InterfaceChangeType : Type 0 where
  added removed modified : InterfaceChangeType

pub record InterfaceParameter : Type 0 where
  pub name : String
  pub kind : String
  pub annotation : String
  pub has_default : Bool
  pub default : String

-- What `InterfaceSymbol.comparable` returns: the declaration without its place in the source.
pub record Declaration : Type 0 where
  pub parameters : List InterfaceParameter
  pub return_type : String
  pub annotation : String
  pub value : String
  pub storage : String
  pub decorators : List String
  pub bases : List String
  pub is_async : Bool
  pub exports : List String

pub record InterfaceSymbol : Type 0 where
  pub kind : InterfaceKind
  pub path : String
  pub qualname : String
  pub line : ℕ
  pub variant : ℕ
  pub declaration : Declaration
  pub code_lines : ℕ
  pub exposure : String

abbrev pub kind_name : InterfaceKind → String
kind_name file = "file"
kind_name class = "class"
kind_name function = "function"
kind_name global_variable = "global_variable"
kind_name method = "method"
kind_name member_variable = "member_variable"

-- `InterfaceSymbol.key`
unfoldable pub key : InterfaceSymbol → String
key s = format (kind_name s.kind ∷ ":" ∷ s.path ∷ ":" ∷ s.qualname ∷ ":" ∷ decimal s.variant ∷ [])

pub record InterfaceChange : Type 0 where
  pub change : InterfaceChangeType
  pub kind : InterfaceKind
  pub path : String
  pub symbol : String
  pub before : Option InterfaceSymbol
  pub after : Option InterfaceSymbol
  pub details : Dict Datum

-- `InterfaceChange.breaking`
unfoldable pub breaking : InterfaceChange → Bool
breaking c = elim c.change [ removed ↦ true | modified ↦ true | added ↦ false ]

pub record InterfaceDiffReport : Type 0 where
  pub base : String
  pub target : String
  pub changes : List InterfaceChange
  pub base_files : ℕ
  pub target_files : ℕ
  pub errors : List String
  pub contract_findings : List Finding
  pub api_scope : String
  pub private_min_lines : ℕ

unfoldable pub has_changes : InterfaceDiffReport → Bool
has_changes report = nonempty report.changes

-- The two tables of counts that `summary` fills, a field for each key.
pub record ByChange : Type 0 where
  pub added : ℕ
  pub removed : ℕ
  pub modified : ℕ

pub record ByKind : Type 0 where
  pub file : ℕ
  pub class : ℕ
  pub function : ℕ
  pub global_variable : ℕ
  pub method : ℕ
  pub member_variable : ℕ

pub record DiffSummary : Type 0 where
  pub total : ℕ
  pub breaking : ℕ
  pub by_change : ByChange
  pub by_kind : ByKind

-- `by_change[item.change] += 1`
unfoldable pub count_change : InterfaceChangeType → ByChange → ByChange
count_change added t = record t { added = suc t.added }
count_change removed t = record t { removed = suc t.removed }
count_change modified t = record t { modified = suc t.modified }

-- `by_kind[item.kind] += 1`
unfoldable pub count_kind : InterfaceKind → ByKind → ByKind
count_kind file t = record t { file = suc t.file }
count_kind class t = record t { class = suc t.class }
count_kind function t = record t { function = suc t.function }
count_kind global_variable t = record t { global_variable = suc t.global_variable }
count_kind method t = record t { method = suc t.method }
count_kind member_variable t = record t { member_variable = suc t.member_variable }

-- The loop of `summary` over the changes.
unfoldable pub tally : List InterfaceChange → ByChange × ByKind → ByChange × ByKind
unfolding count_change count_kind
tally [] t = t
tally (c ∷ cs) (by_change, by_kind) =
    tally cs (count_change c.change by_change, count_kind c.kind by_kind)

abbrev pub no_changes : ByChange
no_changes = record { added = 0; removed = 0; modified = 0 }

abbrev pub no_kinds : ByKind
no_kinds = record {
  file = 0;
  class = 0;
  function = 0;
  global_variable = 0;
  method = 0;
  member_variable = 0;
}

-- `InterfaceDiffReport.summary`
unfoldable pub summary : InterfaceDiffReport → DiffSummary
unfolding tally
summary report =
    let (by_change, by_kind) = tally report.changes (no_changes, no_kinds) in
    record {
      total = length report.changes;
      breaking = count_true breaking report.changes;
      by_change = by_change;
      by_kind = by_kind;
    }
