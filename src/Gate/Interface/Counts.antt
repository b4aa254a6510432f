-- ===== src/Gate/Interface/Counts.antt =====
-- The counts of an interface difference report agree with each other.
use repository_quality_guard.Prelude.{ℕ, ◌+◌, ◌≡◌, List, [], ◌∷◌, arith, length, count_true}
use repository_quality_guard.Gate.Interface.{
  InterfaceChange, InterfaceChangeType, InterfaceKind, InterfaceDiffReport, ByChange, ByKind, tally,
  summary, breaking, count_change, count_kind, no_changes, no_kinds,
}

abbrev pub sum_changes : ByChange → ℕ
sum_changes t = t.added + t.removed + t.modified

abbrev pub sum_kinds : ByKind → ℕ
sum_kinds t = t.file + t.class + t.function + t.global_variable + t.method + t.member_variable

abbrev breaks : ByChange → ℕ
breaks t = t.removed + t.modified

sum_kinds-count_kind :
    (k : InterfaceKind) (t : ByKind) → sum_kinds (count_kind k t) ≡ 1 + sum_kinds t
unfolding count_kind
sum_kinds-count_kind k t = grind arith

sum_changes-count_change :
    (c : InterfaceChangeType) (t : ByChange) → sum_changes (count_change c t) ≡ 1 + sum_changes t
unfolding count_change
sum_changes-count_change c t = grind arith

breaks-count_change :
    (c : InterfaceChange) (t : ByChange)
    → breaks (count_change c.change t) ≡ count_true breaking (c ∷ []) + breaks t
unfolding count_change breaking
breaks-count_change c t = grind arith

tally_sums :
    (cs : List InterfaceChange) (a : ByChange) (b : ByKind)
    → (sum_changes (tally cs (a, b)).0 ≡ length cs + sum_changes a)
      × (sum_kinds (tally cs (a, b)).1 ≡ length cs + sum_kinds b)
      × (breaks (tally cs (a, b)).0 ≡ count_true breaking cs + breaks a)
unfolding tally
tally_sums [] a b = (omega arith, omega arith, omega arith)
tally_sums (c ∷ cs) a b =
    let (changes, kinds, broken) = tally_sums cs (count_change c.change a) (count_kind c.kind b) in
    (
      omega (arith, changes, sum_changes-count_change c.change a),
      omega (arith, kinds, sum_kinds-count_kind c.kind b),
      omega (arith, broken, breaks-count_change c a),
    )

-- `summary`: the table by change and the table by kind both add up to the total, and the breaking
-- changes are the removed and the modified ones.
pub summary_adds_up :
    (report : InterfaceDiffReport)
    → (sum_changes (summary report).by_change ≡ (summary report).total)
      × (sum_kinds (summary report).by_kind ≡ (summary report).total)
      × ((summary report).by_change.removed + (summary report).by_change.modified
          ≡ (summary report).breaking)
unfolding summary
summary_adds_up report =
    let (changes, kinds, broken) = tally_sums report.changes no_changes no_kinds in
    (omega (arith, changes), omega (arith, kinds), omega (arith, broken))
