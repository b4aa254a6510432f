-- ===== src/Topology/Indexed.antt =====
-- The two indices of a topology answer as its edges do.
use repository_quality_guard.Prelude.{
  String, Bool, true, false, not, ◌&&◌, List, [], ◌∷◌, ◌++◌, ◌≡◌, refl, sym, ap, ◌∙◌, ◌==◌, eq_iff,
  eq_refl, select, arith, Bool-cases, inl, inr, nonempty, ◌||◌,
}
use repository_quality_guard.Topology.{
  UsageKind, UsageEdge, SymbolFact, Index, add_row, add_rows, new_topology, rows_at, is_accepted,
  filter_kinds, incoming, outgoing,
}

append-nil : (xs : List UsageEdge) → xs ++ [] ≡ xs
append-nil [] = refl
append-nil (x ∷ xs) = ap (λ l. x ∷ l) (append-nil xs)

append_assoc : (xs ys zs : List UsageEdge) → (xs ++ ys) ++ zs ≡ xs ++ (ys ++ zs)
append_assoc [] ys zs = refl
append_assoc (x ∷ xs) ys zs = ap (λ l. x ∷ l) (append_assoc xs ys zs)

eq_other : (k key other : String) → (k == key) ≡ true → (key == other) ≡ (k == other)
eq_other k key other same = ap (λ s. s == other) (sym ((eq_iff k key).0 same))

rows_at-add_row_same :
    (key : String) (edge : UsageEdge) (index : Index)
    → rows_at key (add_row key edge index) ≡ rows_at key index ++ edge ∷ []
unfolding add_row
rows_at-add_row_same key edge [] = rw (eq_refl key) refl
rows_at-add_row_same key edge ((k, rows) ∷ index) = elim (Bool-cases (k == key)) [
  | inl same ↦ rw (same, same) refl
  | inr apart ↦ rw (apart, apart) (rows_at-add_row_same key edge index)
]

rows_at-add_row_other :
    (key other : String) (edge : UsageEdge) (index : Index)
    → (key == other) ≡ false
    → rows_at other (add_row key edge index) ≡ rows_at other index
unfolding add_row
rows_at-add_row_other key other edge [] h = rw h refl
rows_at-add_row_other key other edge ((k, rows) ∷ index) h = elim (Bool-cases (k == key)) [
  | inl same ↦
      let away : (k == other) ≡ false = sym (eq_other k key other same) ∙ h in rw (same, away) refl
  | inr apart ↦ rw (apart, rows_at-add_row_other key other edge index h) refl
]

rows_at-add_rows :
    (by : UsageEdge → String) (key : String) (edges : List UsageEdge) (index : Index)
    → rows_at key (add_rows by edges index) ≡ rows_at key index ++ select (λ e. by e == key) edges
unfolding add_rows
rows_at-add_rows by key [] index = sym (append-nil (rows_at key index))
rows_at-add_rows by key (e ∷ es) index =
    let rest = rows_at-add_rows by key es (add_row (by e) e index) in
    elim (Bool-cases (by e == key)) [
      | inl same ↦
          let row : rows_at key (add_row (by e) e index) ≡ rows_at key index ++ e ∷ [] =
            rw (sym ((eq_iff (by e) key).0 same)) (rows_at-add_row_same (by e) e index) in
          let more = select (λ x. by x == key) es in
          rw same
            (rest ∙ (ap (λ l. l ++ more) row ∙ append_assoc (rows_at key index) (e ∷ []) more))
      | inr apart ↦
          let row = rows_at-add_row_other (by e) key e index apart in rw (apart, rest, row) refl
    ]

-- `not kinds or edge.kind in kinds`
abbrev pub accepts : List UsageKind → UsageEdge → Bool
accepts kinds edge = not (nonempty kinds) || is_accepted kinds edge

select-select :
    (p q : UsageEdge → Bool) (es : List UsageEdge)
    → select q (select p es) ≡ select (λ e. p e && q e) es
select-select p q [] = refl
select-select p q (e ∷ es) = ground (arith, select-select p q es)

select-true :
    (p : UsageEdge → Bool) (es : List UsageEdge) → select p es ≡ select (λ e. p e && true) es
select-true p [] = refl
select-true p (e ∷ es) = ground (arith, select-true p es)

filter_kinds-select :
    (p : UsageEdge → Bool) (kinds : List UsageKind) (es : List UsageEdge)
    → filter_kinds kinds (select p es) ≡ select (λ e. p e && accepts kinds e) es
filter_kinds-select p [] es = select-true p es
filter_kinds-select p (kind ∷ kinds) es = select-select p (is_accepted (kind ∷ kinds)) es

-- What a topology answers about the edges into a target, and about those out of a source, are its
-- edges with that end and a kind among the given ones, all kinds if none is given, in their order.
pub incoming-outgoing-eq-select :
    (symbols : List SymbolFact) (edges : List UsageEdge) (symbol : String) (kinds : List UsageKind)
    → (incoming (new_topology symbols edges) symbol kinds
        ≡ select (λ e. e.target_id == symbol && accepts kinds e) edges)
      × (outgoing (new_topology symbols edges) symbol kinds
          ≡ select (λ e. e.source_id == symbol && accepts kinds e) edges)
unfolding incoming outgoing new_topology
incoming-outgoing-eq-select symbols edges symbol kinds =
    let into = rows_at-add_rows (λ e. e.target_id) symbol edges [] in
    let out = rows_at-add_rows (λ e. e.source_id) symbol edges [] in
    (
      ap (filter_kinds kinds) into ∙ filter_kinds-select (λ e. e.target_id == symbol) kinds edges,
      ap (filter_kinds kinds) out ∙ filter_kinds-select (λ e. e.source_id == symbol) kinds edges,
    )
