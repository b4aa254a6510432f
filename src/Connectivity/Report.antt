-- ===== src/Connectivity/Report.antt =====
-- The numbers of the report are those of the components by calls, and of the components by calls and
-- registrations.
use repository_quality_guard.Prelude.{
  String, ℕ, ◌≡◌, ◌↔◌, ◌⊎◌, refl, Bool, ◌&&◌, List, [], ◌∷◌, ◌++◌, some, ◌==◌, arith, inl, inr,
  contains, Member, there, Member_cases, Member-cons, Member-append, Member-select,
}
use repository_quality_guard.Connectivity.{
  Edge, Components, Graph, Statistics, callables, edges_of_kind, call_edges, alone, report_of,
  graph_statistics,
}
use repository_quality_guard.Connectivity.Connected.{Connected, Connected_mono}
use repository_quality_guard.Connectivity.Invariant.{Inv-Keeps}
use repository_quality_guard.Connectivity.Steps.{prepend, IsInside, unite_all-Inv}
use repository_quality_guard.Connectivity.Classes.{
  IsUnique, distinct-IsUnique, Member_of_contains, Inv-alone,
}
use repository_quality_guard.Connectivity.Measure.{
  IsPartition, IsLargest, IsComponents, Decides, measure-IsComponents,
}

module _ (symbols : List String) (es fs : List Edge)
    (agree : (e : Edge) → Member e es ↔ Member e fs) where
  forth : {x y : String} → Connected es x y → Connected fs x y
  forth c = Connected_mono (λ e m. (agree e).0 m) c

  back : {x y : String} → Connected fs x y → Connected es x y
  back c = Connected_mono (λ e m. (agree e).1 m) c

  Decides-back :
      (x : String) (test : String → Bool) → Decides symbols fs x test → Decides symbols es x test
  Decides-back x test d z n = (λ h. back ((d z n).0 h), λ c. (d z n).1 (forth c))

  Decides-forth :
      (x : String) (test : String → Bool) → Decides symbols es x test → Decides symbols fs x test
  Decides-forth x test d z n = (λ h. forth ((d z n).0 h), λ c. (d z n).1 (back c))

  IsPartition-agree :
      (reps : List String) → IsPartition symbols es reps → IsPartition symbols fs reps
  IsPartition-agree reps p = record {
    unique = p.unique;
    inside = p.inside;
    covers = λ x m. let (r, (k, c)) = p.covers x m in (r, (k, forth c));
    apart = λ r r' m m' c. p.apart r r' m m' (back c);
  }

  IsLargest-agree : (n : ℕ) → IsLargest symbols es n → IsLargest symbols fs n
  IsLargest-agree n l = record {
    bounds = λ x test m d. l.bounds x test m (Decides-back x test d);
    attained = elim l.attained [
      | inl none ↦ inl none
      | inr (x, test, m, d, e) ↦ inr (x, test, m, Decides-forth x test d, e)
    ];
  }

  IsComponents-agree : (c : Components) → IsComponents symbols es c → IsComponents symbols fs c
  IsComponents-agree c ((reps, (p, e)), l) =
      ((reps, (IsPartition-agree reps p, e)), IsLargest-agree c.largest l)

Member-prepend :
    (e : Edge) (xs done : List Edge) → Member e (prepend xs done) ↔ (Member e xs ⊎ Member e done)
Member-prepend e [] done = (λ m. inr m, λ s. elim s [ inl m ↦ elim m [ ] | inr m ↦ m ])
Member-prepend e (x ∷ xs) done =
    let rest = Member-prepend e xs (x ∷ done) in
    (
      λ m. elim (rest.0 m) [
        | inl k ↦ inl (there k)
        | inr k ↦ elim (Member_cases k) [
          | inl at ↦ inl (Member-cons.1 (inl at))
          | inr old ↦ inr old
        ]
      ],
      λ s. elim s [
        | inl m ↦ elim (Member_cases m) [
          | inl at ↦ rest.1 (inr (Member-cons.1 (inl at)))
          | inr later ↦ rest.1 (inl later)
        ]
        | inr old ↦ rest.1 (inr (there old))
      ],
    )

-- The ends of an edge that counts are callables.
edges_of_kind-IsInside :
    (g : Graph) (name : String) (e : Edge)
    → Member e (edges_of_kind g name)
    → IsInside (callables g) e
unfolding edges_of_kind
edges_of_kind-IsInside g name e m =
    let passed =
      (Member-select
          (λ (d : Edge).
            d.kind == name && (contains d.source (callables g) && contains d.target (callables g)))
          e g.edges).0
        m in
    (
      Member_of_contains e.source (callables g) (ground (arith, passed.1)),
      Member_of_contains e.target (callables g) (ground (arith, passed.1)),
    )

call_edges-IsInside : (g : Graph) (e : Edge) → Member e (call_edges g) → IsInside (callables g) e
unfolding call_edges
call_edges-IsInside g e m =
    let later = edges_of_kind g "may_dispatch" ++ edges_of_kind g "may_callback" in
    elim ((Member-append e (edges_of_kind g "direct_call") later).0 m) [
      | inl k ↦ edges_of_kind-IsInside g "direct_call" e k
      | inr k ↦
          elim ((Member-append e (edges_of_kind g "may_dispatch")
              (edges_of_kind g "may_callback")).0
            k) [
              | inl l ↦ edges_of_kind-IsInside g "may_dispatch" e l
              | inr l ↦ edges_of_kind-IsInside g "may_callback" e l
            ]
    ]

callables-IsUnique : (g : Graph) → IsUnique (callables g)
unfolding callables
callables-IsUnique g = distinct-IsUnique _

prepend_calls :
    (g : Graph) (e : Edge) → Member e (prepend (call_edges g) []) ↔ Member e (call_edges g)
prepend_calls g e =
    let both = Member-prepend e (call_edges g) [] in
    (λ m. elim (both.0 m) [ inl k ↦ k | inr k ↦ elim k [ ] ], λ m. both.1 (inl m))

prepend_all :
    (g : Graph) (e : Edge)
    → Member e (prepend (edges_of_kind g "callback_registration") (prepend (call_edges g) []))
      ↔ Member e (call_edges g ++ edges_of_kind g "callback_registration")
prepend_all g e =
    let registered = edges_of_kind g "callback_registration" in
    let both = Member-prepend e registered (prepend (call_edges g) []) in
    let either = Member-append e (call_edges g) registered in
    (
      λ m. elim (both.0 m) [
        | inl k ↦ either.1 (inr k)
        | inr k ↦ either.1 (inl ((prepend_calls g e).0 k))
      ],
      λ m. elim (either.0 m) [
        | inl k ↦ both.1 (inr ((prepend_calls g e).1 k))
        | inr k ↦ both.1 (inl k)
      ],
    )

-- For every graph there is a report: its first two numbers of components and of callables in the
-- largest are those of the callables linked by calls, its others those by calls or registrations.
pub graph_statistics-IsComponents :
    (g : Graph)
    → (r : Statistics) × ((graph_statistics g ≡ some r)
        × IsComponents (callables g) (call_edges g) r.calls
        × IsComponents
            (callables g)
            (call_edges g ++ edges_of_kind g "callback_registration")
            r.augmented)
unfolding graph_statistics
graph_statistics-IsComponents g =
    let symbols = callables g in
    let calls = call_edges g in
    let registered = edges_of_kind g "callback_registration" in
    let fresh = Inv-alone symbols (callables-IsUnique g) in
    let (s, (united, inv)) = unite_all-Inv symbols calls [] alone fresh (call_edges-IsInside g) in
    let (p, (c, (measured, keeps, found))) =
      measure-IsComponents symbols (prepend calls []) s inv in
    let inv' = Inv-Keeps symbols (prepend calls []) s p inv keeps in
    let (t, (united', inv'')) =
      unite_all-Inv symbols registered (prepend calls []) (record s { parent = p }) inv'
        (edges_of_kind-IsInside g "callback_registration") in
    let (q, (d, (measured', keeps', found'))) =
      measure-IsComponents symbols (prepend registered (prepend calls [])) t inv'' in
    (
      report_of g c d,
      (
        rw (united, measured, united', measured') refl,
        IsComponents-agree symbols (prepend calls []) calls (prepend_calls g) c found,
        IsComponents-agree symbols (prepend registered (prepend calls [])) (calls ++ registered)
            (prepend_all g) d found',
      ),
    )
