-- ===== src/Connectivity/Measure.antt =====
-- What `measure` finds: the number of the components, and the size of the largest.
use repository_quality_guard.Prelude.{
  String, ℕ, ◌≤◌, ◌≡◌, ◌↔◌, ◌⊎◌, refl, sym, ap, ◌∙◌, subst, Bool, true, List, [], ◌∷◌, some, ◌==◌,
  eq_iff, Bool-ext, inl, inr, length, map, distinct, Member, here, count_true, count_true-ext,
}
use repository_quality_guard.Connectivity.{Parents, Edge, Forest, Components, measure, maximum}
use repository_quality_guard.Connectivity.Climb.{climb_root, Keeps}
use repository_quality_guard.Connectivity.Connected.{Connected}
use repository_quality_guard.Connectivity.Invariant.{end_of, Inv, same_end_of_Connected}
use repository_quality_guard.Connectivity.Classes.{
  IsUnique, distinct-IsUnique, Member-distinct, Member_of_distinct, Member_of_map, Member-map,
  maximum-le, maximum_attained, roots_of-eq-map,
}

-- One representative for each component: a callable is connected to one of them and to no other.
pub record IsPartition (symbols : List String) (edges : List Edge) (reps : List String)
    : Type 0 where
  pub unique : IsUnique reps
  pub inside : (r : String) → Member r reps → Member r symbols
  pub covers :
      (x : String) → Member x symbols → (r : String) × (Member r reps × Connected edges x r)
  pub apart : (r r' : String) → Member r reps → Member r' reps → Connected edges r r' → r ≡ r'

-- The test holds at the callables that are connected to the one.
abbrev pub Decides : List String → List Edge → String → (String → Bool) → Type 0
Decides symbols edges x test =
    (z : String) → Member z symbols → (test z ≡ true) ↔ Connected edges x z

-- No component has more callables, and one has as many, unless there is no callable.
pub record IsLargest (symbols : List String) (edges : List Edge) (n : ℕ) : Type 0 where
  pub bounds :
      (x : String) (test : String → Bool)
      → Member x symbols
      → Decides symbols edges x test
      → count_true test symbols ≤ n
  pub attained :
      ((symbols ≡ []) × (n ≡ 0))
      ⊎ ((x : String) × (test : String → Bool) × Member x symbols
          × Decides symbols edges x test
          × (count_true test symbols ≡ n))

abbrev pub IsComponents : List String → List Edge → Components → Type 0
IsComponents symbols edges c =
    ((reps : List String) × (IsPartition symbols edges reps × (length reps ≡ c.count)))
    × IsLargest symbols edges c.largest

module _ (symbols : List String) (edges : List Edge) (s : Forest) (inv : Inv symbols edges s) where
  abbrev end : String → String
  end z = end_of symbols s.parent z

  abbrev reps : List String
  reps = distinct (map end symbols)

  -- A representative is the end of its own chain.
  rep_end : (r : String) → Member r reps → Member r symbols × (s.parent r ≡ r) × (end r ≡ r)
  rep_end r m =
      let (x, (k, e)) = Member_of_map end r symbols (Member_of_distinct r (map end symbols) m) in
      let h : s.parent r ≡ r = ap s.parent e ∙ (inv.rooted x k ∙ sym e) in
      (
        subst (λ z. Member z symbols) (sym e) (inv.inside x k),
        h,
        climb_root s.parent (length symbols) r h,
      )

  end_rep : (x : String) → Member x symbols → Member (end x) reps
  end_rep x m = Member-distinct (end x) (map end symbols) (Member-map end m)

  connected_iff :
      (x y : String) → Member x symbols → Member y symbols → Connected edges x y ↔ (end x ≡ end y)
  connected_iff x y m n = (same_end_of_Connected symbols edges s inv, inv.sound x y m n)

  partition : IsPartition symbols edges reps
  partition = record {
    unique = distinct-IsUnique (map end symbols);
    inside = λ r m. (rep_end r m).0;
    covers = λ x m.
        let held = end_rep x m in
        let (k, h, e) = rep_end (end x) held in
        (end x, (held, (connected_iff x (end x) m k).1 (sym e)));
    apart = λ r r' m m' c.
        let (k, h, e) = rep_end r m in
        let (k', h', e') = rep_end r' m' in sym e ∙ ((connected_iff r r' k k').0 c ∙ e');
  }

  -- The class of a callable, counted by its test and by its end.
  count_class :
      (x : String) (test : String → Bool)
      → Member x symbols
      → Decides symbols edges x test
      → count_true test symbols ≡ s.sizes (end x)
  count_class x test m decides =
      let held = end_rep x m in
      let (k, h, e) = rep_end (end x) held in
      count_true-ext test (λ z. end z == end x) symbols
        (λ z n.
          Bool-ext (test z) (end z == end x)
            (λ hit.
              (eq_iff (end z) (end x)).1 (sym ((connected_iff x z m n).0 ((decides z n).0 hit))))
            (λ hit.
              (decides z n).1 ((connected_iff x z m n).1 (sym ((eq_iff (end z) (end x)).0 hit)))))
      ∙ sym (inv.sized (end x) k h)

  end-Decides : (x : String) → Member x symbols → Decides symbols edges x (λ z. end z == end x)
  end-Decides x m z n = (
    λ hit. (connected_iff x z m n).1 (sym ((eq_iff (end z) (end x)).0 hit)),
    λ c. (eq_iff (end z) (end x)).1 (sym ((connected_iff x z m n).0 c)),
  )

  no_callable : reps ≡ [] → symbols ≡ []
  no_callable none = empty_of symbols (λ x m. subst (Member (end x)) none (end_rep x m))
    where
      empty_of : (xs : List String) → ((x : String) → Member x xs → Member (end x) []) → xs ≡ []
      empty_of [] h = refl
      empty_of (x ∷ xs) h = elim (h x here) [ ]

  largest : IsLargest symbols edges (maximum (map s.sizes reps))
  largest = record {
    bounds = λ x test m decides.
        let held = Member-map s.sizes (end_rep x m) in
        rw (count_class x test m decides) (maximum-le (s.sizes (end x)) (map s.sizes reps) held);
    attained = elim (maximum_attained s.sizes reps) [
      | inl (none, e) ↦ inl (no_callable none, e)
      | inr (r, (m, e)) ↦
          let (k, h, at) = rep_end r m in
          let size = count_class r (λ z. end z == end r) k (end-Decides r k) in
          inr (r, (λ z. end z == end r), k, end-Decides r k, size ∙ (ap s.sizes at ∙ sym e))
    ];
  }

  -- Measuring succeeds, moves no end and finds the components.
  pub measure-IsComponents :
      (q : Parents) × ((c : Components) × ((measure (length symbols) s symbols ≡ some (q, c))
          × Keeps s.parent q
          × IsComponents symbols edges c))
  unfolding measure
  measure-IsComponents =
      let (q, (found, keeps)) = roots_of-eq-map symbols s.parent symbols inv.rooted in
      (
        q,
        (
          record { count = length reps; largest = maximum (map s.sizes reps) },
          (rw found refl, keeps, ((reps, (partition, refl)), largest)),
        ),
      )
