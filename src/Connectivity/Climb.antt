-- ===== src/Connectivity/Climb.antt =====
-- Where a chain of parents ends, and that halving it does not move the end.
use repository_quality_guard.Prelude.{
  String, ℕ, zero, suc, ◌≤◌, ◌≡◌, refl, sym, ap, ◌∙◌, some, ◌==◌, eq_iff, arith, Bool-cases, inl,
  inr,
}
use repository_quality_guard.Connectivity.{Parents, halve, root}

abbrev pub climb : Parents → ℕ → String → String
climb p zero x = x
climb p (suc d) x = climb p d (p x)

pub climb_suc : (p : Parents) (d : ℕ) (x : String) → climb p d (p x) ≡ p (climb p d x)
climb_suc p zero x = refl
climb_suc p (suc d) x = climb_suc p d (p x)

pub climb_root : (p : Parents) (d : ℕ) (r : String) → p r ≡ r → climb p d r ≡ r
climb_root p zero r h = refl
climb_root p (suc d) r h = rw h (climb_root p d r h)

-- A chain that has ended stays there.
pub climb_settles :
    (p : Parents) (d n : ℕ) (x r : String) → climb p d x ≡ r → p r ≡ r → d ≤ n → climb p n x ≡ r
climb_settles p zero n x r e h le = rw e (climb_root p n r h)
climb_settles p (suc d) zero x r e h le = ground arith
climb_settles p (suc d) (suc n) x r e h le = climb_settles p d n (p x) r e h (omega arith)

-- The ends of the chains of `p` are ends in `q` too, and no chain becomes longer.
abbrev pub Keeps : Parents → Parents → Type 0
Keeps p q = (z r : String) (d : ℕ) → climb p d z ≡ r → p r ≡ r → (climb q d z ≡ r) × (q r ≡ r)

halve_root : (p : Parents) (x r : String) → p r ≡ r → halve p x r ≡ r
halve_root p x r h = elim (Bool-cases (r == x)) [
  | inl same ↦
      let e : r ≡ x = (eq_iff r x).0 same in rw same (sym (ap (λ s. p (p s)) e) ∙ (ap p h ∙ h))
  | inr apart ↦ rw apart h
]

climb-halve :
    (p : Parents) (x z r : String) (d : ℕ) → climb p d z ≡ r → p r ≡ r → climb (halve p x) d z ≡ r
climb-halve p x z r zero e h = e
climb-halve p x z r (suc d) e h = elim (Bool-cases (z == x)) [
  | inl same ↦
      let at : x ≡ z = sym ((eq_iff z x).0 same) in
      let near : climb p d (p x) ≡ r = ap (λ s. climb p d (p s)) at ∙ e in
      let far : climb p d (p (p x)) ≡ r = climb_suc p d (p x) ∙ (ap p near ∙ h) in
      rw same (climb-halve p x (p (p x)) r d far h)
  | inr apart ↦ rw apart (climb-halve p x (p z) r d e h)
]

Keeps-halve : (p : Parents) (x : String) → Keeps p (halve p x)
Keeps-halve p x z r d e h = (climb-halve p x z r d e h, halve_root p x r h)

-- With fuel for the chain, the loop ends at the end of the chain.
pub root-eq-climb :
    (fuel : ℕ) (p : Parents) (x : String)
    → p (climb p fuel x) ≡ climb p fuel x
    → (q : Parents) × ((root fuel p x ≡ some (q, climb p fuel x)) × Keeps p q)
unfolding root
root-eq-climb zero p x h = (p, (rw ((eq_iff (p x) x).1 h) refl, λ z r d e k. (e, k)))
root-eq-climb (suc fuel) p x h = elim (Bool-cases (p x == x)) [
  | inl ended ↦
      let stays : climb p (suc fuel) x ≡ x = climb_root p (suc fuel) x ((eq_iff (p x) x).0 ended) in
      (p, (rw ended (ap (λ s. some (p, s)) (sym stays)), λ z r d e k. (e, k)))
  | inr more ↦
      let kept = Keeps-halve p x x (climb p fuel (p x)) (suc fuel) refl h in
      let (q, (found, keeps)) =
        root-eq-climb fuel (halve p x) (halve p x x)
          (ap (halve p x) kept.0 ∙ (kept.1 ∙ sym kept.0)) in
      (
        q,
        (
          rw more (found ∙ ap (λ s. some (q, s)) kept.0),
          λ z r d e k. let (e', k') = Keeps-halve p x z r d e k in keeps z r d e' k',
        ),
      )
]
