-- ===== src/Connectivity/Unite.antt =====
-- Attaching the root of one end of an edge to the root of the other records the edge.
use repository_quality_guard.Prelude.{
  String, suc, ◌+◌, ◌≤◌, ◌≡◌, ap, ◌∙◌, false, List, ◌==◌, eq_iff, eq_refl, arith, Bool-cases, inl,
  inr, length, count_true, count_true-le, count_true-ext, count_true-or, Member, ◌&&◌, ◌||◌,
}
use repository_quality_guard.Connectivity.{Parents, Edge, Forest, update}
use repository_quality_guard.Connectivity.Climb.{climb_settles}
use repository_quality_guard.Connectivity.Attach.{moved, moved_root, climb_other, climb_self}
use repository_quality_guard.Connectivity.Invariant.{end_of, Inv}

-- How the test for a root reads behind the move.
moved-hits : (a b t : String) → (a == b) ≡ false → (moved a b t == a) ≡ (t == a || t == b)
moved-hits a b t apart = ground (arith, eq_refl a, eq_iff t b, eq_iff t a)

moved-misses :
    (a b r t : String) → (a == r) ≡ false → (b == r) ≡ false → (moved a b t == r) ≡ (t == r)
moved-misses a b r t off off' = ground (arith, eq_iff t b)

hits-apart : (a b t : String) → (a == b) ≡ false → (t == a && t == b) ≡ false
hits-apart a b t apart = ground (arith, eq_iff t a, eq_iff t b, eq_iff a b)

module _ (symbols : List String) (done : List Edge) (s : Forest) (inv : Inv symbols done s)
    (a b : String) (in_a : Member a symbols) (in_b : Member b symbols) (root_a : s.parent a ≡ a)
    (root_b : s.parent b ≡ b) (apart : (a == b) ≡ false) where
  abbrev end : String → String
  end z = end_of symbols s.parent z

  abbrev q : Parents
  q = update b a s.parent

  size-le : (r : String) → Member r symbols → s.parent r ≡ r → s.sizes r ≤ length symbols
  size-le r m h = omega (arith, inv.sized r m h, count_true-le (λ z. end z == r) symbols)

  pub end-attach : (z : String) → Member z symbols → end_of symbols q z ≡ moved a b (end z)
  end-attach z m =
      let (d, (c, lt)) = inv.depth z m in
      let short = size-le (end z) (inv.inside z m) (inv.rooted z m) in
      let kept = moved_root s.parent a b root_a root_b apart (end z) (inv.rooted z m) in
      elim (Bool-cases (end z == b)) [
        | inl self ↦
            let at : end z ≡ b = (eq_iff (end z) b).0 self in
            let up = climb_self s.parent a b root_a root_b apart d z (c ∙ at) in
            rw self
              (climb_settles q (suc d) (length symbols) z a up (rw self at kept) (omega arith))
        | inr other ↦
            let up = climb_other s.parent a b root_a root_b apart d z (end z) c other in
            rw other
              (climb_settles q d (length symbols) z (end z) up (rw other at kept) (omega arith))
      ]

  pub count-attach :
      count_true (λ z. end_of symbols q z == a) symbols
      ≡ count_true (λ z. end z == a) symbols + count_true (λ z. end z == b) symbols
  count-attach =
      count_true-or (λ z. end_of symbols q z == a) (λ z. end z == a) (λ z. end z == b) symbols
        (λ z m. ap (λ t. t == a) (end-attach z m) ∙ moved-hits a b (end z) apart)
        (λ z m. hits-apart a b (end z) apart)

  pub count-attach_other :
      (r : String)
      → (a == r) ≡ false
      → (b == r) ≡ false
      → count_true (λ z. end_of symbols q z == r) symbols ≡ count_true (λ z. end z == r) symbols
  count-attach_other r off off' =
      count_true-ext (λ z. end_of symbols q z == r) (λ z. end z == r) symbols
        (λ z m. ap (λ t. t == r) (end-attach z m) ∙ moved-misses a b r (end z) off off')
