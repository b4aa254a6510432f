-- ===== src/Connectivity/Attach.antt =====
-- Where the chains end once a root has been attached to another.
use repository_quality_guard.Prelude.{
  String, ℕ, zero, suc, ◌≡◌, refl, sym, ap, ◌∙◌, false, ◌==◌, eq_iff, Bool-cases, inl, inr,
  if◌then◌else◌,
}
use repository_quality_guard.Connectivity.{Parents, update}
use repository_quality_guard.Connectivity.Climb.{climb, climb_root}

-- The end of a chain that ended at `r`.
abbrev pub moved : String → String → String → String
moved a b r = if r == b then a else r

module _ (p : Parents) (a b : String) (root_a : p a ≡ a) (root_b : p b ≡ b)
    (apart : (a == b) ≡ false) where
  pub moved_root : (r : String) → p r ≡ r → update b a p (moved a b r) ≡ moved a b r
  moved_root r h = elim (Bool-cases (r == b)) [
    | inl self ↦ rw (self, apart) root_a
    | inr other ↦ rw (other, other) h
  ]

  pub climb_other :
      (d : ℕ) (z r : String) → climb p d z ≡ r → (r == b) ≡ false → climb (update b a p) d z ≡ r
  climb_other zero z r e other = e
  climb_other (suc d) z r e other = elim (Bool-cases (z == b)) [
    | inl self ↦
        let at : z ≡ b = (eq_iff z b).0 self in
        let ended : r ≡ b = sym e ∙ (ap (climb p (suc d)) at ∙ climb_root p (suc d) b root_b) in
        let hit = (eq_iff r b).1 ended in cc
    | inr off ↦ rw off (climb_other d (p z) r e other)
  ]

  root_a' : update b a p a ≡ a
  root_a' = rw apart root_a

  pub climb_self : (d : ℕ) (z : String) → climb p d z ≡ b → climb (update b a p) (suc d) z ≡ a
  climb_self zero z e = rw ((eq_iff z b).1 e) refl
  climb_self (suc d) z e = elim (Bool-cases (z == b)) [
    | inl self ↦ rw self (climb_root (update b a p) (suc d) a root_a')
    | inr off ↦ rw off (climb_self d (p z) e)
  ]
