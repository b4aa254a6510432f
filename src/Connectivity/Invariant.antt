-- ===== src/Connectivity/Invariant.antt =====
-- What a forest has recorded once the edges of a list have been united.
use repository_quality_guard.Prelude.{
  String, ℕ, suc, ◌≤◌, ◌≡◌, refl, sym, ap, ◌∙◌, List, ◌==◌, length, count_true, count_true-ext,
  Member,
}
use repository_quality_guard.Connectivity.{Parents, Edge, Forest}
use repository_quality_guard.Connectivity.Climb.{climb, climb_root, Keeps}
use repository_quality_guard.Connectivity.Connected.{Linked, Connected, same, next}

module _ (symbols : List String) where
  -- The representative of a callable: where its chain of parents ends.
  abbrev pub end_of : Parents → String → String
  end_of p z = climb p (length symbols) z

  pub record Inv (done : List Edge) (s : Forest) : Type 0 where
    pub depth :
        (z : String)
        → Member z symbols
        → (d : ℕ) × ((climb s.parent d z ≡ end_of s.parent z)
            × (suc d ≤ s.sizes (end_of s.parent z)))
    pub rooted : (z : String) → Member z symbols → s.parent (end_of s.parent z) ≡ end_of s.parent z
    pub inside : (z : String) → Member z symbols → Member (end_of s.parent z) symbols
    pub sized :
        (r : String)
        → Member r symbols
        → s.parent r ≡ r
        → s.sizes r ≡ count_true (λ z. end_of s.parent z == r) symbols
    pub sound :
        (x y : String)
        → Member x symbols
        → Member y symbols
        → end_of s.parent x ≡ end_of s.parent y
        → Connected done x y
    pub complete :
        (x y : String)
        → Linked done x y
        → Member x symbols × Member y symbols × (end_of s.parent x ≡ end_of s.parent y)

  -- A callable with the same end as another is connected to it, and the other way round.
  pub same_end_of_Connected :
      (done : List Edge) (s : Forest) (inv : Inv done s) {x y : String}
      → Connected done x y
      → end_of s.parent x ≡ end_of s.parent y
  same_end_of_Connected done s inv (same e) = ap (end_of s.parent) e
  same_end_of_Connected done s inv (next {y} {z} c l) =
      same_end_of_Connected done s inv c ∙ (inv.complete y z l).2

  -- Shorter chains with the same ends serve as well.
  pub Inv-Keeps :
      (done : List Edge) (s : Forest) (q : Parents)
      → Inv done s
      → Keeps s.parent q
      → Inv done (record s { parent = q })
  Inv-Keeps done s q inv keeps =
      let kept : (z : String)
          → Member z symbols
          → (end_of q z ≡ end_of s.parent z) × (q (end_of s.parent z) ≡ end_of s.parent z) =
        λ z m. keeps z (end_of s.parent z) (length symbols) refl (inv.rooted z m) in
      record {
        depth = λ z m.
            let (d, (c, lt)) = inv.depth z m in
            let e = (kept z m).0 in
            (d, ((keeps z (end_of s.parent z) d c (inv.rooted z m)).0 ∙ sym e, rw e lt));
        rooted = λ z m. let (e, k) = kept z m in ap q e ∙ (k ∙ sym e);
        inside = λ z m. rw (kept z m).0 (inv.inside z m);
        sized = λ r m k.
            let e : r ≡ end_of s.parent r =
              sym (climb_root q (length symbols) r k) ∙ (kept r m).0 in
            let k' : s.parent r ≡ r = ap s.parent e ∙ (inv.rooted r m ∙ sym e) in
            inv.sized r m k'
            ∙ sym (
                count_true-ext (λ z. end_of q z == r) (λ z. end_of s.parent z == r) symbols
                  (λ z n. ap (λ t. t == r) (kept z n).0));
        sound = λ x y m n e. inv.sound x y m n (sym (kept x m).0 ∙ (e ∙ (kept y n).0));
        complete = λ x y l.
            let (m, n, e) = inv.complete x y l in (m, n, (kept x m).0 ∙ (e ∙ sym (kept y n).0));
      }
