-- ===== src/Connectivity/Recorded.antt =====
-- The invariant of the forest holds on behind an edge that joins two roots.
use repository_quality_guard.Prelude.{
  String, ℕ, suc, ◌≤◌, ◌≡◌, refl, sym, ap, ◌∙◌, subst, false, List, ◌∷◌, ◌==◌, eq_iff, eq_refl,
  arith, Bool-cases, ◌⊎◌, inl, inr, count_true, Member, here, there,
}
use repository_quality_guard.Connectivity.{Parents, Edge, Forest, update, attach}
use repository_quality_guard.Connectivity.Climb.{climb}
use repository_quality_guard.Connectivity.Connected.{
  Linked, forth, back, Connected, Connected_mono, Connected_trans, Connected_sym, Linked-cases,
  Connected_of_Linked,
}
use repository_quality_guard.Connectivity.Attach.{moved, moved_root, climb_other, climb_self}
use repository_quality_guard.Connectivity.Invariant.{end_of, Inv}
use repository_quality_guard.Connectivity.Unite.{end-attach, count-attach, count-attach_other}

module _ (symbols : List String) (done : List Edge) (s : Forest) (inv : Inv symbols done s)
    (a b : String) (in_a : Member a symbols) (in_b : Member b symbols) (root_a : s.parent a ≡ a)
    (root_b : s.parent b ≡ b) (apart : (a == b) ≡ false) (heavy : s.sizes b ≤ s.sizes a)
    (edge : Edge) (in_source : Member edge.source symbols) (in_target : Member edge.target symbols)
    (joins : ((end_of symbols s.parent edge.source ≡ a) × (end_of symbols s.parent edge.target ≡ b))
      ⊎ ((end_of symbols s.parent edge.source ≡ b)
          × (end_of symbols s.parent edge.target ≡ a))) where
  abbrev end : String → String
  end z = end_of symbols s.parent z

  abbrev q : Parents
  q = update b a s.parent

  new_end : (z : String) → Member z symbols → end_of symbols q z ≡ moved a b (end z)
  new_end = end-attach symbols done s inv a b in_a in_b root_a root_b apart

  depth' :
      (z : String)
      → Member z symbols
      → (d : ℕ) × ((climb q d z ≡ end_of symbols q z)
          × (suc d ≤ (attach a b s).sizes (end_of symbols q z)))
  depth' z m =
      let (d, (c, lt)) = inv.depth z m in
      elim (Bool-cases (end z == b)) [
        | inl self ↦
            let at : end z ≡ b = (eq_iff (end z) b).0 self in
            let e : end_of symbols q z ≡ a = rw self at (new_end z m) in
            let lt' : suc d ≤ s.sizes b = rw at at lt in
            (
              suc d,
              (
                climb_self s.parent a b root_a root_b apart d z (c ∙ at) ∙ sym e,
                rw (e, eq_refl a) (omega (arith, lt', heavy)),
              ),
            )
        | inr other ↦
            let e : end_of symbols q z ≡ end z = rw other at (new_end z m) in
            (
              d,
              (
                climb_other s.parent a b root_a root_b apart d z (end z) c other ∙ sym e,
                rw e (ground (arith, lt, eq_iff (end z) a)),
              ),
            )
      ]

  sized' :
      (r : String)
      → Member r symbols
      → q r ≡ r
      → (attach a b s).sizes r ≡ count_true (λ z. end_of symbols q z == r) symbols
  sized' r m k = elim (Bool-cases (b == r)) [
    | inl self ↦
        let at : b ≡ r = (eq_iff b r).0 self in ground (arith, k, at, apart, eq_iff a b, eq_refl b)
    | inr off ↦
        let k' : s.parent r ≡ r = ground (arith, k, eq_iff r b, eq_iff b r) in
        elim (Bool-cases (a == r)) [
          | inl self ↦
              let at : r ≡ a = sym ((eq_iff a r).0 self) in
              rw (at, eq_refl a)
                (omega (
                  arith,
                  inv.sized a in_a root_a,
                  inv.sized b in_b root_b,
                  count-attach symbols done s inv a b in_a in_b root_a root_b apart,
                ))
          | inr off' ↦
              let grown : (attach a b s).sizes r ≡ s.sizes r =
                ground (arith, eq_iff r a, eq_iff a r) in
              grown
              ∙ (inv.sized r m k'
                  ∙ sym (
                      count-attach_other symbols done s inv a b in_a in_b root_a root_b apart r off'
                        off))
        ]
  ]

  weaken : {x y : String} → Connected done x y → Connected (edge ∷ done) x y
  weaken c = Connected_mono (λ e m. there m) c

  bridge :
      (x y : String)
      → Member x symbols
      → Member y symbols
      → end x ≡ a
      → end y ≡ b
      → Connected (edge ∷ done) x y
  bridge x y m n at_a at_b = elim joins [
    | inl (e, e') ↦ Connected_trans (weaken (inv.sound x edge.source m in_source (at_a ∙ sym e))) (
        Connected_trans (Connected_of_Linked (forth edge here refl refl))
          (weaken (inv.sound edge.target y in_target n (e' ∙ sym at_b))))
    | inr (e, e') ↦ Connected_trans (weaken (inv.sound x edge.target m in_target (at_a ∙ sym e'))) (
        Connected_trans (Connected_of_Linked (back edge here refl refl))
          (weaken (inv.sound edge.source y in_source n (e ∙ sym at_b))))
  ]

  sound' :
      (x y : String)
      → Member x symbols
      → Member y symbols
      → end_of symbols q x ≡ end_of symbols q y
      → Connected (edge ∷ done) x y
  sound' x y m n e =
      let e' : moved a b (end x) ≡ moved a b (end y) = sym (new_end x m) ∙ (e ∙ new_end y n) in
      elim (Bool-cases (end x == b)) [
        | inl left ↦
            let at : end x ≡ b = (eq_iff (end x) b).0 left in
            elim (Bool-cases (end y == b)) [
              | inl right ↦ weaken (inv.sound x y m n (at ∙ sym ((eq_iff (end y) b).0 right)))
              | inr off ↦ Connected_sym (bridge y x n m (sym (rw (left, off) at e')) at)
            ]
        | inr off ↦ elim (Bool-cases (end y == b)) [
          | inl right ↦ bridge x y m n (rw (off, right) at e') ((eq_iff (end y) b).0 right)
          | inr off' ↦ weaken (inv.sound x y m n (rw (off, off') at e'))
        ]
      ]

  ends_meet : end_of symbols q edge.source ≡ end_of symbols q edge.target
  ends_meet =
      new_end edge.source in_source
      ∙ (elim joins [
        | inl (e, e') ↦ rw (e, e', apart, eq_refl b) refl
        | inr (e, e') ↦ rw (e, e', apart, eq_refl b) refl
      ]
          ∙ sym (new_end edge.target in_target))

  complete' :
      (x y : String)
      → Linked (edge ∷ done) x y
      → Member x symbols × Member y symbols × (end_of symbols q x ≡ end_of symbols q y)
  complete' x y l = elim (Linked-cases l) [
    | inl (inl (at, to)) ↦ (
      subst (λ z. Member z symbols) at in_source,
      subst (λ z. Member z symbols) to in_target,
      ap (end_of symbols q) (sym at) ∙ (ends_meet ∙ ap (end_of symbols q) to),
    )
    | inl (inr (at, to)) ↦ (
      subst (λ z. Member z symbols) to in_target,
      subst (λ z. Member z symbols) at in_source,
      ap (end_of symbols q) (sym to) ∙ (sym ends_meet ∙ ap (end_of symbols q) at),
    )
    | inr old ↦
        let (m, n, e) = inv.complete x y old in
        (m, n, new_end x m ∙ (ap (moved a b) e ∙ sym (new_end y n)))
  ]

  pub Inv-attach : Inv symbols (edge ∷ done) (attach a b s)
  Inv-attach = record {
    depth = depth';
    rooted = λ z m.
        let kept = moved_root s.parent a b root_a root_b apart (end z) (inv.rooted z m) in
        ap q (new_end z m) ∙ (kept ∙ sym (new_end z m));
    inside = λ z m. rw (new_end z m) (elim (Bool-cases (end z == b)) [
      | inl self ↦ rw self in_a
      | inr other ↦ rw other (inv.inside z m)
    ]);
    sized = sized';
    sound = sound';
    complete = complete';
  }

-- An edge within one component changes nothing.
pub Inv-joined :
    (symbols : List String) (done : List Edge) (s : Forest) (edge : Edge)
    → Inv symbols done s
    → Member edge.source symbols
    → Member edge.target symbols
    → end_of symbols s.parent edge.source ≡ end_of symbols s.parent edge.target
    → Inv symbols (edge ∷ done) s
Inv-joined symbols done s edge inv in_source in_target meet = record {
  depth = inv.depth;
  rooted = inv.rooted;
  inside = inv.inside;
  sized = inv.sized;
  sound = λ x y m n e. Connected_mono (λ f k. there k) (inv.sound x y m n e);
  complete = λ x y l. elim (Linked-cases l) [
    | inl (inl (at, to)) ↦ (
      subst (λ z. Member z symbols) at in_source,
      subst (λ z. Member z symbols) to in_target,
      ap (end_of symbols s.parent) (sym at) ∙ (meet ∙ ap (end_of symbols s.parent) to),
    )
    | inl (inr (at, to)) ↦ (
      subst (λ z. Member z symbols) to in_target,
      subst (λ z. Member z symbols) at in_source,
      ap (end_of symbols s.parent) (sym to) ∙ (sym meet ∙ ap (end_of symbols s.parent) at),
    )
    | inr old ↦ inv.complete x y old
  ];
}
