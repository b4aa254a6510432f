-- ===== src/Connectivity/Steps.antt =====
-- Uniting edges, one or all, succeeds and records them.
use repository_quality_guard.Prelude.{
  String, ◌≡◌, refl, false, List, [], ◌∷◌, some, ◌==◌, eq_iff, arith, Bool-cases, inl, inr, length,
  ltb, Member, here, there,
}
use repository_quality_guard.Connectivity.{Edge, Forest, link, unite, unite_all}
use repository_quality_guard.Connectivity.Climb.{root-eq-climb}
use repository_quality_guard.Connectivity.Invariant.{end_of, Inv, Inv-Keeps}
use repository_quality_guard.Connectivity.Recorded.{Inv-attach, Inv-joined}

-- The edges in the order in which they have been united, the last one first.
abbrev pub prepend : List Edge → List Edge → List Edge
prepend [] done = done
prepend (e ∷ es) done = prepend es (e ∷ done)

module _ (symbols : List String) where
  abbrev pub IsInside : Edge → Type 0
  IsInside e = Member e.source symbols × Member e.target symbols

  Inv-link :
      (done : List Edge) (s : Forest) (e : Edge)
      → Inv symbols done s
      → IsInside e
      → Inv symbols
          (e ∷ done)
          (link (end_of symbols s.parent e.source) (end_of symbols s.parent e.target) s)
  unfolding link
  Inv-link done s e inv (m, n) =
      let a = end_of symbols s.parent e.source in
      let b = end_of symbols s.parent e.target in
      let in_a = inv.inside e.source m in
      let in_b = inv.inside e.target n in
      let root_a = inv.rooted e.source m in
      let root_b = inv.rooted e.target n in
      elim (Bool-cases (a == b)) [
        | inl joined ↦ rw joined (Inv-joined symbols done s e inv m n ((eq_iff a b).0 joined))
        | inr apart ↦ elim (Bool-cases (ltb (s.sizes a) (s.sizes b))) [
          | inl light ↦
              let apart' : (b == a) ≡ false = ground (arith, apart, eq_iff a b, eq_iff b a) in
              rw (apart, light)
                (Inv-attach symbols done s inv b a in_b in_a root_b root_a apart'
                  (ground (arith, light)) e m n (inr (refl, refl)))
          | inr heavy ↦
              rw (apart, heavy)
                (Inv-attach symbols done s inv a b in_a in_b root_a root_b apart
                  (ground (arith, heavy)) e m n (inl (refl, refl)))
        ]
      ]

  unite-Inv :
      (done : List Edge) (s : Forest) (e : Edge)
      → Inv symbols done s
      → IsInside e
      → (t : Forest) × ((unite (length symbols) e s ≡ some t) × Inv symbols (e ∷ done) t)
  unfolding unite
  unite-Inv done s e inv (m, n) =
      let (p, (found, keeps)) =
        root-eq-climb (length symbols) s.parent e.source (inv.rooted e.source m) in
      let inv' = Inv-Keeps symbols done s p inv keeps in
      let (q, (found', keeps')) =
        root-eq-climb (length symbols) p e.target (inv'.rooted e.target n) in
      let inv'' = Inv-Keeps symbols done (record s { parent = p }) q inv' keeps' in
      let at =
        (keeps e.source (end_of symbols s.parent e.source) (length symbols) refl
          (inv.rooted e.source m)) in
      let at' = (keeps' e.source (end_of symbols s.parent e.source) (length symbols) at.0 at.1) in
      let to' =
        (keeps' e.target (end_of symbols p e.target) (length symbols) refl
          (inv'.rooted e.target n)) in
      let linked = Inv-link done (record s { parent = q }) e inv'' (m, n) in
      (
        link (end_of symbols s.parent e.source) (end_of symbols p e.target)
            (record s { parent = q }),
        (rw (found, found') refl, rw (at'.0, to'.0) at linked),
      )

  pub unite_all-Inv :
      (edges done : List Edge) (s : Forest)
      → Inv symbols done s
      → ((e : Edge) → Member e edges → IsInside e)
      → (t : Forest) × ((unite_all (length symbols) edges s ≡ some t)
          × Inv symbols (prepend edges done) t)
  unfolding unite_all
  unite_all-Inv [] done s inv inside = (s, (refl, inv))
  unite_all-Inv (e ∷ es) done s inv inside =
      let (t, (united, inv')) = unite-Inv done s e inv (inside e here) in
      let (u, (rest, inv'')) = unite_all-Inv es (e ∷ done) t inv' (λ f k. inside f (there k)) in
      (u, (rw united rest, inv''))
