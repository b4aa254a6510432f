-- ===== src/Connectivity/Connected.antt =====
-- Weak connectivity by the edges of a list.
use repository_quality_guard.Prelude.{
  String, List, ◌∷◌, ◌≡◌, refl, sym, ◌∙◌, ◌⊎◌, inl, inr, ap, subst,
}
use repository_quality_guard.Prelude.{Member, Member_cases}
use repository_quality_guard.Connectivity.{Edge}

-- An edge of the list has the two ends, in one order or the other.
pub data Linked (edges : List Edge) : String → String → Type 0 where
  forth :
      {x y : String} (e : Edge) → Member e edges → e.source ≡ x → e.target ≡ y → Linked edges x y
  back : {x y : String} (e : Edge) → Member e edges → e.source ≡ y → e.target ≡ x → Linked edges x y

pub data Connected (edges : List Edge) : String → String → Type 0 where
  same : {x y : String} → x ≡ y → Connected edges x y
  next : {x y z : String} → Connected edges x y → Linked edges y z → Connected edges x z

pub Linked-sym : {edges : List Edge} {x y : String} → Linked edges x y → Linked edges y x
Linked-sym (forth e m s t) = back e m s t
Linked-sym (back e m s t) = forth e m s t

pub Connected_trans :
    {edges : List Edge} {x y z : String}
    → Connected edges x y
    → Connected edges y z
    → Connected edges x z
Connected_trans {edges} {x} c (same e) = subst (Connected edges x) e c
Connected_trans c (next d l) = next (Connected_trans c d) l

pub Connected_of_Linked :
    {edges : List Edge} {x y : String} → Linked edges x y → Connected edges x y
Connected_of_Linked l = next (same refl) l

pub Connected_sym : {edges : List Edge} {x y : String} → Connected edges x y → Connected edges y x
Connected_sym (same e) = same (sym e)
Connected_sym (next c l) = Connected_trans (Connected_of_Linked (Linked-sym l)) (Connected_sym c)

module _ {edges more : List Edge} (sub : (e : Edge) → Member e edges → Member e more) where
  pub Linked-mono : {x y : String} → Linked edges x y → Linked more x y
  Linked-mono (forth e m s t) = forth e (sub e m) s t
  Linked-mono (back e m s t) = back e (sub e m) s t

  pub Connected_mono : {x y : String} → Connected edges x y → Connected more x y
  Connected_mono (same e) = same e
  Connected_mono (next c l) = next (Connected_mono c) (Linked-mono l)

abbrev pub Joins : Edge → String → String → Type 0
Joins e x y = (e.source ≡ x) × (e.target ≡ y)

-- The first edge links the two, in one order or the other, or the others do.
pub Linked-cases :
    {e : Edge} {edges : List Edge} {x y : String}
    → Linked (e ∷ edges) x y
    → (Joins e x y ⊎ Joins e y x) ⊎ Linked edges x y
Linked-cases (forth f m s t) = elim (Member_cases m) [
  | inl at ↦
      inl (inl (ap (λ (h : Edge). h.source) (sym at) ∙ s, ap (λ (h : Edge). h.target) (sym at) ∙ t))
  | inr old ↦ inr (forth f old s t)
]
Linked-cases (back f m s t) = elim (Member_cases m) [
  | inl at ↦
      inl (inr (ap (λ (h : Edge). h.source) (sym at) ∙ s, ap (λ (h : Edge). h.target) (sym at) ∙ t))
  | inr old ↦ inr (back f old s t)
]
