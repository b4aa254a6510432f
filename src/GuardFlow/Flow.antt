-- ===== src/GuardFlow/Flow.antt =====
-- The transfer of the state and the join_presence keep it true.
use repository_quality_guard.Prelude.{
  String, ℕ, ◌≡◌, refl, Bool, true, false, List, [], ◌∷◌, Option, none, some, Bool-cases, inl, inr,
  is_some,
}
use repository_quality_guard.GuardFlow.{
  Expr, Exprs, literal_membership, unknown_effect, unknown_all,
}
use repository_quality_guard.GuardFlow.Analysis.{
  Presence, same_key, same_line, get, drop, assign_key, intersect, join_presence, assume,
  branch_state, transfer,
}
use repository_quality_guard.GuardFlow.Semantics.{Keys, Decides, IsQuiet, unknown_all-IsQuiet}
use repository_quality_guard.GuardFlow.Guards.{Agrees, literal_membership-Agrees}
use repository_quality_guard.GuardFlow.Execution.{Ending, falls, leaves, Grows}
use repository_quality_guard.GuardFlow.Observed.{Holds, Holds-Grows, Holds-get}

Holds-drop :
    (key : String × String) (state : Presence) (σ : Keys) → Holds state σ → Holds (drop key state) σ
unfolding drop
Holds-drop key [] σ h = tt
Holds-drop key (((r, k), line) ∷ state) σ (h, hs) = elim (Bool-cases (same_key (r, k) key)) [
  | inl hit ↦ rw hit (Holds-drop key state σ hs)
  | inr off ↦ rw off (h, Holds-drop key state σ hs)
]

Holds-assign_key :
    (r k : String) (line : ℕ) (state : Presence) (σ : Keys)
    → σ r k ≡ true
    → Holds state σ
    → Holds (assign_key (r, k) line state) σ
unfolding assign_key
Holds-assign_key r k line state σ h hs = (h, Holds-drop (r, k) state σ hs)

Holds-assume :
    (guard : Option (String × String × Bool)) (line : ℕ) (taken : Bool) (state : Presence)
    (σ : Keys)
    → Holds state σ
    → Agrees guard σ taken
    → Holds (assume guard line taken state) σ
unfolding assume
Holds-assume none line taken state σ hs agrees = hs
Holds-assume (some (r, k, true)) line true state σ hs agrees =
    Holds-assign_key r k line state σ agrees hs
Holds-assume (some (r, k, true)) line false state σ hs agrees = Holds-drop (r, k) state σ hs
Holds-assume (some (r, k, false)) line true state σ hs agrees = Holds-drop (r, k) state σ hs
Holds-assume (some (r, k, false)) line false state σ hs agrees =
    Holds-assign_key r k line state σ agrees hs

pub Holds-branch_state :
    (receivers : List String) (test : Expr) (line : ℕ) (taken : Bool) (state : Presence)
    (σ σ' : Keys)
    → Holds state σ
    → (unknown_effect receivers test ≡ false → Grows σ σ')
    → Decides receivers test σ' taken
    → Holds (branch_state receivers test line taken state) σ'
unfolding branch_state
Holds-branch_state receivers test line taken state σ σ' hs grows agrees =
    elim (Bool-cases (unknown_effect receivers test)) [
      | inl unknown ↦ rw unknown tt
      | inr known ↦ rw known (
          Holds-assume (literal_membership receivers test) line taken state σ'
            (Holds-Grows state hs (grows known))
            (literal_membership-Agrees receivers test σ' taken agrees))
    ]

pub Holds-transfer :
    (receivers : List String) (node : Exprs) (escaping : Bool) (state : Presence) (σ σ' : Keys)
    → Holds state σ
    → (IsQuiet receivers node → Grows σ σ')
    → Holds (transfer receivers node escaping state) σ'
unfolding transfer
Holds-transfer receivers node escaping state σ σ' hs grows =
    elim (Bool-cases (unknown_all receivers node)) [
      | inl unknown ↦ rw unknown tt
      | inr known ↦ elim (Bool-cases escaping) [
        | inl out ↦ rw (known, out) tt
        | inr kept ↦
            rw (known, kept)
              (Holds-Grows state hs (grows (unknown_all-IsQuiet receivers node known)))
      ]
    ]

Holds-intersect_left : (a b : Presence) (σ : Keys) → Holds a σ → Holds (intersect a b) σ
unfolding intersect
Holds-intersect_left [] b σ h = tt
Holds-intersect_left ((k, line) ∷ a) b σ (h, hs) = elim (Bool-cases (same_line (get k b) line)) [
  | inl hit ↦ rw hit (h, Holds-intersect_left a b σ hs)
  | inr off ↦ rw off (Holds-intersect_left a b σ hs)
]

some_of_same_line : (o : Option ℕ) (line : ℕ) → same_line o line ≡ true → is_some o ≡ true
some_of_same_line none line h = h
some_of_same_line (some l) line h = refl

Holds-intersect_right : (a b : Presence) (σ : Keys) → Holds b σ → Holds (intersect a b) σ
unfolding intersect
Holds-intersect_right [] b σ h = tt
Holds-intersect_right (((r, k), line) ∷ a) b σ hs =
    elim (Bool-cases (same_line (get (r, k) b) line)) [
      | inl hit ↦
          let found = some_of_same_line (get (r, k) b) line hit in
          rw hit (Holds-get b σ r k hs found, Holds-intersect_right a b σ hs)
      | inr off ↦ rw off (Holds-intersect_right a b σ hs)
    ]

-- A state is true where the run goes on, and `None` says that it does not.
abbrev pub HoldsAt : Option Presence → Ending → Type 0
HoldsAt state leaves = Unit
HoldsAt none (falls σ) = ⊥
HoldsAt (some state) (falls σ) = Holds state σ

pub HoldsAt-join_left :
    (a b : Option Presence) (out : Ending) → HoldsAt a out → HoldsAt (join_presence a b) out
unfolding join_presence
HoldsAt-join_left a b leaves h = tt
HoldsAt-join_left none b (falls σ) h = elim h [ ]
HoldsAt-join_left (some a) none (falls σ) h = h
HoldsAt-join_left (some a) (some b) (falls σ) h = Holds-intersect_left a b σ h

pub HoldsAt-join_right :
    (a b : Option Presence) (out : Ending) → HoldsAt b out → HoldsAt (join_presence a b) out
unfolding join_presence
HoldsAt-join_right a b leaves h = tt
HoldsAt-join_right none b (falls σ) h = h
HoldsAt-join_right (some a) none (falls σ) h = elim h [ ]
HoldsAt-join_right (some a) (some b) (falls σ) h = Holds-intersect_right a b σ h
