-- ===== src/GuardFlow/Guards.antt =====
-- What a guard of `_literal_membership` says about the keys when the test has come out.
use repository_quality_guard.Prelude.{
  String, ◌≡◌, Bool, true, false, not, List, [], ◌∷◌, Option, none, some, Bool-cases, inl, inr,
  contains, if◌then◌else◌,
}
use repository_quality_guard.GuardFlow.{
  Operator, is_in, not_in, other_operator, Expr, name, text, constant, subscript, attribute,
  negation, compare, effect, other, Exprs, nil, cons, membership, negated, literal_membership,
}
use repository_quality_guard.GuardFlow.Semantics.{Keys, Contains, Decides}

-- A guard as `_literal_membership` gives it is right about the keys.
abbrev pub Agrees : Option (String × String × Bool) → Keys → Bool → Type 0
Agrees none σ taken = Unit
Agrees (some (receiver, key, positive)) σ taken =
    σ receiver key ≡ (if taken then positive else not positive)

Agrees-negated :
    (guard : Option (String × String × Bool)) (σ : Keys) (taken : Bool)
    → Agrees guard σ (not taken)
    → Agrees (negated guard) σ taken
Agrees-negated none σ taken h = tt
Agrees-negated (some (r, k, true)) σ true h = h
Agrees-negated (some (r, k, true)) σ false h = h
Agrees-negated (some (r, k, false)) σ true h = h
Agrees-negated (some (r, k, false)) σ false h = h

membership-Agrees :
    (receivers : List String) (key : String) (ops : List Operator) (comparators : Exprs) (σ : Keys)
    (taken : Bool)
    → Contains receivers key ops comparators σ taken
    → Agrees (membership receivers key ops comparators) σ taken
unfolding membership
membership-Agrees receivers key [] cs σ taken h = tt
membership-Agrees receivers key (other_operator ∷ os) cs σ taken h = tt
membership-Agrees receivers key (is_in ∷ o ∷ os) cs σ taken h = tt
membership-Agrees receivers key (is_in ∷ []) nil σ taken h = tt
membership-Agrees receivers key (is_in ∷ []) (cons (text t) cs) σ taken h = tt
membership-Agrees receivers key (is_in ∷ []) (cons constant cs) σ taken h = tt
membership-Agrees receivers key (is_in ∷ []) (cons (subscript v i c l col) cs) σ taken h = tt
membership-Agrees receivers key (is_in ∷ []) (cons (attribute v c) cs) σ taken h = tt
membership-Agrees receivers key (is_in ∷ []) (cons (negation e) cs) σ taken h = tt
membership-Agrees receivers key (is_in ∷ []) (cons (compare l os ds) cs) σ taken h = tt
membership-Agrees receivers key (is_in ∷ []) (cons (effect es) cs) σ taken h = tt
membership-Agrees receivers key (is_in ∷ []) (cons (other es) cs) σ taken h = tt
membership-Agrees receivers key (is_in ∷ []) (cons (name id c) (cons e es)) σ taken h = tt
membership-Agrees receivers key (is_in ∷ []) (cons (name id c) nil) σ true h =
    elim (Bool-cases (contains id receivers)) [ inl m ↦ rw m (h m) | inr off ↦ rw off tt ]
membership-Agrees receivers key (is_in ∷ []) (cons (name id c) nil) σ false h =
    elim (Bool-cases (contains id receivers)) [ inl m ↦ rw m (h m) | inr off ↦ rw off tt ]
membership-Agrees receivers key (not_in ∷ o ∷ os) cs σ taken h = tt
membership-Agrees receivers key (not_in ∷ []) nil σ taken h = tt
membership-Agrees receivers key (not_in ∷ []) (cons (text t) cs) σ taken h = tt
membership-Agrees receivers key (not_in ∷ []) (cons constant cs) σ taken h = tt
membership-Agrees receivers key (not_in ∷ []) (cons (subscript v i c l col) cs) σ taken h = tt
membership-Agrees receivers key (not_in ∷ []) (cons (attribute v c) cs) σ taken h = tt
membership-Agrees receivers key (not_in ∷ []) (cons (negation e) cs) σ taken h = tt
membership-Agrees receivers key (not_in ∷ []) (cons (compare l os ds) cs) σ taken h = tt
membership-Agrees receivers key (not_in ∷ []) (cons (effect es) cs) σ taken h = tt
membership-Agrees receivers key (not_in ∷ []) (cons (other es) cs) σ taken h = tt
membership-Agrees receivers key (not_in ∷ []) (cons (name id c) (cons e es)) σ taken h = tt
membership-Agrees receivers key (not_in ∷ []) (cons (name id c) nil) σ true h =
    elim (Bool-cases (contains id receivers)) [ inl m ↦ rw m (h m) | inr off ↦ rw off tt ]
membership-Agrees receivers key (not_in ∷ []) (cons (name id c) nil) σ false h =
    elim (Bool-cases (contains id receivers)) [ inl m ↦ rw m (h m) | inr off ↦ rw off tt ]

pub literal_membership-Agrees :
    (receivers : List String) (test : Expr) (σ : Keys) (taken : Bool)
    → Decides receivers test σ taken
    → Agrees (literal_membership receivers test) σ taken
unfolding literal_membership
literal_membership-Agrees receivers (negation e) σ taken h =
    Agrees-negated (literal_membership receivers e) σ taken
      (literal_membership-Agrees receivers e σ (not taken) h)
literal_membership-Agrees receivers (compare (text key) ops comparators) σ taken h =
    membership-Agrees receivers key ops comparators σ taken h
literal_membership-Agrees receivers (compare (name id c) ops comparators) σ taken h = tt
literal_membership-Agrees receivers (compare constant ops comparators) σ taken h = tt
literal_membership-Agrees receivers (compare (subscript v i c l col) ops comparators) σ taken h = tt
literal_membership-Agrees receivers (compare (attribute v c) ops comparators) σ taken h = tt
literal_membership-Agrees receivers (compare (negation e) ops comparators) σ taken h = tt
literal_membership-Agrees receivers (compare (compare l os cs) ops comparators) σ taken h = tt
literal_membership-Agrees receivers (compare (effect es) ops comparators) σ taken h = tt
literal_membership-Agrees receivers (compare (other es) ops comparators) σ taken h = tt
literal_membership-Agrees receivers (name id c) σ taken h = tt
literal_membership-Agrees receivers (text t) σ taken h = tt
literal_membership-Agrees receivers constant σ taken h = tt
literal_membership-Agrees receivers (subscript v i c l col) σ taken h = tt
literal_membership-Agrees receivers (attribute v c) σ taken h = tt
literal_membership-Agrees receivers (effect es) σ taken h = tt
literal_membership-Agrees receivers (other es) σ taken h = tt
