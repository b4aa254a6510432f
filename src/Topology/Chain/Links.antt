-- ===== src/Topology/Chain/Links.antt =====
-- The links between helpers that `_maximal_chain` follows.
use repository_quality_guard.Prelude.{
  String, suc, Bool, true, false, ◌&&◌, ◌≡◌, ◌≤◌, refl, ap, ◌∙◌, List, [], ◌∷◌, ◌++◌, Option, none,
  some, ◌==◌, eq_iff, select, map, contains, distinct, length, find, is_some, all, remove,
  find-remove_other, if◌then◌else◌, Bool-cases, inl, inr, arith, any-append, some_inj, eqb_comm,
  sym,
}
use repository_quality_guard.Prelude.Options.{◌>>=◌, Option-cases, >>=-eq-some}
use repository_quality_guard.Topology.{RepositoryTopology, UsageEdge, direct_call, outgoing}
use repository_quality_guard.Topology.Chain.{
  Eligible, is_certain, is_owned, sole, sole_caller, next_ids, last_of, is_caller, chain_step,
}

-- The helper behind a helper: the only one of its owner that it calls, which no other calls.
unfoldable pub next_helper : RepositoryTopology → Eligible → String → Option String
next_helper topology eligible id = find id eligible >>= λ entry.
    sole (next_ids topology eligible id entry.0.owner_id) >>= λ next.
    if is_caller (sole_caller topology next) id then some next else none

-- Each helper of a list, and the one in front of it, is linked to the next.
abbrev pub IsLinked : RepositoryTopology → Eligible → String → List String → Type 0
IsLinked topology eligible x [] = Unit
IsLinked topology eligible x (y ∷ ys) =
    (next_helper topology eligible x ≡ some y) × IsLinked topology eligible y ys

-- No text stands twice.
abbrev pub IsDistinct : List String → Type 0
IsDistinct [] = Unit
IsDistinct (x ∷ xs) = (contains x xs ≡ false) × IsDistinct xs

steps_agree :
    (topology : RepositoryTopology) (chain : List String) (id : String) (o : Option String)
    → elim o [
      | none ↦ some none
      | some next ↦
          if contains next chain
          then some none
          else if is_caller (sole_caller topology next) id
          then some (some next)
          else some none
    ]
      ≡ some (
          (o >>= λ next. if is_caller (sole_caller topology next) id then some next else none)
          >>= λ next. if contains next chain then none else some next)
steps_agree topology chain id none = refl
steps_agree topology chain id (some next) = ground arith

-- A round appends the helper behind the last one unless it stands in the chain.
pub chain_step-next_helper :
    (topology : RepositoryTopology) (eligible : Eligible) (chain : List String) (id : String)
    → is_some (find id eligible) ≡ true
    → chain_step topology eligible chain id
      ≡ some (
          next_helper topology eligible id >>= λ next.
          if contains next chain then none else some next)
unfolding chain_step next_helper
chain_step-next_helper topology eligible chain id h = elim (Option-cases (find id eligible)) [
  | inl gone ↦ let off : is_some (find id eligible) ≡ false = rw gone refl in cc
  | inr (entry, found) ↦
      let next = sole (next_ids topology eligible id entry.0.owner_id) in
      rw found (steps_agree topology chain id next)
]

is_caller-eq : (o : Option String) (t : String) → is_caller o t ≡ true → o ≡ some t
is_caller-eq none t h = cc
is_caller-eq (some s) t h = ap some ((eq_iff s t).0 h)

keys_owned :
    (eligible : Eligible) (owner : String) (edges : List UsageEdge)
    → all
        (λ id. is_some (find id eligible))
        (map
          (λ e. e.target_id)
          (select (λ e. is_certain e && is_owned eligible owner e.target_id) edges))
      ≡ true
keys_owned eligible owner [] = refl
keys_owned eligible owner (e ∷ es) =
    let rest = keys_owned eligible owner es in
    elim (Option-cases (find e.target_id eligible)) [
      | inl gone ↦
          let off : is_owned eligible owner e.target_id ≡ false = rw (is_owned, gone) refl in
          ground (arith, rest, off)
      | inr (entry, found) ↦
          let on : is_some (find e.target_id eligible) ≡ true = rw found refl in
          ground (arith, rest, on)
    ]

all-distinct : (p : String → Bool) (ss : List String) → all p ss ≡ true → all p (distinct ss) ≡ true
unfolding distinct
all-distinct p [] h = refl
all-distinct p (s ∷ ss) h = ground (arith, all-distinct p ss)

sole-all :
    (p : String → Bool) (ss : List String) (x : String)
    → all p ss ≡ true
    → sole ss ≡ some x
    → p x ≡ true
sole-all p [] x h e = cc
sole-all p (s ∷ []) x h e = let same : s ≡ x = cc in ground (arith, h, ap p same)
sole-all p (s ∷ t ∷ ss) x h e = cc

-- A next_helper leads from a helper to a helper that it alone calls.
pub next_helper-caller :
    (topology : RepositoryTopology) (eligible : Eligible) (x y : String)
    → next_helper topology eligible x ≡ some y
    → (sole_caller topology y ≡ some x)
      × (is_some (find x eligible) ≡ true)
      × (is_some (find y eligible) ≡ true)
unfolding next_helper next_ids
next_helper-caller topology eligible x y h =
    let (entry, (found, more)) = >>=-eq-some (find x eligible) _ y h in
    let ids = next_ids topology eligible x entry.0.owner_id in
    let (next, (one, tested)) = >>=-eq-some (sole ids) _ y more in
    let edges = outgoing topology x (direct_call ∷ []) in
    let owned = keys_owned eligible entry.0.owner_id edges in
    let p : String → Bool = λ id. is_some (find id eligible) in
    let known = sole-all p ids next (all-distinct p _ owned) one in
    elim (Bool-cases (is_caller (sole_caller topology next) x)) [
      | inl called ↦
          let passed : some next ≡ some y = rw called at tested in
          let same : next ≡ y = some_inj passed in
          (
            rw (sym same) (is_caller-eq (sole_caller topology next) x called),
            rw found refl,
            rw (sym same) known,
          )
      | inr apart ↦ let none_left : none ≡ some y = rw apart at tested in cc
    ]

pub IsLinked-append :
    (topology : RepositoryTopology) (eligible : Eligible) (x : String) (xs : List String)
    (y : String)
    → IsLinked topology eligible x xs
    → next_helper topology eligible (last_of x xs) ≡ some y
    → IsLinked topology eligible x (xs ++ y ∷ [])
IsLinked-append topology eligible x [] y h l = (l, tt)
IsLinked-append topology eligible x (z ∷ xs) y h l =
    (h.0, IsLinked-append topology eligible z xs y h.1 l)

pub last_of-append : (x : String) (xs : List String) (y : String) → last_of x (xs ++ y ∷ []) ≡ y
last_of-append x [] y = refl
last_of-append x (z ∷ xs) y = last_of-append z xs y

pub IsDistinct-append :
    (xs : List String) (y : String)
    → IsDistinct xs
    → contains y xs ≡ false
    → IsDistinct (xs ++ y ∷ [])
IsDistinct-append [] y h out = (refl, tt)
IsDistinct-append (x ∷ xs) y h out =
    let more = any-append (λ t. t == x) xs (y ∷ []) in
    let away : (y == x) ≡ false = eqb_comm x y (ground (arith, out)) in
    (more ∙ ground (arith, h.0, away), IsDistinct-append xs y h.1 (ground (arith, out)))

length-remove-le : (x : String) (d : Eligible) → length (remove x d) ≤ length d
length-remove-le x [] = omega arith
length-remove-le x ((k, v) ∷ d) = ground (arith, length-remove-le x d)

length-remove :
    (x : String) (d : Eligible) → is_some (find x d) ≡ true → suc (length (remove x d)) ≤ length d
length-remove x [] h = cc
length-remove x ((k, v) ∷ d) h = ground (arith, length-remove x d, length-remove-le x d)

keys_kept :
    (x : String) (xs : List String) (d : Eligible)
    → contains x xs ≡ false
    → all (λ y. is_some (find y d)) xs ≡ true
    → all (λ y. is_some (find y (remove x d))) xs ≡ true
keys_kept x [] d out h = refl
keys_kept x (y ∷ xs) d out h =
    let away : (x == y) ≡ false = eqb_comm y x (ground (arith, out)) in
    let same = ap is_some (find-remove_other x y d away) in
    ground (arith, keys_kept x xs d, out, h, same)

-- There are at most as many distinct helpers as there are helpers.
pub length-keys :
    (xs : List String) (d : Eligible)
    → IsDistinct xs
    → all (λ x. is_some (find x d)) xs ≡ true
    → length xs ≤ length d
length-keys [] d apart h = omega arith
length-keys (x ∷ xs) d apart h =
    let shorter = length-remove x d (ground (arith, h)) in
    let rest = length-keys xs (remove x d) apart.1 (keys_kept x xs d apart.0 (ground (arith, h))) in
    omega (arith, rest, shorter)
