-- ===== src/GuardFlow/Semantics.antt =====
-- What Python says of the nodes that typed_guard_flow.py looks at: which node may take a key away from a
-- receiver, and what a membership test says about the keys.
use repository_quality_guard.Prelude.{
  String, ℕ, ◌≡◌, refl, sym, ◌∙◌, Bool, true, false, not, List, [], ◌∷◌, contains, arith,
}
use repository_quality_guard.GuardFlow.{
  Context, load, store, del, Operator, is_in, not_in, Expr, name, text, subscript, attribute,
  negation, compare, effect, other, Exprs, nil, cons, is_load, unknown_effect, unknown_all,
}

-- Whether a receiver has a key.
abbrev pub Keys : Type 0
Keys = String → String → Bool

mutual
  -- A node stands in an expression, or is it.
  pub data Below : Expr → Expr → Type 0 where
    itself : {e : Expr} → Below e e
    in_value :
        {n value key : Expr} {ctx : Context} {line column : ℕ}
        → Below n value
        → Below n (subscript value key ctx line column)
    in_key :
        {n value key : Expr} {ctx : Context} {line column : ℕ}
        → Below n key
        → Below n (subscript value key ctx line column)
    in_object : {n value : Expr} {ctx : Context} → Below n value → Below n (attribute value ctx)
    in_operand : {n e : Expr} → Below n e → Below n (negation e)
    in_left :
        {n left : Expr} {ops : List Operator} {comparators : Exprs}
        → Below n left
        → Below n (compare left ops comparators)
    in_comparators :
        {n left : Expr} {ops : List Operator} {comparators : Exprs}
        → Among n comparators
        → Below n (compare left ops comparators)
    in_effect : {n : Expr} {es : Exprs} → Among n es → Below n (effect es)
    in_other : {n : Expr} {es : Exprs} → Among n es → Below n (other es)

  pub data Among : Expr → Exprs → Type 0 where
    first : {n e : Expr} {es : Exprs} → Below n e → Among n (cons e es)
    later : {n e : Expr} {es : Exprs} → Among n es → Among n (cons e es)

-- The node by itself may take a key away: it runs code of others, or it binds or deletes a receiver, an
-- item of one or an attribute of one.
pub data Removes (receivers : List String) : Expr → Type 0 where
  runs : {es : Exprs} → Removes receivers (effect es)
  binds :
      {id : String} {ctx : Context}
      → contains id receivers ≡ true
      → (ctx ≡ load → ⊥)
      → Removes receivers (name id ctx)
  changes_item :
      {id : String} {key : Expr} {c ctx : Context} {line column : ℕ}
      → contains id receivers ≡ true
      → (ctx ≡ load → ⊥)
      → Removes receivers (subscript (name id c) key ctx line column)
  changes_attribute :
      {id : String} {c ctx : Context}
      → contains id receivers ≡ true
      → (ctx ≡ load → ⊥)
      → Removes receivers (attribute (name id c) ctx)

-- No node of the expressions may take a key away.
abbrev pub IsQuiet : List String → Exprs → Type 0
IsQuiet receivers node = (n : Expr) → Among n node → Removes receivers n → ⊥

load_iff : (ctx : Context) → (ctx ≡ load → ⊥) → is_load ctx ≡ false
load_iff load h = elim (h refl) [ ]
load_iff store h = refl
load_iff del h = refl

Removes-unknown :
    (receivers : List String) {e : Expr} → Removes receivers e → unknown_effect receivers e ≡ true
unfolding unknown_effect
Removes-unknown receivers runs = refl
Removes-unknown receivers (binds {ctx} m h) = rw (m, load_iff ctx h) refl
Removes-unknown receivers (changes_item {ctx} m h) = rw (m, load_iff ctx h) refl
Removes-unknown receivers (changes_attribute {ctx} m h) = rw (m, load_iff ctx h) refl

mutual
  unfolding unknown_effect

  Below-unknown :
      (receivers : List String) {n e : Expr}
      → Below n e
      → unknown_effect receivers n ≡ true
      → unknown_effect receivers e ≡ true
  Below-unknown receivers itself h = h
  Below-unknown receivers (in_value b) h = ground (arith, Below-unknown receivers b h)
  Below-unknown receivers (in_key b) h = ground (arith, Below-unknown receivers b h)
  Below-unknown receivers (in_object b) h = ground (arith, Below-unknown receivers b h)
  Below-unknown receivers (in_operand b) h = Below-unknown receivers b h
  Below-unknown receivers (in_left b) h = ground (arith, Below-unknown receivers b h)
  Below-unknown receivers (in_comparators b) h = ground (arith, Among-unknown receivers b h)
  Below-unknown receivers (in_effect b) h = refl
  Below-unknown receivers (in_other b) h = Among-unknown receivers b h

  Among-unknown :
      (receivers : List String) {n : Expr} {es : Exprs}
      → Among n es
      → unknown_effect receivers n ≡ true
      → unknown_all receivers es ≡ true
  Among-unknown receivers (first b) h = ground (arith, Below-unknown receivers b h)
  Among-unknown receivers (later b) h = ground (arith, Among-unknown receivers b h)

-- Where the analysis sees no unknown effect, no node takes a key away.
pub unknown_all-IsQuiet :
    (receivers : List String) (node : Exprs)
    → unknown_all receivers node ≡ false
    → IsQuiet receivers node
unknown_all-IsQuiet receivers node known n among removes =
    let unknown = Among-unknown receivers among (Removes-unknown receivers removes) in
    let off : true ≡ false = sym unknown ∙ known in cc

-- Python's `key in name` and `key not in name`, for a name that is a receiver.
abbrev pub Contains : List String → String → List Operator → Exprs → Keys → Bool → Type 0
Contains receivers key (is_in ∷ []) (cons (name id ctx) nil) σ taken =
    contains id receivers ≡ true → σ id key ≡ taken
Contains receivers key (not_in ∷ []) (cons (name id ctx) nil) σ taken =
    contains id receivers ≡ true → σ id key ≡ not taken
Contains receivers key ops comparators σ taken = Unit

-- A test has come out as `taken` on these keys: a membership test of a literal key in a receiver, or the
-- negation of a test. Nothing is said of other tests.
abbrev pub Decides : List String → Expr → Keys → Bool → Type 0
Decides receivers (negation e) σ taken = Decides receivers e σ (not taken)
Decides receivers (compare (text key) ops comparators) σ taken =
    Contains receivers key ops comparators σ taken
Decides receivers _ σ taken = Unit
