-- ===== src/Scoped/Matcher/Keyed.antt =====
-- The index by code and path holds, for each of them, the symbols of its entries in their order.
use repository_quality_guard.Prelude.{
  String, ◌≡◌, refl, sym, ap, ◌∙◌, Bool, true, false, List, [], ◌∷◌, ◌++◌, Option, none, some,
  eq_iff, eq_refl, arith, Bool-cases, inl, inr, if◌then◌else◌,
}
use repository_quality_guard.Scoped.Entries.{ScopedRuleDisable}
use repository_quality_guard.Scoped.Matcher.{Keys, same_key, get_key, add_symbol, group}

abbrev pub or_nil : Option (List String) → List String
or_nil none = []
or_nil (some symbols) = symbols

-- The symbols of the entries for one code and path.
abbrev pub symbols_of : String → String → List ScopedRuleDisable → List String
symbols_of code path [] = []
symbols_of code path (e ∷ es) =
    if same_key (e.code, e.path) code path
    then e.symbol ∷ symbols_of code path es
    else symbols_of code path es

append-nil : (xs : List String) → xs ++ [] ≡ xs
append-nil [] = refl
append-nil (x ∷ xs) = ap (λ l. x ∷ l) (append-nil xs)

append_assoc : (xs ys zs : List String) → (xs ++ ys) ++ zs ≡ xs ++ (ys ++ zs)
append_assoc [] ys zs = refl
append_assoc (x ∷ xs) ys zs = ap (λ l. x ∷ l) (append_assoc xs ys zs)

other_misses :
    (code path c p c' p' : String)
    → same_key (c', p') c p ≡ false
    → same_key (c', p') code path ≡ true
    → same_key (c, p) code path ≡ false
other_misses code path c p c' p' apart hit = elim (Bool-cases (same_key (c, p) code path)) [
  | inl hit' ↦
      let a : c' ≡ code = (eq_iff c' code).0 (ground (arith, hit)) in
      let b : p' ≡ path = (eq_iff p' path).0 (ground (arith, hit)) in
      let a' : c ≡ code = (eq_iff c code).0 (ground (arith, hit')) in
      let b' : p ≡ path = (eq_iff p path).0 (ground (arith, hit')) in
      let off : same_key (code, path) code path ≡ false = rw (a, b, a', b') at apart in
      let c_on = eq_refl code in let p_on = eq_refl path in ground (arith, off, c_on, p_on)
  | inr miss ↦ miss
]

if_append :
    (b : Bool) (s : String) (l : List String)
    → (if b then s ∷ [] else []) ++ l ≡ (if b then s ∷ l else l)
if_append true s l = refl
if_append false s l = refl

get_key-add_symbol :
    (code path c p s : String) (keys : Keys)
    → or_nil (get_key code path (add_symbol c p s keys))
      ≡ or_nil (get_key code path keys) ++ (if same_key (c, p) code path then s ∷ [] else [])
unfolding add_symbol
get_key-add_symbol code path c p s [] = ground arith
get_key-add_symbol code path c p s (((c', p'), symbols) ∷ keys) =
    elim (Bool-cases (same_key (c', p') c p)) [
      | inl same ↦
          let ec : c' ≡ c = (eq_iff c' c).0 (ground (arith, same)) in
          let ep : p' ≡ p = (eq_iff p' p).0 (ground (arith, same)) in
          elim (Bool-cases (same_key (c, p) code path)) [
            | inl hit ↦ rw (same, ec, ep, hit) refl
            | inr miss ↦ rw (same, ec, ep, miss) (sym (append-nil _))
          ]
      | inr apart ↦ elim (Bool-cases (same_key (c', p') code path)) [
        | inl hit ↦ rw (apart, hit, other_misses code path c p c' p' apart hit) (sym (append-nil _))
        | inr miss ↦ rw (apart, miss) (get_key-add_symbol code path c p s keys)
      ]
    ]

-- From an index on, the entries add their symbols behind those that are there.
get_key-group_from :
    (code path : String) (es : List ScopedRuleDisable) (keys : Keys)
    → or_nil (get_key code path (group es keys))
      ≡ or_nil (get_key code path keys) ++ symbols_of code path es
unfolding group
get_key-group_from code path [] keys = sym (append-nil _)
get_key-group_from code path (e ∷ es) keys =
    get_key-group_from code path es (add_symbol e.code e.path e.symbol keys)
    ∙ ap (λ l. l ++ symbols_of code path es)
        (get_key-add_symbol code path e.code e.path e.symbol keys)
    ∙ append_assoc (or_nil (get_key code path keys)) _ _
    ∙ ap (λ l. or_nil (get_key code path keys) ++ l)
        (if_append (same_key (e.code, e.path) code path) e.symbol (symbols_of code path es))

pub get_key-group :
    (code path : String) (es : List ScopedRuleDisable)
    → or_nil (get_key code path (group es [])) ≡ symbols_of code path es
get_key-group code path es = get_key-group_from code path es []
