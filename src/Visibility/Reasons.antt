-- ===== src/Visibility/Reasons.antt =====
-- The reasons for which a symbol is shown, without their order.
use repository_quality_guard.Prelude.{
  String, ℕ, Bool, true, false, not, ◌&&◌, ◌||◌, ◌≡◌, refl, ap, ◌∙◌, List, [], ◌∷◌, ◌==◌, any,
  starts_with, leb, if◌then◌else◌, arith,
}
use repository_quality_guard.Gate.Interface.{InterfaceSymbol}
use repository_quality_guard.Visibility.Names.{leaf_of, is_dunder}
use repository_quality_guard.Visibility.{
  Pairs, has_pair, registers, private_method_exposure, is_method_kind, is_function_kind,
  first_active, member_symbol_exposure, module_symbol_exposure,
}

or_false : (b : Bool) → (b || false) ≡ b
or_false b = ground arith

or_assoc : (a b c : Bool) → (a || (b || c)) ≡ ((a || b) || c)
or_assoc a b c = ground arith

-- A private name that no reason but its own could show.
unfoldable pub shows_member : InterfaceSymbol → Pairs → ℕ → Bool
shows_member symbol external_private_symbols least =
    let leaf = leaf_of symbol.qualname in
    is_dunder leaf
    || not (starts_with leaf "_")
    || has_pair symbol.path leaf external_private_symbols
    || is_method_kind symbol.kind
      && (any registers symbol.declaration.decorators || leb least symbol.code_lines)

shown_if :
    (b : Bool) (reason : String)
    → (reason == "") ≡ false
    → (rest : String) → not ((if b then reason else rest) == "") ≡ (b || not (rest == ""))
shown_if true reason given rest = ap not given
shown_if false reason given rest = refl

private_method_exposure-shown :
    (decorators : List String) (code_lines least : ℕ)
    → not (private_method_exposure decorators code_lines least == "")
      ≡ (any registers decorators || leb least code_lines)
unfolding private_method_exposure
private_method_exposure-shown [] code_lines least =
    shown_if (leb least code_lines) "significant_private" refl "" ∙ or_false (leb least code_lines)
private_method_exposure-shown (d ∷ ds) code_lines least =
    let rest = private_method_exposure ds code_lines least in
    let shown = private_method_exposure-shown ds code_lines least in
    shown_if (registers d) "registered_private" refl rest
    ∙ (ap (λ b. registers d || b) shown
        ∙ or_assoc (registers d) (any registers ds) (leb least code_lines))

-- The reasons of a member, in their order.
member_reasons :
    (forced dunder plain external private_method : Bool) (rest : String)
    → (let exposure = first_active (
          ("forced", forced)
          ∷ ("protocol", dunder)
          ∷ ("public", plain)
          ∷ ("external_private", external)
          ∷ []) in
        not ((if not (exposure == "") || not private_method then exposure else rest) == ""))
      ≡ (forced || (dunder || plain || external || private_method && not (rest == "")))
unfolding first_active
member_reasons true dunder plain external private_method rest = refl
member_reasons false true plain external private_method rest = refl
member_reasons false false true external private_method rest = refl
member_reasons false false false true private_method rest = refl
member_reasons false false false false true rest = refl
member_reasons false false false false false rest = refl

pub member_symbol_exposure-shown :
    (symbol : InterfaceSymbol) (forced : Bool) (pairs : Pairs) (least : ℕ)
    → not (member_symbol_exposure symbol (leaf_of symbol.qualname) forced pairs least == "")
      ≡ (forced || shows_member symbol pairs least)
unfolding member_symbol_exposure shows_member
member_symbol_exposure-shown symbol forced pairs least =
    let leaf = leaf_of symbol.qualname in
    let decorators = symbol.declaration.decorators in
    let shown = private_method_exposure-shown decorators symbol.code_lines least in
    member_reasons forced (is_dunder leaf) (not (starts_with leaf "_"))
      (has_pair symbol.path leaf pairs) (is_method_kind symbol.kind)
      (private_method_exposure decorators symbol.code_lines least)
    ∙ ap
        (λ b.
          forced
          || (is_dunder leaf
              || not (starts_with leaf "_")
              || has_pair symbol.path leaf pairs
              || is_method_kind symbol.kind && b))
        shown

unfoldable pub shows_module : InterfaceSymbol → Bool → Pairs → ℕ → Bool
shows_module symbol explicit_export pairs least =
    let leaf = leaf_of symbol.qualname in
    explicit_export
    || (not (starts_with leaf "_") || leaf == "__all__")
    || has_pair symbol.path leaf pairs
    || is_function_kind symbol.kind && leb least symbol.code_lines

module_reasons :
    (forced explicit plain external long : Bool)
    → not (
        (if forced
          then "forced"
          else if explicit
          then "explicit_export"
          else if plain
          then "public"
          else if external
          then "external_private"
          else if long
          then "significant_private"
          else "")
        == "")
      ≡ (forced || (explicit || plain || external || long))
module_reasons true explicit plain external long = refl
module_reasons false true plain external long = refl
module_reasons false false true external long = refl
module_reasons false false false true long = refl
module_reasons false false false false true = refl
module_reasons false false false false false = refl

pub module_symbol_exposure-shown :
    (symbol : InterfaceSymbol) (forced explicit : Bool) (pairs : Pairs) (least : ℕ)
    → not
        (module_symbol_exposure symbol (leaf_of symbol.qualname) forced explicit pairs least == "")
      ≡ (forced || shows_module symbol explicit pairs least)
unfolding module_symbol_exposure shows_module
module_symbol_exposure-shown symbol forced explicit pairs least =
    let leaf = leaf_of symbol.qualname in
    module_reasons forced explicit (not (starts_with leaf "_") || leaf == "__all__")
      (has_pair symbol.path leaf pairs)
      (is_function_kind symbol.kind && leb least symbol.code_lines)

abbrev is_hidden_by : Bool → Bool → Bool → Bool → Bool → Bool
is_hidden_by under all_name explicit forced external =
    under && not all_name && not explicit && not forced && not external

shown_unless :
    (hidden : Bool) (rest : String)
    → not ((if hidden then "" else rest) == "") ≡ (not hidden && not (rest == ""))
shown_unless true rest = refl
shown_unless false rest = refl

-- The reasons of a symbol, from those of the two kinds.
pub symbol_reasons :
    (whole under all_name explicit forced external at_module by_module by_member : Bool)
    (of_module of_member : String)
    → not (of_module == "") ≡ (forced || by_module)
    → not (of_member == "") ≡ (forced || by_member)
    → not (
        (if whole
          then "file"
          else if is_hidden_by under all_name explicit forced external
          then ""
          else if at_module
          then of_module
          else of_member)
        == "")
      ≡ (whole
          || forced
          || (not under || all_name || explicit || external)
            && (if at_module then by_module else by_member))
symbol_reasons true under all_name explicit forced external at_module by_module by_member s t p q =
    refl
symbol_reasons false under all_name explicit forced external true by_module by_member s t p q =
    shown_unless (is_hidden_by under all_name explicit forced external) s ∙ ground (arith, p)
symbol_reasons false under all_name explicit forced external false by_module by_member s t p q =
    shown_unless (is_hidden_by under all_name explicit forced external) t ∙ ground (arith, q)
