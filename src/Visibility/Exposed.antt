-- ===== src/Visibility/Exposed.antt =====
-- Which symbols `filter_interface_symbols` keeps.
use repository_quality_guard.Prelude.{
  String, ℕ, Bool, true, false, not, ◌&&◌, ◌||◌, ◌≡◌, refl, sym, ap, ◌∙◌, subst, List, [], ◌∷◌,
  Option, none, some, ◌==◌, eq_iff, starts_with, Dict, IsDict, find, put, find-put, find-put_other,
  is_some, if◌then◌else◌, Bool-cases, inl, inr,
}
use repository_quality_guard.Prelude.Options.{Option-cases}
use repository_quality_guard.Gate.Interface.{InterfaceSymbol}
use repository_quality_guard.Visibility.Names.{top_of, leaf_of}
use repository_quality_guard.Visibility.Reasons.{
  shows_member, member_symbol_exposure-shown, shows_module, module_symbol_exposure-shown,
  symbol_reasons,
}
use repository_quality_guard.Visibility.{
  Pairs, has_pair, member_symbol_exposure, module_symbol_exposure, is_module_level, is_file_kind,
  is_forced, is_exported, symbol_exposure, keep_exposed, exports_of, filter_interface_symbols,
}

abbrev or_else : Option InterfaceSymbol → Option InterfaceSymbol → Option InterfaceSymbol
or_else none other = other
or_else (some symbol) other = some symbol

module _ (exports : Dict (List String)) (pairs : Pairs) (forced_symbols : List String)
    (least : ℕ) where
  -- A file; or a symbol that is forced, or whose outermost name is public, exported or read by another
  -- module, and which has a reason of its own to be shown.
  pub is_exposed : InterfaceSymbol → Bool
  is_exposed symbol =
      let top = top_of symbol.qualname in
      let forced = is_forced exports pairs forced_symbols least symbol in
      let explicit_export = is_exported exports pairs forced_symbols least symbol in
      is_file_kind symbol.kind
      || forced
      || (not (starts_with top "_")
          || top == "__all__"
          || explicit_export
          || has_pair symbol.path top pairs)
        && (if is_module_level symbol.kind
            then shows_module symbol explicit_export pairs least
            else shows_member symbol pairs least)

  symbol_exposure-shown :
      (symbol : InterfaceSymbol)
      → not (symbol_exposure exports pairs forced_symbols least symbol == "") ≡ is_exposed symbol
  unfolding symbol_exposure is_exposed
  symbol_exposure-shown symbol =
      let top = top_of symbol.qualname in
      let forced = is_forced exports pairs forced_symbols least symbol in
      let explicit = is_exported exports pairs forced_symbols least symbol in
      symbol_reasons (is_file_kind symbol.kind) (starts_with top "_") (top == "__all__") explicit
        forced (has_pair symbol.path top pairs) (is_module_level symbol.kind)
        (shows_module symbol explicit pairs least) (shows_member symbol pairs least)
        (module_symbol_exposure symbol (leaf_of symbol.qualname) forced explicit pairs least)
        (member_symbol_exposure symbol (leaf_of symbol.qualname) forced pairs least)
        (module_symbol_exposure-shown symbol forced explicit pairs least)
        (member_symbol_exposure-shown symbol forced pairs least)

  -- The symbol that is kept, with the reason.
  abbrev pub kept : Option InterfaceSymbol → Option InterfaceSymbol
  kept none = none
  kept (some symbol) =
      if is_exposed symbol
      then some
          (record symbol { exposure = symbol_exposure exports pairs forced_symbols least symbol })
      else none

  keep_exposed-find :
      (key : String) (symbols result : Dict InterfaceSymbol)
      → IsDict symbols
      → find key (keep_exposed exports pairs forced_symbols least symbols result)
        ≡ or_else (kept (find key symbols)) (find key result)
  unfolding keep_exposed
  keep_exposed-find key [] result h = refl
  keep_exposed-find key ((k, symbol) ∷ symbols) result h =
      let exposure = symbol_exposure exports pairs forced_symbols least symbol in
      let shown = symbol_exposure-shown symbol in
      let entry : InterfaceSymbol = record symbol { exposure = exposure } in
      let before : Dict InterfaceSymbol = if exposure == "" then result else put k entry result in
      let rest = keep_exposed-find key symbols before h.1 in
      elim (Bool-cases (k == key)) [
        | inl same ↦ elim (Option-cases (find key symbols)) [
          | inl gone ↦ elim (Bool-cases (exposure == "")) [
            | inl hidden ↦
                let off : is_exposed symbol ≡ false = sym shown ∙ ap not hidden in
                rest ∙ rw (gone, hidden, same, off) refl
            | inr given ↦
                let on : is_exposed symbol ≡ true = sym shown ∙ ap not given in
                let e : k ≡ key = (eq_iff k key).0 same in
                let stored =
                  subst (λ z. find z (put k entry result) ≡ some entry) e
                    (find-put k entry result) in
                rest ∙ rw (gone, given, same, on, stored) refl
          ]
          | inr (other, found) ↦
              let e : k ≡ key = (eq_iff k key).0 same in
              let off = subst (λ z. is_some (find z symbols) ≡ false) e h.0 in
              let on : is_some (find key symbols) ≡ true = ap is_some found in cc
        ]
        | inr apart ↦ elim (Bool-cases (exposure == "")) [
          | inl hidden ↦ rest ∙ rw (hidden, apart) refl
          | inr given ↦
              let other = find-put_other k key entry result apart in
              rest ∙ rw (given, apart, other) refl
        ]
      ]

or_else-none : (o : Option InterfaceSymbol) → or_else o none ≡ o
or_else-none none = refl
or_else-none (some symbol) = refl

-- Without `include_private`, and for symbols with a key each, `filter_interface_symbols` has a symbol under
-- a key exactly where the given symbols have one that is exposed, and it is that symbol with the
-- exposure of `_symbol_exposure`. Exposed are files and forced symbols, and symbols whose outermost name is
-- public, `__all__`, exported or read from another module: of these, symbols of the kinds of a module,
-- nested ones too, whose outermost name is exported, or whose own name is public, `__all__` or read from
-- another module, and long functions; and members whose own name is public, a protocol's or read from
-- another module, and long or registered methods.
pub filter_interface_symbols-find :
    (symbols : Dict InterfaceSymbol) (pairs : Pairs) (forced_symbols : List String) (least : ℕ)
    (key : String)
    → IsDict symbols
    → find key (filter_interface_symbols symbols pairs forced_symbols false least)
      ≡ kept (exports_of symbols []) pairs forced_symbols least (find key symbols)
unfolding filter_interface_symbols
filter_interface_symbols-find symbols pairs forced_symbols least key h =
    keep_exposed-find (exports_of symbols []) pairs forced_symbols least key symbols [] h
    ∙ or_else-none (kept (exports_of symbols []) pairs forced_symbols least (find key symbols))
