-- ===== src/Visibility/Tests.antt =====
-- Three symbols of a module, and the theorem on interface_visibility.py at them.
use repository_quality_guard.Prelude.{
  String, false, List, [], ◌∷◌, ◌≡◌, refl, Dict, find, ends_with, format,
}
use repository_quality_guard.Gate.Interface.{InterfaceKind, function, method, InterfaceSymbol}
use repository_quality_guard.Visibility.Names.{top_of, leaf_of, before_call, without_at, is_dunder}
use repository_quality_guard.Visibility.{
  registers, private_method_exposure, first_active, member_symbol_exposure, module_symbol_exposure,
  symbol_exposure, keep_exposed, exports_of, filter_interface_symbols,
}
use repository_quality_guard.Visibility.Exposed.{kept, filter_interface_symbols-find}

abbrev symbol_at : InterfaceKind → String → List String → InterfaceSymbol
symbol_at kind qualname decorators = record {
  kind = kind;
  path = "a.py";
  qualname = qualname;
  line = 3;
  variant = 0;
  declaration = record {
    parameters = [];
    return_type = "";
    annotation = "";
    value = "";
    storage = "";
    decorators = decorators;
    bases = [];
    is_async = false;
    exports = [];
  };
  code_lines = 4;
  exposure = "";
}

abbrev symbols : Dict InterfaceSymbol
symbols =
    ("run", symbol_at function "_run" [])
    ∷ ("hook", symbol_at method "View._hook" ("@app.route(\"/\")" ∷ []))
    ∷ ("state", symbol_at method "View._state" ("@state.setter" ∷ []))
    ∷ []

hook_is_kept :
    filter_interface_symbols symbols [] [] false 9
    ≡ (
      "hook",
      record (symbol_at method "View._hook" ("@app.route(\"/\")" ∷ [])) {
        exposure = "registered_private";
      },
    )
      ∷ []
unfolding filter_interface_symbols keep_exposed exports_of symbol_exposure module_symbol_exposure
    member_symbol_exposure first_active private_method_exposure registers top_of leaf_of before_call
    without_at is_dunder ends_with format
hook_is_kept = refl

filter_interface_symbols-find_example :
    find "hook" (filter_interface_symbols symbols [] [] false 9)
    ≡ kept (exports_of symbols []) [] [] 9 (find "hook" symbols)
filter_interface_symbols-find_example =
    filter_interface_symbols-find symbols [] [] 9 "hook" (refl, (refl, (refl, tt)))
