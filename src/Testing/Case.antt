-- ===== src/Testing/Case.antt =====
-- packages/rqgtest/src/rqgtest/core/case.py: the closed Case contract.
use repository_quality_guard.Prelude.{
  String, ◌==◌, Bool, true, false, ◌&&◌, ◌||◌, List, [], ◌∷◌, Option, none, some, nonempty,
  if◌then◌else◌,
}
use repository_quality_guard.Testing.Value.{Value, Exc, type_error, value_error}
use repository_quality_guard.Testing.Runtime.{Reply, Result, ok, err, raised}

pub data Outcome : Type 0 where
  return exception : Outcome

pub data Process : Type 0 where
  pool main : Process

pub record CaseConfig : Type 0 where
  pub process : Process

-- `CaseConfig.__post_init__` on the process name that was given.
unfoldable pub case_config : String → Result CaseConfig
case_config process =
    if process == "pool"
    then ok (record { process = pool })
    else if process == "main"
    then ok (record { process = main })
    else err (raised (value_error "CaseConfig.process must be 'pool' or 'main'"))

-- The bases that the metaclass compares with.
pub data Base : Type 0 where
  i_test_case test_case stateful_test_case : Base
  other : String → Base

-- A class statement; `own_module` says that it stands in case.py itself.
pub record ClassDefinition : Type 0 where
  pub name : String
  pub own_module : Bool
  pub bases : List Base
  pub abstract_methods : List String

abbrev pub is_root : Base → Bool
is_root test_case = true
is_root stateful_test_case = true
is_root _ = false

-- `bases == (ITestCase,)`
abbrev only_interface : List Base → Bool
only_interface (i_test_case ∷ []) = true
only_interface _ = false

-- `len(bases) == 1 and bases[0] in (TestCase, StatefulTestCase)`
abbrev pub only_root : List Base → Bool
only_root (b ∷ []) = is_root b
only_root _ = false

-- `_DirectLeafMeta.__new__`: `none` accepts the class.
unfoldable pub define_class : ClassDefinition → Option Exc
define_class c =
    if c.own_module && c.name == "ITestCase"
    then none
    else if c.own_module
        && (c.name == "TestCase" || c.name == "StatefulTestCase")
        && only_interface c.bases
    then none
    else elim (only_root c.bases) [
      | false ↦ some (
          type_error
            "Case must directly inherit TestCase or StatefulTestCase; direct ITestCase inheritance is reserved for the two standard roots")
      | true ↦
          if nonempty c.abstract_methods
          then some (type_error "Case must implement all four abstract methods")
          else none
    ]

-- An argument of `__init__`: left out (or `None`), of the declared type, or of another type.
pub data Argument (A : Type 0) : Type 0 where
  absent : Argument A
  given : A → Argument A
  mistyped : Argument A

pub record Metadata : Type 0 where
  pub type : Outcome
  pub config : CaseConfig

config_or_default : Outcome → Argument CaseConfig → Result Metadata
config_or_default type absent = ok (record { type = type; config = record { process = pool } })
config_or_default type (given config) = ok (record { type = type; config = config })
config_or_default type mistyped = err (raised (type_error "Case config must be CaseConfig or None"))

-- `ITestCase.__init__`
unfoldable pub init : Argument Outcome → Argument CaseConfig → Result Metadata
unfolding config_or_default
init absent config = config_or_default return config
init (given type) config = config_or_default type config
init mistyped config =
    err (raised (type_error "Case type must be Outcome.RETURN or Outcome.EXCEPTION"))

-- A Case object. `type` is `none` where the property yields no `Outcome`; the four methods are
-- user code.
pub record Case (W : Type 0) : Type 0 where
  pub is_case : Bool
  pub is_stateful : Bool
  pub type : Option Outcome
  pub config : CaseConfig
  pub get_enterpoint : W → Reply × W
  pub get_input_data : W → Reply × W
  pub get_output_data : W → Reply × W
  pub equals : Value → Value → W → Reply × W
