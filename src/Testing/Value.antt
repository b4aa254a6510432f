-- ===== src/Testing/Value.antt =====
-- The Python values that packages/rqgtest tells apart, and the exceptions that it reports.
use repository_quality_guard.Prelude.{String, ℕ, Bool, true, false}

-- What an `except` clause looks at: `Exception`, `asyncio.CancelledError`, any other
-- `BaseException` (KeyboardInterrupt, SystemExit).
pub data ExceptionClass : Type 0 where
  ordinary cancelled base : ExceptionClass

-- `kind` is `type(exc).__name__` and `text` is `str(exc)`.
pub record Exc : Type 0 where
  pub class : ExceptionClass
  pub kind : String
  pub text : String

-- `except Exception`
abbrev pub is_ordinary : Exc → Bool
is_ordinary e = elim e.class [ ordinary ↦ true | _ ↦ false ]

-- `except (Exception, asyncio.CancelledError)`
abbrev pub is_caught : Exc → Bool
is_caught e = elim e.class [ base ↦ false | _ ↦ true ]

abbrev pub type_error : String → Exc
type_error text = record { class = ordinary; kind = "TypeError"; text = text }

abbrev pub value_error : String → Exc
value_error text = record { class = ordinary; kind = "ValueError"; text = text }

-- Iterables that are no tuple, text, bytes or mapping.
pub data IterableKind : Type 0 where
  sequence iterator data_loader : IterableKind

-- Numbers name objects that only user code can look into.
mutual
  pub data Value : Type 0 where
    none_value : Value
    boolean : Bool → Value
    number : ℕ → Value
    text : String → Value
    bytes : ℕ → Value
    tuple : Values → Value
    dict : Fields → Value
    mapping : ℕ → Value
    iterable : IterableKind → ℕ → Value
    -- a class, and whether it is a subclass of `Exception`
    class_object : Bool → ℕ → Value
    function : ℕ → Value
    exception : Exc → Value
    awaitable : ℕ → Value
    -- any other object, and whether it is callable
    object : Bool → ℕ → Value

  pub data Values : Type 0 where
    nil : Values
    cons : Value → Values → Values

  pub data Fields : Type 0 where
    end : Fields
    field : Value → Value → Fields → Fields

abbrev pub is_tuple : Value → Bool
is_tuple (tuple vs) = true
is_tuple _ = false

abbrev pub is_dict : Value → Bool
is_dict (dict fs) = true
is_dict _ = false

abbrev pub is_text : Value → Bool
is_text (text s) = true
is_text _ = false

abbrev pub is_none : Value → Bool
is_none none_value = true
is_none _ = false

-- `inspect.isawaitable`
abbrev pub is_awaitable : Value → Bool
is_awaitable (awaitable n) = true
is_awaitable _ = false

-- `callable`
abbrev pub is_callable : Value → Bool
is_callable (class_object e n) = true
is_callable (function n) = true
is_callable (object c n) = c
is_callable _ = false

-- `inspect.isclass`
abbrev pub is_class : Value → Bool
is_class (class_object e n) = true
is_class _ = false

-- `isinstance(value, type) and issubclass(value, Exception)`
abbrev pub is_exception_class : Value → Bool
is_exception_class (class_object e n) = e
is_exception_class _ = false

-- `isinstance(value, (Iterator, DataLoader))`
abbrev pub is_iterator_or_loader : Value → Bool
is_iterator_or_loader (iterable iterator n) = true
is_iterator_or_loader (iterable data_loader n) = true
is_iterator_or_loader _ = false

-- `not isinstance(value, (str, bytes, Mapping)) and isinstance(value, Iterable)`
abbrev pub is_stream : Value → Bool
is_stream (tuple vs) = true
is_stream (iterable k n) = true
is_stream _ = false
