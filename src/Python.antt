-- ===== src/Python.antt =====
-- What the sources use of Python and of pyo3: the exceptions that src/py.rs declares, and the objects
-- and calls that src/runtime.rs asks for.
use fogws.Prelude.{ℕ, String, Bool, Option, none, some, Result}

-- The classes of `create_exception!`, and any other class by its name.
pub data ExceptionClass : Type 0 where
  fogws_error connection_closed connection_closed_error connection_closed_ok : ExceptionClass
  concurrency_error connection_failed_error invalid_uri_error : ExceptionClass
  loop_affinity_error resource_limit_error runtime_context_error : ExceptionClass
  import_error : ExceptionClass
  other : String → ExceptionClass

-- An exception with its text and the attributes of `ConnectionClosed`.
pub record PyErr : Type 0 where
  pub kind : ExceptionClass
  pub message : String
  pub code : Option ℕ
  pub reason : String
  pub initiated_by_local : Option Bool

-- The base class that `create_exception!` names, for the classes that it declares.
unfoldable pub base : ExceptionClass → Option ExceptionClass
base fogws_error = some (other "Exception")
base connection_closed = some fogws_error
base connection_closed_error = some connection_closed
base connection_closed_ok = some connection_closed
base concurrency_error = some fogws_error
base connection_failed_error = some fogws_error
base invalid_uri_error = some fogws_error
base loop_affinity_error = some fogws_error
base resource_limit_error = some fogws_error
base runtime_context_error = some fogws_error
base import_error = none
base (other name) = none

-- `new_err`. The attributes are those that `register` gives to the class `ConnectionClosed`.
unfoldable pub new_err : ExceptionClass → String → PyErr
new_err kind message = record {
  kind = kind;
  message = message;
  code = none;
  reason = "";
  initiated_by_local = none;
}

-- The calls of `setattr` on an exception.
pub data Attribute : Type 0 where
  set_code : Option ℕ → Attribute
  set_reason : String → Attribute
  set_initiated_by_local : Option Bool → Attribute

abbrev pub with_attribute : Attribute → PyErr → PyErr
with_attribute (set_code c) e = record e { code = c }
with_attribute (set_reason r) e = record e { reason = r }
with_attribute (set_initiated_by_local b) e = record e { initiated_by_local = b }

-- The objects of an interpreter. An `i64` is its bit pattern, a number.
pub record Interpreter : Type 1 where
  pub Object : Type 0
  pub import_module : String → Result Object PyErr
  pub call_method0 : Object → String → Result Object PyErr
  pub cast_tuple : Object → Option Object
  pub get_item : Object → ℕ → Result Object PyErr
  pub extract_i64 : Object → Result ℕ PyErr
