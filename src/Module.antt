-- ===== src/Module.antt =====
-- src/lib.rs: the initialisation of the Python module, with `register` of src/py.rs and `configure` of
-- src/runtime.rs. What is added to the module is kept as a list, in order.
pub mod Importing
use fogws.Prelude.{ℕ, String, Bool, true, Option, none, some, Result, ok, err, List, [], ◌∷◌, ◌++◌}
use fogws.Config.{default_max_queue, default_max_message_size, default_max_buffered_bytes}
use fogws.Python.{
  ExceptionClass, fogws_error, connection_closed, connection_closed_error, connection_closed_ok,
  concurrency_error, connection_failed_error, invalid_uri_error, loop_affinity_error,
  resource_limit_error, runtime_context_error, PyErr, Attribute, set_code, set_reason,
  set_initiated_by_local, Interpreter,
}
use fogws.Runtime.{validate_import_context}

-- What `module.add` is given. A number of seconds is whole.
pub data Value : Type 0 where
  exception : ExceptionClass → Value
  seconds : ℕ → Value
  size : ℕ → Value
  version : String → Value

-- The calls of pyo3, each of which may raise an error. `set_class` is `setattr` on the class
-- `ConnectionClosed`.
pub data Registration : Type 0 where
  set_class : Attribute → Registration
  add_connection_class add_connect_function : Registration
  add : String → Value → Registration

abbrev pub registrations : List Registration
registrations =
    set_class (set_code none)
    ∷ set_class (set_reason "")
    ∷ set_class (set_initiated_by_local none)
    ∷ add_connection_class
    ∷ add_connect_function
    ∷ add "FogWSError" (exception fogws_error)
    ∷ add "ConnectionClosed" (exception connection_closed)
    ∷ add "ConnectionClosedError" (exception connection_closed_error)
    ∷ add "ConnectionClosedOK" (exception connection_closed_ok)
    ∷ add "ConcurrencyError" (exception concurrency_error)
    ∷ add "ConnectionFailedError" (exception connection_failed_error)
    ∷ add "InvalidURIError" (exception invalid_uri_error)
    ∷ add "LoopAffinityError" (exception loop_affinity_error)
    ∷ add "ResourceLimitError" (exception resource_limit_error)
    ∷ add "RuntimeContextError" (exception runtime_context_error)
    ∷ add "DEFAULT_CLOSE_TIMEOUT" (seconds 10)
    ∷ add "DEFAULT_MAX_BUFFERED_BYTES" (size default_max_buffered_bytes)
    ∷ add "DEFAULT_MAX_MESSAGE_SIZE" (size default_max_message_size)
    ∷ add "DEFAULT_MAX_QUEUE" (size default_max_queue)
    ∷ []

-- The builder that `tokio::init` is given.
pub record Runtime : Type 0 where
  pub enable_all : Bool
  pub thread_name : String
  pub worker_threads : ℕ

abbrev pub runtime_worker_threads : ℕ
runtime_worker_threads = 2

unfoldable pub configure : Runtime
configure = record {
  enable_all = true;
  thread_name = "fogws-runtime";
  worker_threads = runtime_worker_threads;
}

-- What an import leaves: the cell of the owner's process, what the module has been given, the runtime's
-- builder, and the result.
pub record Imported : Type 0 where
  pub owner_process : Option ℕ
  pub registered : List Registration
  pub runtime : Option Runtime
  pub result : Result (Unit {0}) PyErr

module _ (perform : Registration → Option PyErr) where
  -- One call after the other, up to the first that raises an error.
  unfoldable pub perform_all : List Registration → List Registration × Result (Unit {0}) PyErr
  perform_all [] = ([], ok tt)
  perform_all (r ∷ rest) = elim (perform r) [
    | some error ↦ ([], err error)
    | none ↦ let after = perform_all rest in (r ∷ after.0, after.1)
  ]

  unfoldable pub register : List Registration × Result (Unit {0}) PyErr
  unfolding perform_all
  register = perform_all registrations

  -- `CARGO_PKG_VERSION` is given.
  unfoldable pub import_fogws : (py : Interpreter) → String → ℕ → Option ℕ → Imported
  import_fogws py cargo_version process cell =
      let context = validate_import_context py process cell in
      elim context.1 [
        | err error ↦ record {
          owner_process = context.0;
          registered = [];
          runtime = none;
          result = err error;
        }
        | ok _ ↦ elim register.1 [
          | err error ↦ record {
            owner_process = context.0;
            registered = register.0;
            runtime = none;
            result = err error;
          }
          | ok _ ↦
              let last = perform_all (add "__version__" (version cargo_version) ∷ []) in
              record {
                owner_process = context.0;
                registered = register.0 ++ last.0;
                runtime = some configure;
                result = last.1;
              }
        ]
      ]
