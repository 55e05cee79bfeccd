-- ===== src/Runtime.antt =====
-- src/runtime.rs: the process that owns the runtime, and the check of the interpreter. `OWNER_PROCESS`
-- is an optional process id, which a process inherits when its parent forks.
pub mod Owner
use fogws.Prelude.{
  ℕ, String, Bool, true, false, Option, none, some, Result, ok, err, ◌>>=◌, ◌==◌, if◌then◌else◌,
}
use fogws.Python.{PyErr, new_err, runtime_context_error, import_error, Interpreter}

abbrev pub after_fork : PyErr
unfolding new_err
after_fork =
    new_err runtime_context_error
      "FogWS was initialized before fork; create a fresh interpreter process before using it"

abbrev get_or_init : Option ℕ → ℕ → ℕ
get_or_init none current = current
get_or_init (some owner) current = owner

-- The cell after the call, and the result.
unfoldable pub claim_or_validate_process : ℕ → Option ℕ → Option ℕ × Result (Unit {0}) PyErr
claim_or_validate_process current_process cell =
    let owner_process = get_or_init cell current_process in
    (some owner_process, if owner_process == current_process then ok tt else err after_fork)

unfoldable pub ensure_current_process : ℕ → Option ℕ → Option ℕ × Result (Unit {0}) PyErr
unfolding claim_or_validate_process
ensure_current_process = claim_or_validate_process

unfoldable pub is_owner_process : ℕ → Option ℕ → Bool
is_owner_process current_process none = true
is_owner_process current_process (some owner_process) = owner_process == current_process

abbrev pub in_subinterpreter : PyErr
unfolding new_err
in_subinterpreter =
    new_err import_error "module fogws._fogws does not support loading in subinterpreters"

module _ (py : Interpreter) where
  open py use {Object, import_module, call_method0, cast_tuple, get_item, extract_i64}

  -- `or_else` of a failed import.
  abbrev pub or_import : Result Object PyErr → String → Result Object PyErr
  or_import (ok m) name = ok m
  or_import (err _) name = import_module name

  unfoldable pub extract_interpreter_id : Object → Result ℕ PyErr
  extract_interpreter_id identity = elim (cast_tuple identity) [
    | some details ↦ get_item details 0 >>= extract_i64
    | none ↦ call_method0 identity "__index__" >>= extract_i64
  ]

  unfoldable pub ensure_main_interpreter : Result (Unit {0}) PyErr
  ensure_main_interpreter = do
    interpreters ← or_import (import_module "_interpreters") "_xxsubinterpreters"
    current ← call_method0 interpreters "get_current" >>= extract_interpreter_id
    main ← call_method0 interpreters "get_main" >>= extract_interpreter_id
    if current == main then ok tt else err in_subinterpreter

  unfoldable pub validate_import_context : ℕ → Option ℕ → Option ℕ × Result (Unit {0}) PyErr
  validate_import_context current_process cell = elim ensure_main_interpreter [
    | err error ↦ (cell, err error)
    | ok _ ↦ claim_or_validate_process current_process cell
  ]
