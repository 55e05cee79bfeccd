-- ===== src/Runtime/Owner.antt =====
-- Which processes src/runtime.rs lets use a loaded module.
use fogws.Prelude.{
  ℕ, ◌≡◌, refl, ◌⊎◌, inl, inr, Option, none, some, Result, ok, err, List, [], ◌∷◌, map, ◌==◌,
  if◌then◌else◌, arith,
}
use fogws.Python.{PyErr, Interpreter}
use fogws.Runtime.{
  or_import, extract_interpreter_id, claim_or_validate_process, ensure_current_process, after_fork,
  in_subinterpreter, validate_import_context, ensure_main_interpreter,
}

-- Calls of `ensure_current_process` one after the other, each from the process named, down one line of
-- forks: the cell is inherited.
pub calls : Option ℕ → List ℕ → Option ℕ × List (Result (Unit {0}) PyErr)
unfolding ensure_current_process
calls cell [] = (cell, [])
calls cell (process ∷ processes) =
    let now = ensure_current_process process cell in
    let rest = calls now.0 processes in (rest.0, now.1 ∷ rest.1)

-- What a call of a process gets, once the owner is known.
abbrev pub verdict : ℕ → ℕ → Result (Unit {0}) PyErr
verdict owner process = if process == owner then ok tt else err after_fork

validate_owned :
    (owner process : ℕ)
    → claim_or_validate_process process (some owner) ≡ (some owner, verdict owner process)
unfolding claim_or_validate_process
validate_owned owner process = ground arith

calls_owned :
    (owner : ℕ) (processes : List ℕ)
    → calls (some owner) processes ≡ (some owner, map (verdict owner) processes)
unfolding calls ensure_current_process
calls_owned owner [] = refl
calls_owned owner (q ∷ qs) = cc (validate_owned owner q, calls_owned owner qs)

-- Of the calls one after the other down one line of forks, the process that calls first owns the
-- runtime for good: its calls succeed, and every call of another process is refused with the error
-- for a fork.
pub first_process_owns :
    (owner : ℕ) (processes : List ℕ)
    → calls none (owner ∷ processes) ≡ (some owner, ok tt ∷ map (verdict owner) processes)
unfolding calls ensure_current_process claim_or_validate_process
first_process_owns owner processes = ground (arith, calls_owned owner processes)

-- The number of an identity: of the first entry of a tuple, or of the object itself.
abbrev pub Identifies : (py : Interpreter) → py.Object → ℕ → Type 0
Identifies py identity n =
    ((details : py.Object) × (item : py.Object) × (py.cast_tuple identity ≡ some details)
      × (py.get_item details 0 ≡ ok item)
      × (py.extract_i64 item ≡ ok n))
    ⊎ ((index : py.Object) × (py.cast_tuple identity ≡ none)
        × (py.call_method0 identity "__index__" ≡ ok index)
        × (py.extract_i64 index ≡ ok n))

-- The interpreter in which the code runs and the main one, by what the module says, under either of
-- its names.
pub record Runs (py : Interpreter) (current main : ℕ) : Type 0 where
  pub interpreters : py.Object
  pub imported :
      or_import py (py.import_module "_interpreters") "_xxsubinterpreters" ≡ ok interpreters
  pub current_identity : py.Object
  pub main_identity : py.Object
  pub get_current : py.call_method0 interpreters "get_current" ≡ ok current_identity
  pub get_main : py.call_method0 interpreters "get_main" ≡ ok main_identity
  pub current_number : Identifies py current_identity current
  pub main_number : Identifies py main_identity main

extract_interpreter_id-ok :
    (py : Interpreter) (identity : py.Object) (n : ℕ)
    → Identifies py identity n
    → extract_interpreter_id py identity ≡ ok n
unfolding extract_interpreter_id
extract_interpreter_id-ok py identity n (inl (details, item, t, g, e)) = ground arith
extract_interpreter_id-ok py identity n (inr (index, t, g, e)) = ground arith

ensure_main_interpreter_lem :
    (py : Interpreter) (current main : ℕ)
    → Runs py current main
    → ensure_main_interpreter py ≡ (if current == main then ok tt else err in_subinterpreter)
unfolding ensure_main_interpreter
ensure_main_interpreter_lem py current main r =
    let c = extract_interpreter_id-ok py r.current_identity current r.current_number in
    let m = extract_interpreter_id-ok py r.main_identity main r.main_number in
    rw (r.imported, r.get_current, c, r.get_main, m)

-- An import into a subinterpreter is refused before the module takes its process for the owner; in
-- the main interpreter the process decides.
pub import_needs_main :
    (py : Interpreter) (current main : ℕ)
    → Runs py current main
    → (process : ℕ) (cell : Option ℕ)
    → validate_import_context py process cell ≡ (
        if current == main
        then claim_or_validate_process process cell
        else (cell, err in_subinterpreter))
unfolding validate_import_context
import_needs_main py current main r process cell =
    ground (arith, ensure_main_interpreter_lem py current main r)
