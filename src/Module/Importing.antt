-- ===== src/Module/Importing.antt =====
-- Where the module of src/lib.rs can be imported, and what an import that is refused leaves.
use fogws.Prelude.{
  ℕ, Bool-cases, String, ◌≡◌, refl, ap, ◌⊎◌, inl, inr, arith, Option, none, some, Result, ok, err,
  List, [], ◌∷◌, ◌++◌, ◌==◌,
}
use fogws.Python.{PyErr, Interpreter}
use fogws.Runtime.{
  validate_import_context, claim_or_validate_process, in_subinterpreter, after_fork,
}
use fogws.Runtime.Owner.{Runs, import_needs_main}
use fogws.Module.{
  Registration, registrations, add, version, configure, perform_all, register, Imported,
  import_fogws,
}

-- The process that may use the module: the owner, or any while there is none.
abbrev pub MayOwn : Option ℕ → ℕ → Type 0
MayOwn none process = Unit
MayOwn (some owner) process = owner ≡ process

-- The module is complete.
pub record IsImported (m : Imported) (cargo_version : String) (process : ℕ) : Type 0 where
  pub owned : m.owner_process ≡ some process
  pub all_registered :
      m.registered ≡ registrations ++ (add "__version__" (version cargo_version) ∷ [])
  pub configured : m.runtime ≡ some configure
  pub succeeds : m.result ≡ ok tt

-- Nothing has been added, no runtime is configured, and the owner is who it was.
pub record IsRefused (m : Imported) (cell : Option ℕ) : Type 0 where
  pub same_owner : m.owner_process ≡ cell
  pub nothing_registered : m.registered ≡ []
  pub no_runtime : m.runtime ≡ none
  pub raises : (error : PyErr) × (m.result ≡ err error)

perform_all-ok :
    (perform : Registration → Option PyErr) (rs : List Registration)
    → ((r : Registration) → perform r ≡ none)
    → perform_all perform rs ≡ (rs, ok tt)
unfolding perform_all
perform_all-ok perform [] none_fails = refl
perform_all-ok perform (r ∷ rs) none_fails =
    ground (arith, none_fails r, perform_all-ok perform rs none_fails)

record Refuses (context : Option ℕ × Result (Unit {0}) PyErr) (cell : Option ℕ) : Type 0 where
  error : PyErr
  same : context ≡ (cell, err error)

owner-cases :
    (cell : Option ℕ) (process : ℕ)
    → (MayOwn cell process × (claim_or_validate_process process cell ≡ (some process, ok tt)))
      ⊎ ((¬ MayOwn cell process) × Refuses (claim_or_validate_process process cell) cell)
unfolding claim_or_validate_process
owner-cases none process = inl (tt, ground arith)
owner-cases (some owner) process = elim (Bool-cases (owner == process)) [
  | inl same ↦ inl (ground arith, ground arith)
  | inr other ↦ inr (ground arith, record { error = after_fork; same = ground arith })
]

context-cases :
    (py : Interpreter) (current main : ℕ)
    → Runs py current main
    → (process : ℕ) (cell : Option ℕ)
    → ((current ≡ main)
        × MayOwn cell process
        × (validate_import_context py process cell ≡ (some process, ok tt)))
      ⊎ ((¬ ((current ≡ main) × MayOwn cell process))
          × Refuses (validate_import_context py process cell) cell)
context-cases py current main runs process cell = elim (Bool-cases (current == main)) [
  | inl same ↦ elim (owner-cases cell process) [
    | inl (may, e) ↦
        inl (ground arith, may, ground (arith, import_needs_main py current main runs process cell))
    | inr (refuses, r) ↦ inr (
      λ h. refuses h.1,
      record {
        error = r.error;
        same = ground (arith, r.same, import_needs_main py current main runs process cell);
      },
    )
  ]
  | inr other ↦ inr (
    λ h. ground arith,
    record {
      error = in_subinterpreter;
      same = ground (arith, import_needs_main py current main runs process cell);
    },
  )
]

complete :
    (perform : Registration → Option PyErr)
    → ((r : Registration) → perform r ≡ none)
    → (py : Interpreter) (cargo_version : String) (process : ℕ) (cell : Option ℕ)
    → validate_import_context py process cell ≡ (some process, ok tt)
    → IsImported (import_fogws perform py cargo_version process cell) cargo_version process
unfolding import_fogws register
complete perform none_fails py cargo_version process cell e =
    let last = add "__version__" (version cargo_version) ∷ [] in
    rw
      (
        import_fogws,
        register,
        e,
        perform_all-ok perform registrations none_fails,
        perform_all-ok perform last none_fails,
      )
      (record {
        owned = ap (λ x. x.0) e;
        all_registered = ap (λ x. x.0 ++ last) (perform_all-ok perform registrations none_fails);
        configured = refl;
        succeeds = refl;
      })

refused :
    (perform : Registration → Option PyErr) (py : Interpreter) (cargo_version : String)
    (process : ℕ) (cell : Option ℕ)
    → Refuses (validate_import_context py process cell) cell
    → IsRefused (import_fogws perform py cargo_version process cell) cell
unfolding import_fogws
refused perform py cargo_version process cell r =
    rw (import_fogws, r.same)
      (record {
        same_owner = ap (λ x. x.0) r.same;
        nothing_registered = refl;
        no_runtime = refl;
        raises = (r.error, refl);
      })

-- Where nothing that pyo3 is asked for raises an error, an import into the main interpreter of the
-- process that owns the module, or of any process while none does, makes the process the owner, adds
-- everything and configures the runtime; every other import raises an error, adds nothing, configures no
-- runtime, and leaves the owner who it was, or none.
pub import_complete_or_refused :
    (perform : Registration → Option PyErr)
    → ((r : Registration) → perform r ≡ none)
    → (py : Interpreter) (current main : ℕ) → Runs py current main
    → (cargo_version : String) (process : ℕ) (cell : Option ℕ)
    → (((current ≡ main) × MayOwn cell process)
        × IsImported (import_fogws perform py cargo_version process cell) cargo_version process)
      ⊎ ((¬ ((current ≡ main) × MayOwn cell process))
          × IsRefused (import_fogws perform py cargo_version process cell) cell)
import_complete_or_refused perform none_fails py current main runs cargo_version process cell =
    elim (context-cases py current main runs process cell) [
      | inl (same, may, e) ↦
          inl ((same, may), complete perform none_fails py cargo_version process cell e)
      | inr (refuses, r) ↦ inr (refuses, refused perform py cargo_version process cell r)
    ]
