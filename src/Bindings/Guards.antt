-- ===== src/Bindings/Guards.antt =====
-- The guards of src/py.rs: what a call from another process or another loop does.
use fogws.Prelude.{
  ℕ, ◌≡◌, ◌≢◌, arith, Bool, Option, none, some, err, List, [], inl, inr, ap, Option-cases,
}
use fogws.Config.{ConnectionConfig}
use fogws.Tokio.Semaphore.{Semaphore}
use fogws.Tokio.Mpsc.{Mpsc}
use fogws.Python.{PyErr, Attribute, loop_affinity_error, new_err}
use fogws.Runtime.{after_fork, claim_or_validate_process}
use fogws.Driver.Admission.{Outbound}
use fogws.Bindings.Connection.{
  Context, wrong_loop, no_loop, ensure_loop_affinity, ensure_context, PyText, Reads, Called,
  send_text, send_bytes, receive, close, abort_actions, drop_connection, driver_forgotten,
}

affinity_fork :
    (c : Context) (owner_loop owner : ℕ)
    → c.owner_process ≡ some owner
    → owner ≢ c.process
    → ensure_loop_affinity c owner_loop ≡ (some owner, err after_fork)
unfolding ensure_loop_affinity claim_or_validate_process
affinity_fork c owner_loop owner e other = ground arith

-- The error of a call from no loop, or from another one than the connection's.
abbrev pub loop_error : Option ℕ → PyErr
loop_error none = no_loop
loop_error (some other_loop) = wrong_loop

affinity_loop :
    (c : Context) (owner_loop : ℕ)
    → c.owner_process ≡ some c.process
    → c.running_loop ≢ some owner_loop
    → ensure_loop_affinity c owner_loop ≡ (some c.process, err (loop_error c.running_loop))
unfolding ensure_loop_affinity claim_or_validate_process
affinity_loop c owner_loop e other = elim (Option-cases c.running_loop) [
  | inl nothing ↦ ground arith
  | inr (l, some_loop) ↦ ground (arith, other_number l owner_loop)
]
  where
    other_number : (l o : ℕ) → l ≡ o → some l ≡ some o
    other_number l o h = ap some h

module _ (setattr : Attribute → PyErr → Option PyErr) (sem : Semaphore) (chan : Mpsc)
    (config : ConnectionConfig) where
  -- Nothing is started, and nothing but the record of the owner is touched.
  abbrev pub refused : Option ℕ → PyErr → Outbound sem chan → Called setattr sem chan config
  refused cell error out = record { owner_process = cell; out = out; result = err error }

  -- Every operation of a connection, and the check of its context, is refused in one way.
  abbrev pub RefusesAll :
      Context → ℕ → Reads → PyText → List ℕ → Outbound sem chan → Option ℕ → PyErr → Type 0
  RefusesAll c owner_loop reads payload bytes out cell error =
      (send_text setattr sem chan config c owner_loop reads payload out ≡ refused cell error out)
      × (send_bytes setattr sem chan config c owner_loop reads bytes out ≡ refused cell error out)
      × (receive setattr sem chan config c owner_loop out ≡ refused cell error out)
      × (close setattr sem chan config c owner_loop out ≡ refused cell error out)
      × (ensure_context c owner_loop ≡ (cell, err error))

  refuses_all :
      (c : Context) (owner_loop : ℕ) (reads : Reads) (payload : PyText) (bytes : List ℕ)
      (out : Outbound sem chan) (cell : Option ℕ) (error : PyErr)
      → ensure_loop_affinity c owner_loop ≡ (cell, err error)
      → RefusesAll c owner_loop reads payload bytes out cell error
  unfolding send_text send_bytes receive close ensure_context
  refuses_all c owner_loop reads payload bytes out cell error h =
      (ground arith, ground arith, ground arith, ground arith, h)

  -- In a process that does not own the module, every operation of a connection is refused with the
  -- error for a fork and touches neither queue nor budget, an abort does nothing, not even to a pending
  -- receive, and the drop of the connection leaves its driver alone.
  pub forked_process_refused :
      (c : Context) (owner_loop owner : ℕ) (reads : Reads) (payload : PyText) (bytes : List ℕ)
      (out : Outbound sem chan) (pending_receive : Bool)
      → c.owner_process ≡ some owner
      → owner ≢ c.process
      → RefusesAll c owner_loop reads payload bytes out (some owner) after_fork
        × (abort_actions c pending_receive ≡ [])
        × (drop_connection c ≡ driver_forgotten)
  unfolding abort_actions drop_connection
  forked_process_refused c owner_loop owner reads payload bytes out pending_receive e other = (
    refuses_all c owner_loop reads payload bytes out (some owner) after_fork
        (affinity_fork c owner_loop owner e other),
    ground arith,
    ground arith,
  )

  -- In the owner's process, but on another loop than the connection's or on none, every operation is
  -- refused with a `LoopAffinityError` and touches neither queue nor budget.
  pub other_loop_refused :
      (c : Context) (owner_loop : ℕ) (reads : Reads) (payload : PyText) (bytes : List ℕ)
      (out : Outbound sem chan)
      → c.owner_process ≡ some c.process
      → c.running_loop ≢ some owner_loop
      → RefusesAll c owner_loop reads payload bytes out (some c.process) (loop_error c.running_loop)
        × ((loop_error c.running_loop).kind ≡ loop_affinity_error)
  unfolding new_err
  other_loop_refused c owner_loop reads payload bytes out e other = (
    refuses_all c owner_loop reads payload bytes out (some c.process) (loop_error c.running_loop)
        (affinity_loop c owner_loop e other),
    ground arith,
  )
