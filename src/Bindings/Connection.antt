-- ===== src/Bindings/Connection.antt =====
-- The class `PyConnection` of src/py.rs and the function `connect`. An event loop is known by its
-- identity, a number. A call that may start native work returns what it hands to the runtime.
use Prim.Native.String
use Prim.Native.String.{len}
use fogws.Prelude.{
  ℕ, String, Bool, Option, none, some, Result, ok, err, ◌>>=◌, ◌>>◌, map_err, List, [], ◌∷◌, length,
  ◌==◌, if◌then◌else◌,
}
use fogws.Error.{DriverError}
use fogws.Config.{
  ConnectionConfig, new, default_max_queue, default_max_message_size, default_max_buffered_bytes,
}
use fogws.Tokio.Semaphore.{Semaphore}
use fogws.Tokio.Mpsc.{Mpsc}
use fogws.Python.{PyErr, new_err, loop_affinity_error, resource_limit_error, Attribute}
use fogws.Runtime.{ensure_current_process, is_owner_process}
use fogws.Driver.Wire.{Message, text, binary}
use fogws.Driver.State.{DriverState}
use fogws.Driver.Admission.{
  OutboundAdmission, Outbound, validate_outbound_message, try_admit_outbound,
}
use fogws.Bindings.Exceptions.{driver_error_to_python}

-- Where a call of Python runs: the process, what it knows of the owner, and the loop that runs, if any.
pub record Context : Type 0 where
  pub process : ℕ
  pub owner_process : Option ℕ
  pub running_loop : Option ℕ

abbrev pub no_loop : PyErr
unfolding new_err
no_loop =
    new_err loop_affinity_error
      "FogWS async operations must be called from a running asyncio event loop"

abbrev pub wrong_loop : PyErr
unfolding new_err
wrong_loop =
    new_err loop_affinity_error
      "connection operations must run on the asyncio loop that created the connection"

unfoldable pub current_loop : Option ℕ → Result ℕ PyErr
current_loop none = err no_loop
current_loop (some running) = ok running

-- With the cell of the owner's process after it.
unfoldable pub ensure_loop_affinity : Context → ℕ → Option ℕ × Result (Unit {0}) PyErr
unfolding ensure_current_process current_loop
ensure_loop_affinity c owner_loop =
    let now = ensure_current_process c.process c.owner_process in
    (
      now.0,
      do
        now.1
        running ← current_loop c.running_loop
        if running == owner_loop then ok tt else err wrong_loop,
    )

-- `_ensure_context`.
unfoldable pub ensure_context : Context → ℕ → Option ℕ × Result (Unit {0}) PyErr
unfolding ensure_loop_affinity
ensure_context c owner_loop = ensure_loop_affinity c owner_loop

-- A Python string: its number of characters and its UTF-8 text, either of which Python may refuse.
pub record PyText : Type 0 where
  pub chars : Result ℕ PyErr
  pub to_str : Result String PyErr

-- What a driver's state is at its three reads during a send: by the first check, by the admission, and
-- when a closed queue is reported.
pub record Reads : Type 0 where
  pub checked : DriverState
  pub before : DriverState
  pub after : DriverState

-- The futures that are handed to the runtime.
pub data Future (sem : Semaphore) : Type 0 where
  sending : OutboundAdmission sem → Message → Future sem
  receiving : Future sem
  closing : Future sem

module _ (setattr : Attribute → PyErr → Option PyErr) where
  abbrev pub raised {ℓ} : {A : Type ℓ} → Result A DriverError → Result A PyErr
  raised r = map_err (driver_error_to_python setattr) r

  module _ (sem : Semaphore) (chan : Mpsc) (config : ConnectionConfig) where
    -- The end of a send: the admission, and the future that takes it.
    abbrev pub admitted_future :
        Message
        → Outbound sem chan × Result (OutboundAdmission sem) DriverError
        → Outbound sem chan × Result (Future sem) PyErr
    admitted_future message (out, admission) =
        (out, raised admission >>= λ a. ok (sending a message))

    -- `send_text` and `send_bytes` once the context is right.
    unfoldable pub start_text :
        Reads → PyText → Outbound sem chan → Outbound sem chan × Result (Future sem) PyErr
    start_text reads payload out =
        elim (payload.chars >>= λ n.
        raised (validate_outbound_message sem chan config reads.checked n) >> payload.to_str) [
          | err error ↦ (out, err error)
          | ok s ↦
              admitted_future (text s)
                (try_admit_outbound sem chan config reads.before reads.after (len s) out)
        ]

    unfoldable pub start_bytes :
        Reads → List ℕ → Outbound sem chan → Outbound sem chan × Result (Future sem) PyErr
    start_bytes reads payload out =
        admitted_future (binary payload)
          (try_admit_outbound sem chan config reads.before reads.after (length payload) out)

    -- What a guarded call leaves: the cell of the owner's process, the queue and budget, and the result.
    pub record Called : Type 0 where
      pub owner_process : Option ℕ
      pub out : Outbound sem chan
      pub result : Result (Future sem) PyErr

    abbrev guarded :
        Context
        → ℕ
        → Outbound sem chan
        → (Unit {0} → Outbound sem chan × Result (Future sem) PyErr)
        → Called
    guarded c owner_loop out body =
        let guard = ensure_loop_affinity c owner_loop in
        elim guard.1 [
          | err error ↦ record { owner_process = guard.0; out = out; result = err error }
          | ok _ ↦
              let done = body tt in
              record { owner_process = guard.0; out = done.0; result = done.1 }
        ]

    unfoldable pub send_text : Context → ℕ → Reads → PyText → Outbound sem chan → Called
    send_text c owner_loop reads payload out =
        guarded c owner_loop out (λ _. start_text reads payload out)

    unfoldable pub send_bytes : Context → ℕ → Reads → List ℕ → Outbound sem chan → Called
    send_bytes c owner_loop reads payload out =
        guarded c owner_loop out (λ _. start_bytes reads payload out)

    unfoldable pub receive : Context → ℕ → Outbound sem chan → Called
    receive c owner_loop out = guarded c owner_loop out (λ _. (out, ok receiving))

    unfoldable pub close : Context → ℕ → Outbound sem chan → Called
    close c owner_loop out = guarded c owner_loop out (λ _. (out, ok closing))

-- What `_abort` does, in order.
pub data Action : Type 0 where
  cancel_pending_receive abort_driver : Action

unfoldable pub abort_actions : Context → Bool → List Action
unfolding is_owner_process
abort_actions c pending_receive =
    if is_owner_process c.process c.owner_process
    then if pending_receive then cancel_pending_receive ∷ abort_driver ∷ [] else abort_driver ∷ []
    else []

-- The drop of a connection drops its driver, or forgets it.
pub data Finalized : Type 0 where
  driver_dropped driver_forgotten : Finalized

unfoldable pub drop_connection : Context → Finalized
unfolding is_owner_process
drop_connection c =
    if is_owner_process c.process c.owner_process then driver_dropped else driver_forgotten

-- The future of `connect` and the loop that it is for.
pub record Connecting : Type 0 where
  pub uri : String
  pub config : ConnectionConfig
  pub owner_loop : ℕ

-- A limit that Python gives, with its conversion to `usize`.
module _ {Object : Type 0} (extract_usize : Object → Option ℕ) where
  unfoldable pub extract_limit : Option Object → String → ℕ → Result ℕ PyErr
  unfolding new_err
  extract_limit none name default = ok default
  extract_limit (some value) name default = elim (extract_usize value) [
    | some limit ↦ ok limit
    | none ↦ err (
        new_err resource_limit_error
          (String.◌++◌ name " must be a non-negative platform-sized integer"))
  ]

  module _ (setattr : Attribute → PyErr → Option PyErr) {F64 : Type 0}
      (try_from_secs_f64 : F64 → Option ℕ) (max_permits : ℕ) where
    unfoldable pub connect :
        Context
        → String
        → Option Object
        → Option Object
        → Option Object
        → F64
        → Option ℕ × Result Connecting PyErr
    connect c uri max_queue max_message_size max_buffered_bytes close_timeout =
        let now = ensure_current_process c.process c.owner_process in
        (
          now.0,
          do
            now.1
            owner_loop ← current_loop c.running_loop
            queue ← extract_limit max_queue "max_queue" default_max_queue
            size ← extract_limit max_message_size "max_message_size" default_max_message_size
            bytes ← extract_limit max_buffered_bytes "max_buffered_bytes" default_max_buffered_bytes
            config ←
                raised setattr (new try_from_secs_f64 max_permits queue size bytes close_timeout)
            ok (record { uri = uri; config = config; owner_loop = owner_loop }),
        )
