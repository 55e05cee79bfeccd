-- ===== src/Bindings/Futures.antt =====
-- What the futures of src/py.rs give to Python: the value of a call, or the exception that it raises.
pub mod Outcomes
use fogws.Prelude.{ℕ, String, Option, some, none, Result, ok, err, ◌>>=◌, List}
use fogws.Error.{DriverError}
use fogws.Python.{PyErr, Attribute}
use fogws.Driver.State.{InboundMessage}
use fogws.Bindings.Connection.{PyText, raised}

-- The objects that pyo3 makes of the results: `into_py_any` of a text, `PyBytes::new`, and the object of
-- a `()`.
pub record Objects : Type 1 where
  pub Object : Type 0
  pub into_py_any : String → Result Object PyErr
  pub py_bytes : List ℕ → Object
  pub none_object : Object

-- A connection as Python holds it: its driver, until it is finalized, and its loop.
pub record PyConnection (Driver : Type 0) : Type 0 where
  pub driver : Option Driver
  pub owner_loop : ℕ

module _ (py : Objects) where
  open py use {Object, into_py_any, py_bytes, none_object}

  unfoldable pub message_to_python : InboundMessage → Result Object PyErr
  message_to_python (InboundMessage.text payload) = into_py_any payload
  message_to_python (InboundMessage.binary payload) = ok (py_bytes payload)

  -- The ends of the futures of `send_text` and `send_bytes`, of `receive`, and of `close`, by what the
  -- driver's call gave.
  module _ (setattr : Attribute → PyErr → Option PyErr) where
    unfoldable pub send_value : Result (Unit {0}) DriverError → Result Object PyErr
    send_value result = raised setattr result >>= λ _. ok none_object

    unfoldable pub receive_value : Result InboundMessage DriverError → Result Object PyErr
    unfolding message_to_python
    receive_value result = raised setattr result >>= message_to_python

    unfoldable pub close_value : Result (Unit {0}) DriverError → Result Object PyErr
    close_value result = raised setattr result >>= λ _. ok none_object

-- The end of the future of `connect`.
unfoldable pub connect_value :
    (Attribute → PyErr → Option PyErr)
    → {Driver : Type 0} → ℕ
    → Result Driver DriverError
    → Result (PyConnection Driver) PyErr
connect_value setattr owner_loop result = raised setattr result >>= λ driver.
    ok (record { driver = some driver; owner_loop = owner_loop })
