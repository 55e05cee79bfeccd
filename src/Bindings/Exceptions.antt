-- ===== src/Bindings/Exceptions.antt =====
-- The exceptions of src/py.rs: `driver_error_to_python` and `attach_close_info`.
pub mod Classes
use fogws.Prelude.{ℕ, String, Bool, Option, none, some}
use fogws.Error.{
  CloseInfo, DriverError, closed_error, closed_ok, concurrency, connection_failed, invalid_uri,
  resource_limit, transport, describe,
}
use fogws.Python.{
  ExceptionClass, connection_closed_error, connection_closed_ok, concurrency_error,
  connection_failed_error, invalid_uri_error, resource_limit_error, PyErr, new_err, Attribute,
  set_code, set_reason, set_initiated_by_local, with_attribute,
}

-- `setattr` on an exception: the error that it raises, if any. Otherwise the attribute is set.
module _ (setattr : Attribute → PyErr → Option PyErr) where
  -- The rest runs if the attribute could be set; `?` ends with the error of `setattr`.
  abbrev set_then : Attribute → PyErr → (PyErr → PyErr) → PyErr
  set_then attribute error rest = elim (setattr attribute error) [
    | some attribute_error ↦ attribute_error
    | none ↦ rest (with_attribute attribute error)
  ]

  unfoldable pub attach_close_info : PyErr → Option ℕ → String → Option Bool → PyErr
  attach_close_info error code reason initiated_by_local = set_then (set_code code) error λ coded.
      set_then (set_reason reason) coded
        λ told. set_then (set_initiated_by_local initiated_by_local) told λ done. done

  unfoldable pub driver_error_to_python : DriverError → PyErr
  unfolding attach_close_info new_err describe
  driver_error_to_python (closed_error info) =
      attach_close_info (new_err connection_closed_error (describe info)) info.code info.reason
        (some info.initiated_by_local)
  driver_error_to_python (closed_ok info) =
      attach_close_info (new_err connection_closed_ok (describe info)) info.code info.reason
        (some info.initiated_by_local)
  driver_error_to_python (concurrency message) = new_err concurrency_error message
  driver_error_to_python (connection_failed message) = new_err connection_failed_error message
  driver_error_to_python (invalid_uri message) = new_err invalid_uri_error message
  driver_error_to_python (resource_limit message) = new_err resource_limit_error message
  driver_error_to_python (transport message) =
      attach_close_info (new_err connection_closed_error message) none "" none
