-- ===== src/Bindings/Futures/Outcomes.antt =====
-- What Python gets from a `close` and from a `receive` of src/py.rs, by the outcome of the connection.
use fogws.Prelude.{ℕ, ◌≡◌, refl, ◌⊎◌, inl, inr, Option, Result, ok, err}
use fogws.Error.{DriverError, closed_ok}
use fogws.Tokio.{Watch}
use fogws.Python.{PyErr, Attribute}
use fogws.Driver.Wire.{Tungstenite}
use fogws.Driver.State.{closed, close_result}
use fogws.Driver.Task.{done}
use fogws.Driver.Logic.{caller}
use fogws.Driver.Store.{view}
use fogws.Driver.System.{Thread, System, Reach, start, close_returned}
use fogws.Driver.System.Outcomes.{Holds, close_returns_outcome}
use fogws.Bindings.Exceptions.{driver_error_to_python}
use fogws.Bindings.Futures.{Objects, close_value}

-- A clean close is no error of `close`.
abbrev pub IsClean : DriverError → Type 0
IsClean (closed_ok _) = Unit
IsClean _ = ⊥

module _ (py : Objects) (setattr : Attribute → PyErr → Option PyErr) where
  -- The value of a `close` for a final outcome.
  abbrev pub Gives : DriverError → Result py.Object PyErr → Type 0
  Gives e value =
      (IsClean e × (value ≡ ok py.none_object))
      ⊎ (¬ IsClean e × (value ≡ err (driver_error_to_python setattr e)))

  value-Gives : (e : DriverError) → Gives e (close_value py setattr (close_result e))
  unfolding close_value close_result
  value-Gives (closed_ok info) = inl (tt, refl)
  value-Gives e = inr (λ h. h, refl)

  -- A call of `close` that has returned gives Python `None` if the connection's final outcome is a
  -- clean close, and otherwise raises the exception that stands for that outcome.
  pub awaited_close :
      (t : Watch) (w : Tungstenite) (fuel : ℕ) {s : System t}
      → Reach t (start t w fuel) s
      → (th : Thread) → Holds s.others th
      → th.role ≡ caller
      → (result : Result (Unit {0}) DriverError) → th.prog ≡ done (close_returned result)
      → (e : DriverError) × ((view t s.store).state ≡ closed e)
        × Gives e (close_value py setattr result)
  awaited_close t w fuel r th place role result ended =
      let (e, is_closed, same) = close_returns_outcome t w fuel r th place role result ended in
      (e, is_closed, rw same (value-Gives e))
