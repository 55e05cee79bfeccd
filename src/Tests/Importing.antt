-- ===== src/Tests/Importing.antt =====
-- Imports of the module, and the values of futures, at concrete inputs.
use fogws.Prelude.{ℕ, String, ◌≡◌, ◌⊎◌, inr, refl, Option, none, Result, ok, err, List}
use fogws.Error.{DriverError}
use fogws.Python.{PyErr, Interpreter, new_err, other}
use fogws.Runtime.Owner.{Runs}
use fogws.Module.{Registration, import_fogws}
use fogws.Module.Importing.{MayOwn, IsImported, IsRefused, import_complete_or_refused}
use fogws.Driver.State.{closed}
use fogws.Driver.Store.{view}
use fogws.Bindings.Futures.{Objects, close_value}
use fogws.Bindings.Futures.Outcomes.{Gives, awaited_close}
use fogws.Tests.Samples.{cell, wire}
use fogws.Tests.Binding.{sets}
use fogws.Tests.Connection.{fully_closed, closer, first_closer}

abbrev unasked : PyErr
unfolding new_err
unasked = new_err (other "TypeError") ""

-- The main interpreter: every identity is the number 0.
abbrev home : Interpreter
home = record {
  Object = ℕ;
  import_module = λ name. ok 9;
  call_method0 = λ o name. ok 0;
  cast_tuple = λ o. none;
  get_item = λ o n. err unasked;
  extract_i64 = λ o. ok o;
}

home-Runs : Runs home 0 0
home-Runs = record {
  interpreters = 9;
  imported = refl;
  current_identity = 0;
  main_identity = 0;
  get_current = refl;
  get_main = refl;
  current_number = inr (0, refl, refl, refl);
  main_number = inr (0, refl, refl, refl);
}

abbrev nothing_fails : Registration → Option PyErr
nothing_fails r = none

import_complete_or_refused_example :
    (((◌≡◌ {A = ℕ} 0 0) × MayOwn none 100)
      × IsImported (import_fogws nothing_fails home "0.0.1" 100 none) "0.0.1" 100)
    ⊎ ((¬ ((◌≡◌ {A = ℕ} 0 0) × MayOwn none 100))
        × IsRefused (import_fogws nothing_fails home "0.0.1" 100 none) none)
import_complete_or_refused_example =
    import_complete_or_refused nothing_fails (λ r. refl) home 0 0 home-Runs "0.0.1" 100 none

data Python : Type 0 where
  str : String → Python
  bytes : List ℕ → Python
  none_value : Python

abbrev not_a_str : Result ℕ PyErr
not_a_str = err unasked

abbrev python : Objects
python = record {
  Object = Python;
  into_py_any = λ s. ok (str s);
  py_bytes = bytes;
  none_object = none_value;
}

awaited_close_example :
    (e : DriverError) × ((view cell fully_closed.last.store).state ≡ closed e)
    × Gives python sets e (close_value python sets (ok tt))
awaited_close_example =
    awaited_close python sets cell wire 8 fully_closed.reach closer first_closer refl (ok tt) refl
