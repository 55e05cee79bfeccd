-- ===== src/Tests/Interpreting.antt =====
-- The client, the runtime and the Python bindings at concrete inputs.
use Prim.Native.String.{String}
use text.Mathlib.Text.{◌==◌ as str_eq}
use fogws.Prelude.{
  map, ◌≢◌, ◌↔◌, arith, true, ℕ, ◌≡◌, ◌⊎◌, inr, refl, Bool, none, some, ok, err, List, [], ◌∷◌,
  if◌then◌else◌,
}
use fogws.Error.{DriverError, connection_failed}
use fogws.Config.{WebSocketConfig, websocket_config, default}
use fogws.Python.{PyErr, Interpreter, new_err, other}
use fogws.Client.Port.{has_invalid_port_iff}
use fogws.Client.{Authority, has_invalid_port, Handshake, connect}
use fogws.Client.Attempts.{Attempt, NoAttempt, connect_once}
use fogws.Runtime.{validate_import_context, in_subinterpreter}
use fogws.Runtime.Owner.{Runs, import_needs_main, calls, verdict, first_process_owns}

-- A parser that knows every URI, and a peer that accepts one of them.
abbrev peer : Handshake
peer = record {
  Request = Bool;
  Socket = ℕ;
  into_client_request = λ uri. ok (str_eq uri "ws://a");
  scheme_str = λ r. some "ws";
  authority = λ r. none;
  connect_async_with_config = λ r settings. if r then ok 7 else err "refused";
}

abbrev settings : WebSocketConfig
settings = websocket_config 64 default

abbrev one_attempt : Bool → List (Bool × WebSocketConfig)
one_attempt request = (request, settings) ∷ []

abbrev unreachable : DriverError
unreachable = connection_failed "WebSocket connection failed: refused"

connect_once_example :
    Attempt peer 64 "ws://a" default (connect peer 64 "ws://a" default)
    ⊎ NoAttempt peer "ws://a" (connect peer 64 "ws://a" default)
connect_once_example = connect_once peer 64 "ws://a" default

-- The authority `u@a:`, of which the parser reports the host `a` and no port.
abbrev no_digits : Authority
no_digits = record { as_str = b'u' ∷ b'@' ∷ b'a' ∷ b':' ∷ []; host = b'a' ∷ []; port_u16 = none }

has_invalid_port_iff_example :
    (has_invalid_port no_digits ≡ true)
    ↔ ((◌≢◌ {A = List ℕ} (b':' ∷ []) []) × (no_digits.port_u16 ≡ none))
has_invalid_port_iff_example =
    has_invalid_port_iff no_digits (b'u' ∷ b'@' ∷ []) (b':' ∷ []) (inr (b'u' ∷ [], refl))
      (omega arith, (omega arith, tt)) refl

abbrev missing : PyErr
unfolding new_err
missing = new_err (other "ModuleNotFoundError") "No module named '_interpreters'"

abbrev is_main : String → Bool
is_main name = str_eq name "get_main"

-- The objects are numbers. The module has its old name, the current interpreter is the number 3, and
-- identities are plain numbers.
abbrev sub : Interpreter
sub = record {
  Object = ℕ;
  import_module = λ name. if str_eq name "_interpreters" then err missing else ok 9;
  call_method0 = λ o name.
      if str_eq name "__index__" then ok o else if str_eq name "get_main" then ok 0 else ok 3;
  cast_tuple = λ o. none;
  get_item = λ o n. err missing;
  extract_i64 = λ o. ok o;
}

sub-Runs : Runs sub 3 0
sub-Runs = record {
  interpreters = 9;
  imported = refl;
  current_identity = 3;
  main_identity = 0;
  get_current = refl;
  get_main = refl;
  current_number = inr (3, refl, refl, refl);
  main_number = inr (0, refl, refl, refl);
}

-- No owner is taken.
import_into_sub : validate_import_context sub 100 none ≡ (none, err in_subinterpreter)
import_into_sub = import_needs_main sub 3 0 sub-Runs 100 none

first_process_owns_example :
    calls none (100 ∷ 101 ∷ 100 ∷ []) ≡ (some 100, ok tt ∷ map (verdict 100) (101 ∷ 100 ∷ []))
first_process_owns_example = first_process_owns 100 (101 ∷ 100 ∷ [])
