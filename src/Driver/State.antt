-- ===== src/Driver/State.antt =====
-- src/driver.rs: the driver's states and signals, the closures that it hands to the watch channels,
-- and the pure functions on outcomes. A closure for `send_if_modified` returns the new value and
-- whether it reports a change.
pub mod Outcomes
use Prim.Native.String
use fogws.Prelude.{
  ℕ, String, List, Bool, true, false, Option, none, some, Result, ok, err, if◌then◌else◌,
}
use fogws.Error.{
  CloseInfo, DriverError, closed_error, closed_ok, concurrency, connection_failed, invalid_uri,
  resource_limit, transport, local_normal,
}
use fogws.Driver.Wire.{CloseCode, normal, away, CloseFrame, Tungstenite}

pub data DriverState : Type 0 where
  closed : DriverError → DriverState
  closing : DriverState
  open_ : DriverState
  peer_closed : DriverError → DriverState

unfoldable pub is_terminal : DriverState → Bool
is_terminal (closed _) = true
is_terminal _ = false

pub data InboundMessage : Type 0 where
  binary : List ℕ → InboundMessage
  text : String → InboundMessage

pub data WriterControl : Type 0 where
  flush : WriterControl

pub data ShutdownSignal : Type 0 where
  abort local_close peer_close running : ShutdownSignal

-- The tests `==` and `!=` on signals.
abbrev pub is_abort : ShutdownSignal → Bool
is_abort abort = true
is_abort _ = false

abbrev pub is_local_close : ShutdownSignal → Bool
is_local_close local_close = true
is_local_close _ = false

abbrev pub is_running : ShutdownSignal → Bool
is_running running = true
is_running _ = false

-- The closures, named after the functions that hold them.
unfoldable pub terminal_update : DriverError → DriverState → DriverState × Bool
unfolding is_terminal
terminal_update terminal current =
    if is_terminal current then (current, false) else (closed terminal, true)

unfoldable pub peer_closed_update : DriverError → DriverState → DriverState × Bool
peer_closed_update outcome (closed e) = (closed e, false)
peer_closed_update outcome (peer_closed e) = (peer_closed e, false)
peer_closed_update outcome _ = (peer_closed outcome, true)

-- What the writer reports for a failure in a given state.
abbrev failure_outcome : DriverError → DriverState → DriverError
failure_outcome error (closed outcome) = outcome
failure_outcome error (peer_closed outcome) = outcome
failure_outcome error _ = error

-- The third part is the captured variable `terminal`.
unfoldable pub writer_failure_update : DriverError → DriverState → DriverState × Bool × DriverError
unfolding is_terminal
writer_failure_update error current =
    let terminal = failure_outcome error current in
    if is_terminal current then (current, false, terminal) else (closed terminal, true, terminal)

abbrev pub close_timed_out : DriverError
close_timed_out = transport "WebSocket close timed out"

unfoldable pub close_timeout_update : DriverState → DriverState × Bool
close_timeout_update (closed e) = (closed e, false)
close_timeout_update (peer_closed outcome) = (closed outcome, true)
close_timeout_update _ = (closed close_timed_out, true)

-- The closure of `begin_close`.
unfoldable pub start_closing_update : DriverState → DriverState × Bool
start_closing_update open_ = (closing, true)
start_closing_update current = (current, false)

unfoldable pub abort_update : ShutdownSignal → ShutdownSignal × Bool
abort_update abort = (abort, false)
abort_update _ = (abort, true)

unfoldable pub local_close_update : ShutdownSignal → ShutdownSignal × Bool
local_close_update running = (local_close, true)
local_close_update current = (current, false)

unfoldable pub peer_close_update : ShutdownSignal → ShutdownSignal × Bool
peer_close_update running = (peer_close, true)
peer_close_update local_close = (peer_close, true)
peer_close_update current = (current, false)

-- The `match` of `peer_close_outcome`.
unfoldable pub peer_outcome : DriverState → Option DriverError
peer_outcome (peer_closed outcome) = some outcome
peer_outcome _ = none

abbrev pub is_clean : CloseCode → Bool
is_clean normal = true
is_clean away = true
is_clean _ = false

module _ (w : Tungstenite) where
  unfoldable pub classify_close : Option CloseFrame → Bool → DriverError
  classify_close none initiated_by_local =
      closed_ok (record { code = none; initiated_by_local = initiated_by_local; reason = "" })
  classify_close (some frame) initiated_by_local =
      let info : CloseInfo = record {
        code = some (w.into_u16 frame.code);
        initiated_by_local = initiated_by_local;
        reason = frame.reason;
      } in
      if is_clean frame.code then closed_ok info else closed_error info

unfoldable pub close_result : DriverError → Result (Unit {0}) DriverError
close_result (closed_ok _) = ok tt
close_result error = err error

unfoldable pub ensure_open : DriverState → Result (Unit {0}) DriverError
ensure_open open_ = ok tt
ensure_open closing = err (closed_ok local_normal)
ensure_open (closed error) = err error
ensure_open (peer_closed error) = err error

unfoldable pub terminal_error : DriverState → DriverError
terminal_error (closed error) = error
terminal_error (peer_closed error) = error
terminal_error closing = closed_ok local_normal
terminal_error open_ = transport "connection driver stopped unexpectedly"
