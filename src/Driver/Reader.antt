-- ===== src/Driver/Reader.antt =====
-- src/driver.rs: the reader task.
use Prim.Native.String
use fogws.Prelude.{
  ℕ, zero, suc, Bool, true, false, not, Option, none, some, Result, ok, err, if◌then◌else◌, ltb,
}
use fogws.Error.{DriverError, closed_ok, transport, local_normal}
use fogws.Config.{u32_max}
use fogws.Driver.Wire.{
  Message, text, binary, ping, pong, close, frame, WsError, connection_closed, other_error,
  Tungstenite,
}
use fogws.Driver.State.{is_abort, is_running, InboundMessage, classify_close}
use fogws.Driver.Task.{
  Task, done, op, out_of_fuel, ◌>>=◌, ◌>>◌, borrow_shutdown, load_closing, store_closing,
  abort_writer, drop_guard, reader_select, ReaderWake, message, shutdown_changed, acquire_budget,
  send_inbound, OrSignal, completed, signalled, try_flush,
}
use fogws.Driver.Publish.{
  publish_terminal, publish_peer_closed, signal_abort, signal_peer_close, terminal_or_timeout,
}

unfoldable pub finish_reader_failure : DriverError → Task (Unit {0})
unfolding publish_terminal signal_abort
finish_reader_failure terminal = do publish_terminal terminal; signal_abort; op abort_writer

unfoldable pub finish_peer_close : ℕ → DriverError → Task (Unit {0})
unfolding publish_terminal publish_peer_closed signal_peer_close
finish_peer_close fuel outcome = do
  publish_peer_closed outcome
  signal_peer_close
  is_elapsed ← terminal_or_timeout fuel
  if is_elapsed then (do publish_terminal outcome; op abort_writer) else done tt

-- How the source's `if` and `matches!` after it share out the work: a clean outcome ends the
-- connection as a close of the peer does.
unfoldable pub finish_reader : ℕ → Bool → DriverError → Task (Unit {0})
unfolding finish_reader_failure finish_peer_close
finish_reader fuel clean failure =
    if clean then finish_peer_close fuel (closed_ok local_normal) else finish_reader_failure failure

abbrev pub is_connection_closed : WsError → Bool
is_connection_closed connection_closed = true
is_connection_closed (other_error _) = false

-- `Err(())` and `Ok(())`.
abbrev pub refused : Result (Unit {0}) (Unit {0})
refused = err tt

abbrev pub accepted : Result (Unit {0}) (Unit {0})
accepted = ok tt

-- The conversion of a payload; other messages have none.
abbrev pub inbound_message : Message → Option InboundMessage
inbound_message (text payload) = some (InboundMessage.text payload)
inbound_message (binary payload) = some (InboundMessage.binary payload)
inbound_message _ = none

-- The two awaits of `queue_inbound`, by their outcomes.
abbrev pub after_send : OrSignal → Result (Unit {0}) (Unit {0})
after_send (completed sent) = if sent then accepted else refused
after_send (signalled is_ok) = if is_ok then accepted else refused

abbrev pub deliver : Option InboundMessage → Task (Result (Unit {0}) (Unit {0}))
deliver none = done refused
deliver (some envelope) = do outcome ← op (send_inbound envelope); done (after_send outcome)

abbrev pub after_acquire : Message → OrSignal → Task (Result (Unit {0}) (Unit {0}))
after_acquire payload (completed acquired) =
    if acquired then deliver (inbound_message payload) else done refused
after_acquire payload (signalled is_ok) = done (if is_ok then accepted else refused)

module _ (w : Tungstenite) where
  unfoldable pub queue_inbound : Message → Task (Result (Unit {0}) (Unit {0}))
  queue_inbound payload = do
    signal ← op borrow_shutdown
    if not (is_running signal)
        then done accepted
        else if ltb u32_max (w.message_len payload)
        then done refused
        else do outcome ← op (acquire_budget (w.message_len payload)); after_acquire payload outcome

-- How a round of the loop goes on: a `return`, the `break`, or the next round.
pub data Round : Type 0 where
  returned left again : Round

abbrev pub after_queue : Result (Unit {0}) (Unit {0}) → Round
after_queue (ok _) = again
after_queue (err _) = left

module _ (w : Tungstenite) where
  unfoldable pub reader_message : ℕ → Message → Task Round
  unfolding finish_peer_close queue_inbound
  reader_message fuel (close reply) = do
    initiated_by_local ← op load_closing
    op (store_closing true)
    finish_peer_close fuel (classify_close w reply initiated_by_local)
    done returned
  reader_message fuel (ping _) = do op try_flush; done again
  reader_message fuel (pong _) = do op try_flush; done again
  reader_message fuel (frame _) = done again
  reader_message fuel payload = do outcome ← queue_inbound w payload; done (after_queue outcome)

  unfoldable pub reader_error : ℕ → WsError → Task Round
  unfolding finish_reader
  reader_error fuel error = do
    is_closing ← op load_closing
    let clean = if is_closing then is_connection_closed error else false
    finish_reader fuel clean
        (transport (String.◌++◌ "WebSocket receive failed: " (w.error_text error)))
    done returned

  unfoldable pub reader_wake : ℕ → ReaderWake → Task Round
  unfolding reader_message reader_error
  reader_wake fuel (message none) = done left
  reader_wake fuel (message (some (ok payload))) = reader_message fuel payload
  reader_wake fuel (message (some (err error))) = reader_error fuel error
  reader_wake fuel (shutdown_changed false) = done returned
  reader_wake fuel (shutdown_changed true) = do
    signal ← op borrow_shutdown
    done (if is_abort signal then returned else again)

  -- One round of the `loop` of `run_reader`.
  unfoldable pub reader_round : ℕ → Task Round
  unfolding reader_wake
  reader_round fuel = do
    signal ← op borrow_shutdown
    if is_abort signal then done returned else do wake ← op reader_select; reader_wake fuel wake

  -- What follows the loop, after a `break`.
  unfoldable pub reader_left : ℕ → Task (Unit {0})
  unfolding finish_reader
  reader_left fuel = do
    is_closing ← op load_closing
    finish_reader fuel is_closing (transport "WebSocket transport ended without a close frame")

  unfoldable pub run_reader : ℕ → Task (Unit {0})
  unfolding reader_round reader_left
  run_reader zero = out_of_fuel
  run_reader (suc fuel) =
      reader_round fuel
      >>= elim [ returned ↦ done tt | left ↦ reader_left fuel | again ↦ run_reader fuel ]

  -- The task that `start` spawns: its guard is dropped at the end.
  unfoldable pub reader_task : ℕ → Task (Unit {0})
  unfolding run_reader
  reader_task fuel = do run_reader fuel; op drop_guard
