-- ===== src/Driver/Writer.antt =====
-- src/driver.rs: the writer task.
use Prim.Native.String
use fogws.Prelude.{
  ℕ, zero, suc, Bool, true, false, not, ◌||◌, Option, none, some, Result, ok, err, if◌then◌else◌,
}
use fogws.Error.{DriverError, transport}
use fogws.Driver.Wire.{Message, close, normal, WsError, Tungstenite}
use fogws.Driver.State.{ShutdownSignal, is_abort, is_running, is_local_close, flush}
use fogws.Driver.Task.{
  Task, done, op, out_of_fuel, ◌>>=◌, ◌>>◌, borrow_shutdown, drop_guard, writer_select,
  signal_changed, event, WriterEvent, control, outbound, shutdown_signal_changed, sink_send,
  sink_flush, respond,
}
use fogws.Driver.Publish.{
  publish_terminal, publish_writer_failure, signal_abort, peer_close_outcome,
}

-- How the writer ends: after a close or a failure, or because every sender of commands is gone.
pub data WriterEnd : Type 0 where
  finished outbound_closed : WriterEnd

abbrev pub WriterRound : Type 0
WriterRound = Option WriterEnd

abbrev pub normal_close : Message
normal_close = close (some (record { code = normal; reason = "" }))

-- The `while` of `close_writer`: until the signal is past `LocalClose`.
unfoldable pub wait_for_handshake : ℕ → Task (Result (Unit {0}) DriverError)
wait_for_handshake zero = out_of_fuel
wait_for_handshake (suc fuel) = do
  signal ← op borrow_shutdown
  if is_local_close signal
      then op shutdown_signal_changed >>= elim [
        | true ↦ wait_for_handshake fuel
        | false ↦ done (err (transport "connection driver stopped during the close handshake"))
      ]
      else done (ok tt)

-- The writer's reaction to a failure.
unfoldable pub writer_failure : DriverError → Task DriverError
unfolding publish_writer_failure signal_abort
writer_failure error = do terminal ← publish_writer_failure error; signal_abort; done terminal

unfoldable pub publish_outcome : Option DriverError → Task WriterRound
unfolding publish_terminal
publish_outcome none = done (some finished)
publish_outcome (some outcome) = do publish_terminal outcome; done (some finished)

module _ (w : Tungstenite) where
  abbrev pub close_failed : WsError → DriverError
  close_failed error = transport (String.◌++◌ "WebSocket close failed: " (w.error_text error))

  -- `map_err` on the result of a send or a flush.
  abbrev pub or_close_failed : Result (Unit {0}) WsError → Result (Unit {0}) DriverError
  or_close_failed (ok _) = ok tt
  or_close_failed (err error) = err (close_failed error)

  unfoldable pub flush_close : Task (Result (Unit {0}) DriverError)
  flush_close = do result ← op sink_flush; done (or_close_failed result)

  -- After the handshake: an abort needs no flush.
  unfoldable pub after_handshake :
      Result (Unit {0}) DriverError → Task (Result (Unit {0}) DriverError)
  unfolding flush_close
  after_handshake (err error) = done (err error)
  after_handshake (ok _) = do
    signal ← op borrow_shutdown
    if is_abort signal then done (ok tt) else flush_close

  unfoldable pub after_close_frame :
      ℕ → Result (Unit {0}) WsError → Task (Result (Unit {0}) DriverError)
  unfolding after_handshake wait_for_handshake
  after_close_frame fuel (err error) = done (err (close_failed error))
  after_close_frame fuel (ok _) = wait_for_handshake fuel >>= after_handshake

  unfoldable pub close_writer : ℕ → ShutdownSignal → Task (Result (Unit {0}) DriverError)
  unfolding flush_close after_close_frame
  close_writer fuel signal =
      if is_local_close signal
      then op (sink_send normal_close) >>= after_close_frame fuel
      else flush_close

  unfoldable pub after_close_writer : Result (Unit {0}) DriverError → Task WriterRound
  unfolding writer_failure publish_outcome peer_close_outcome
  after_close_writer (err error) = do writer_failure error; done (some finished)
  after_close_writer (ok _) = peer_close_outcome >>= publish_outcome

  unfoldable pub writer_event : WriterEvent → Task WriterRound
  unfolding writer_failure
  writer_event (control (some flush)) = op sink_flush >>= elim [
    | ok _ ↦ done none
    | err _ ↦ do writer_failure (transport "WebSocket control flush failed"); done (some finished)
  ]
  writer_event (control none) = do
    writer_failure (transport "connection reader stopped unexpectedly")
    done (some finished)
  writer_event (outbound none) = done (some outbound_closed)
  writer_event (outbound (some message)) = op (sink_send message) >>= elim [
    | ok _ ↦ do op (respond (ok tt)); done none
    | err error ↦ do
      terminal ←
          writer_failure (transport (String.◌++◌ "WebSocket send failed: " (w.error_text error)))
      op (respond (err terminal))
      done (some finished)
  ]

  -- The branch of `shutdown.changed()`.
  unfoldable pub writer_signal : ℕ → Bool → Task WriterRound
  unfolding close_writer after_close_writer
  writer_signal fuel is_ok = do
    signal ← op borrow_shutdown
    if not is_ok || not (is_running signal)
        then if is_abort signal
          then done (some finished)
          else close_writer fuel signal >>= after_close_writer
        else done none

  -- One round of the `loop` of `run_writer`.
  unfoldable pub writer_round : ℕ → Task WriterRound
  unfolding writer_signal writer_event
  writer_round fuel =
      op writer_select
      >>= elim [ signal_changed is_ok ↦ writer_signal fuel is_ok | event e ↦ writer_event e ]

  unfoldable pub run_writer : ℕ → Task WriterEnd
  unfolding writer_round
  run_writer zero = out_of_fuel
  run_writer (suc fuel) =
      writer_round fuel >>= elim [ none ↦ run_writer fuel | some end ↦ done end ]

  -- The task that `start` spawns: its guard is dropped at the end.
  unfoldable pub writer_task : ℕ → Task WriterEnd
  unfolding run_writer
  writer_task fuel = do end ← run_writer fuel; op drop_guard; done end
