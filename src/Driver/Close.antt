-- ===== src/Driver/Close.antt =====
-- src/driver.rs: the calls that end a connection, `close`, `begin_close` and `abort`, and the watchdog
-- that `begin_close` spawns.
use fogws.Prelude.{ℕ, Bool, true, Result, ok, err, if◌then◌else◌}
use fogws.Error.{DriverError, transport}
use fogws.Driver.State.{DriverState, closed, start_closing_update, close_result}
use fogws.Driver.Task.{
  Task, done, op, ◌>>=◌, ◌>>◌, borrow_state, modify_state, store_closing, swap_closing,
  swap_timeout_started, new_guard, drop_guard, abort_reader, abort_writer, spawn_watchdog,
}
use fogws.Driver.Publish.{
  publish_terminal, publish_close_timeout, signal_abort, signal_local_close, terminal_or_timeout,
  wait_for_outcome, wait_for_driver_tasks,
}

-- The `select!` between the sleep and the wait for a terminal state.
unfoldable pub close_timeout_expired : ℕ → Task Bool
unfolding terminal_or_timeout
close_timeout_expired fuel = terminal_or_timeout fuel

-- The task that `begin_close` spawns.
unfoldable pub watchdog : ℕ → Task (Unit {0})
unfolding close_timeout_expired publish_close_timeout
watchdog fuel = do
  expired ← close_timeout_expired fuel
  if expired
      then (do publish_close_timeout; op abort_reader; op abort_writer; op drop_guard)
      else op drop_guard

-- Each early return drops the guard of the watchdog, which is made first.
unfoldable pub begin_close : ℕ → Task (Unit {0})
unfolding signal_local_close
begin_close fuel = do
  op new_guard
  was_closing ← op (swap_closing true)
  if was_closing then op drop_guard else do
    started_local_close ← op (modify_state start_closing_update)
    if started_local_close
        then (do
          signal_local_close
          timeout_started ← op (swap_timeout_started true)
          if timeout_started then op drop_guard else op (spawn_watchdog fuel))
        else op drop_guard

-- The two ways through the first statement of `close`.
unfoldable pub close_outcome : ℕ → DriverState → Task DriverError
unfolding begin_close wait_for_outcome
close_outcome fuel (closed error) = done error
close_outcome fuel _ = do begin_close fuel; wait_for_outcome fuel

-- `wait_for_driver_tasks(…).await?; close_result(terminal)`
unfoldable pub close_finish :
    DriverError → Result (Unit {0}) DriverError → Result (Unit {0}) DriverError
close_finish terminal (ok _) = close_result terminal
close_finish terminal (err error) = err error

unfoldable pub close : ℕ → Task (Result (Unit {0}) DriverError)
unfolding close_outcome close_finish wait_for_driver_tasks
close fuel = do
  state ← op borrow_state
  terminal ← close_outcome fuel state
  tasks ← wait_for_driver_tasks fuel
  done (close_finish terminal tasks)

abbrev pub abandoned : DriverError
abandoned = transport "connection was abandoned"

unfoldable pub abort : Task (Unit {0})
unfolding publish_terminal signal_abort
abort = do
  op (store_closing true)
  publish_terminal abandoned
  signal_abort
  op abort_reader
  op abort_writer
