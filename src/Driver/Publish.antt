-- ===== src/Driver/Publish.antt =====
-- src/driver.rs: the functions that publish a state or a signal, each one access to its channel, and
-- the waits on those channels.
use fogws.Prelude.{
  ℕ, zero, suc, Bool, true, false, Option, none, some, Result, ok, err, if◌then◌else◌, ◌==◌,
}
use fogws.Error.{DriverError, transport}
use fogws.Driver.State.{
  DriverState, closed, is_terminal, terminal_update, peer_closed_update, writer_failure_update,
  close_timeout_update, abort_update, local_close_update, peer_close_update, peer_outcome,
}
use fogws.Driver.Task.{
  Task, done, op, out_of_fuel, ◌>>=◌, borrow_state, modify_state, modify_state_with,
  modify_shutdown, borrow_tasks, state_changed, state_changed_or_timeout, tasks_changed, changed,
  elapsed,
}

unfoldable pub publish_terminal : DriverError → Task Bool
publish_terminal terminal = op (modify_state (terminal_update terminal))

unfoldable pub publish_peer_closed : DriverError → Task Bool
publish_peer_closed outcome = op (modify_state (peer_closed_update outcome))

unfoldable pub publish_writer_failure : DriverError → Task DriverError
publish_writer_failure error = op (modify_state_with (writer_failure_update error))

unfoldable pub publish_close_timeout : Task Bool
publish_close_timeout = op (modify_state close_timeout_update)

unfoldable pub signal_abort : Task Bool
signal_abort = op (modify_shutdown abort_update)

unfoldable pub signal_local_close : Task Bool
signal_local_close = op (modify_shutdown local_close_update)

unfoldable pub signal_peer_close : Task Bool
signal_peer_close = op (modify_shutdown peer_close_update)

unfoldable pub peer_close_outcome : Task (Option DriverError)
peer_close_outcome = do current ← op borrow_state; done (peer_outcome current)

-- `wait_for_terminal_state` under a time limit: `true` if the limit passed first. An error of
-- `changed()` ends the wait as a terminal state does.
unfoldable pub terminal_or_timeout : ℕ → Task Bool
terminal_or_timeout zero = out_of_fuel
terminal_or_timeout (suc fuel) = do
  state ← op borrow_state
  if is_terminal state
      then done false
      else op state_changed_or_timeout >>= elim [
        | changed true ↦ terminal_or_timeout fuel
        | changed false ↦ done false
        | elapsed ↦ done true
      ]

-- The wait of `close`, for the outcome that a terminal state carries: one round of its loop, which
-- ends with an outcome or goes on.
unfoldable pub outcome_round : DriverState → Task (Option DriverError)
outcome_round (closed error) = done (some error)
outcome_round _ = op state_changed >>= elim [
  | true ↦ done none
  | false ↦ done (some (transport "connection driver stopped before publishing a terminal state"))
]

unfoldable pub wait_for_outcome : ℕ → Task DriverError
unfolding outcome_round
wait_for_outcome zero = out_of_fuel
wait_for_outcome (suc fuel) =
    op borrow_state
    >>= outcome_round
    >>= elim [ some error ↦ done error | none ↦ wait_for_outcome fuel ]

unfoldable pub wait_for_driver_tasks : ℕ → Task (Result (Unit {0}) DriverError)
wait_for_driver_tasks zero = out_of_fuel
wait_for_driver_tasks (suc fuel) = do
  remaining ← op borrow_tasks
  if remaining == 0
      then done (ok tt)
      else op tasks_changed >>= elim [
        | true ↦ wait_for_driver_tasks fuel
        | false ↦ do
          remaining ← op borrow_tasks
          if remaining == 0
              then done (ok tt)
              else done (err (transport "connection tasks stopped without completion confirmation"))
      ]
