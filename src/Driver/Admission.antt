-- ===== src/Driver/Admission.antt =====
-- src/driver.rs: the admission of messages of the user to the outbound queue, within a budget of bytes
-- and a number of items, and their way to the writer. A function that several parties may run at once
-- is cut where it touches the semaphore or the queue; each part is one step.

pub mod Senders
pub mod Calls
pub mod Ledger
pub mod Admitting
pub mod Draining
pub mod Conserved
pub mod Whole
pub mod Results
pub mod Emptied
pub mod Program
pub mod Writing
pub mod Shutting
pub mod Commands
pub mod Written
use Prim.Native.String
use fogws.Prelude.{
  ℕ, Option, none, some, List, [], ◌∷◌, Result, ok, err, ◌>>◌, fail_if, if◌then◌else◌, ltb, ◌==◌,
}
use fogws.Error.{DriverError, resource_limit, transport}
use fogws.Error.Decimal.{to_string}
use fogws.Config.{ConnectionConfig, u32_max}
use fogws.Tokio.Semaphore.{Semaphore}
use fogws.Tokio.Mpsc.{Mpsc, reserved, full, closed}
use fogws.Driver.Wire.{Message, Tungstenite}
use fogws.Driver.State.{DriverState, ensure_open, terminal_error}

-- The sender of the response is left out: a response is the call `respond` of the writer's program, and
-- what `send_admitted` makes of it is `send_response`.
pub record OutboundCommand (sem : Semaphore) : Type 0 where
  pub message : Message
  pub permit : sem.Permit

-- With a slot of the queue, the item permit.
pub record OutboundAdmission (sem : Semaphore) : Type 0 where
  pub byte_permit : sem.Permit
  pub message_size : ℕ

-- What admissions share.
pub record Outbound (sem : Semaphore) (chan : Mpsc) : Type 0 where
  pub outbound : chan.Channel (OutboundCommand sem)
  pub outbound_budget : sem.State

module _ (sem : Semaphore) (chan : Mpsc) where
  abbrev release_bytes : sem.Permit → Outbound sem chan → Outbound sem chan
  release_bytes p out = record out { outbound_budget = sem.drop_permit p out.outbound_budget }

  module _ (config : ConnectionConfig) where
    -- As `start` makes them.
    abbrev pub start_outbound : Outbound sem chan
    start_outbound = record {
      outbound = chan.channel config.max_queue;
      outbound_budget = sem.new config.max_buffered_bytes;
    }

    unfoldable pub validate_outbound_message : DriverState → ℕ → Result (Unit {0}) DriverError
    validate_outbound_message state message_size =
        ensure_open state
        >> fail_if (ltb config.max_message_size message_size) (
            resource_limit (
              String.◌++◌ "message contains " (
                String.◌++◌ (to_string message_size)
                  (String.◌++◌ " bytes; maximum is " (to_string config.max_message_size)))))

    -- The acquisition of the byte permit, once the count fits in a `u32`.
    unfoldable pub acquire_permit :
        ℕ → Outbound sem chan → Outbound sem chan × Result sem.Permit DriverError
    acquire_permit permit_count out =
        elim (sem.try_acquire_many_owned permit_count out.outbound_budget) [
          | none ↦ (
            out,
            err (
                resource_limit
                  "outbound byte budget is exhausted; retry after an accepted send completes"),
          )
          | some taken ↦ (record out { outbound_budget = taken.1 }, ok taken.0)
        ]

    -- `try_admit_outbound` up to the byte permit.
    unfoldable pub admit_bytes :
        DriverState → ℕ → Outbound sem chan → Outbound sem chan × Result sem.Permit DriverError
    unfolding acquire_permit validate_outbound_message
    admit_bytes state message_size out = elim (validate_outbound_message state message_size) [
      | err error ↦ (out, err error)
      | ok _ ↦
          if ltb u32_max message_size
          then (out, err (resource_limit "message byte count exceeds the supported budget"))
          else acquire_permit message_size out
    ]

    -- The rest of it; an early return drops the byte permit.
    unfoldable pub admit_item :
        DriverState
        → ℕ
        → sem.Permit
        → Outbound sem chan
        → Outbound sem chan × Result (OutboundAdmission sem) DriverError
    admit_item state message_size byte_permit out = elim (chan.try_reserve_owned out.outbound) [
      | reserved rest ↦ (
        record out { outbound = rest },
        ok (record { byte_permit = byte_permit; message_size = message_size }),
      )
      | full ↦ (
        release_bytes byte_permit out,
        err (resource_limit "outbound item queue is full; retry after an accepted send completes"),
      )
      | closed ↦ (release_bytes byte_permit out, err (terminal_error state))
    ]

    -- Without other parties between its two parts; the state is read twice.
    unfoldable pub try_admit_outbound :
        DriverState
        → DriverState
        → ℕ
        → Outbound sem chan
        → Outbound sem chan × Result (OutboundAdmission sem) DriverError
    try_admit_outbound before after message_size out =
        let admitted = admit_bytes before message_size out in
        elim admitted.1 [
          | err error ↦ (admitted.0, err error)
          | ok permit ↦ admit_item after message_size permit admitted.0
        ]

  -- `send_admitted` up to the wait for the response; the early return drops both permits.
  unfoldable pub send_admitted :
      Tungstenite
      → OutboundAdmission sem
      → Message
      → Outbound sem chan
      → Outbound sem chan × Result (Unit {0}) DriverError
  send_admitted w admission message out =
      if w.message_len message == admission.message_size
      then (
        record out {
          outbound =
              chan.send (record { message = message; permit = admission.byte_permit }) out.outbound;
        },
        ok tt,
      )
      else (
        record (release_bytes admission.byte_permit out) {
          outbound = chan.drop_permit out.outbound;
        },
        err (transport "outbound message changed after capacity admission"),
      )

  -- An admission that is dropped gives back both permits.
  unfoldable pub drop_admission : OutboundAdmission sem → Outbound sem chan → Outbound sem chan
  drop_admission admission out = record (release_bytes admission.byte_permit out) {
    outbound = chan.drop_permit out.outbound;
  }

  -- The writer drops a command when it has handled it, and so does the channel with its receiver.
  unfoldable pub drop_command : OutboundCommand sem → Outbound sem chan → Outbound sem chan
  drop_command command out = release_bytes command.permit out

  unfoldable pub drop_commands : List (OutboundCommand sem) → Outbound sem chan → Outbound sem chan
  unfolding drop_command
  drop_commands [] out = out
  drop_commands (command ∷ commands) out = drop_commands commands (drop_command command out)

  -- When the writer ends, the commands left in the queue are dropped with its receiver.
  unfoldable pub drop_receiver : Outbound sem chan → Outbound sem chan
  unfolding drop_commands
  drop_receiver out =
      drop_commands (chan.contents out.outbound)
        (record out { outbound = chan.drop_receiver out.outbound })

-- The end of `send_admitted`: the response, or none if the command was dropped.
unfoldable pub send_response :
    DriverState → Option (Result (Unit {0}) DriverError) → Result (Unit {0}) DriverError
send_response state (some result) = result
send_response state none = err (terminal_error state)
