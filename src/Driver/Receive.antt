-- ===== src/Driver/Receive.antt =====
-- src/driver.rs: the inbound queue between the reader and `receive`, within a budget of bytes and a
-- number of items, and the guard that lets one receive run at a time.
pub mod Receivers
pub mod Account
pub mod Queueing
pub mod Kept
pub mod Results
pub mod Emptied
pub mod Ended
pub mod Outcomes
pub mod Program
pub mod Input
pub mod Delivering
pub mod Handling
pub mod Payload
pub mod Rounds
pub mod Delivered
use fogws.Prelude.{ℕ, Bool, true, false, Option, none, some, Result, ok, err, if◌then◌else◌}
use fogws.Error.{DriverError, concurrency}
use fogws.Config.{ConnectionConfig}
use fogws.Tokio.Semaphore.{Semaphore}
use fogws.Tokio.Mpsc.{Mpsc, reserved, full, closed}
use fogws.Driver.State.{DriverState, InboundMessage, terminal_error}

pub record InboundEnvelope (sem : Semaphore) : Type 0 where
  pub message : InboundMessage
  pub permit : sem.Permit

-- What the reader and the receives share.
pub record Inbound (sem : Semaphore) (chan : Mpsc) : Type 0 where
  pub inbound : chan.Channel (InboundEnvelope sem)
  pub inbound_budget : sem.State
  pub receive_active : Bool
  -- Whether the reader, which has the only sender of the queue, has ended and dropped it.
  pub sender_dropped : Bool

abbrev pub receive_is_active : DriverError
receive_is_active = concurrency "only one receive operation may be active per connection"

-- `ReceiveGuard::claim`: the compare-and-exchange on the flag, and its result.
unfoldable pub claim : Bool → Bool × Result (Unit {0}) DriverError
claim active = if active then (active, err receive_is_active) else (true, ok tt)

module _ (sem : Semaphore) (chan : Mpsc) where
  -- As `start` makes them.
  abbrev pub start_inbound : ConnectionConfig → Inbound sem chan
  start_inbound config = record {
    inbound = chan.channel config.max_queue;
    inbound_budget = sem.new config.max_buffered_bytes;
    receive_active = false;
    sender_dropped = false;
  }

  -- The drop of the guard.
  unfoldable pub release : Inbound sem chan → Inbound sem chan
  release i = record i { receive_active = false }

  -- The end of the reader.
  unfoldable pub drop_sender : Inbound sem chan → Inbound sem chan
  drop_sender i = record i { sender_dropped = true }

  -- The end of `receive`, when the queue answers: the envelope is taken apart and its permit dropped,
  -- and so is the guard. `none` while it waits, on an empty queue whose sender is there.
  unfoldable pub receive :
      DriverState → Inbound sem chan → Option (Inbound sem chan × Result InboundMessage DriverError)
  unfolding release
  receive state i = elim (chan.recv i.inbound) [
    | none ↦ if i.sender_dropped then some (release i, err (terminal_error state)) else none
    | some taken ↦ some (
      release (record i {
        inbound = taken.1;
        inbound_budget = sem.drop_permit taken.0.permit i.inbound_budget;
      }),
      ok taken.0.message,
    )
  ]

  -- The two awaits of `queue_inbound`, when they complete: `none` while they wait, and on a closed queue,
  -- into which no message goes.
  unfoldable pub acquire_budget : ℕ → Inbound sem chan → Option (sem.Permit × Inbound sem chan)
  acquire_budget permit_count i = elim (sem.try_acquire_many_owned permit_count i.inbound_budget) [
    | none ↦ none
    | some taken ↦ some (taken.0, record i { inbound_budget = taken.1 })
  ]

  unfoldable pub send_inbound : InboundEnvelope sem → Inbound sem chan → Option (Inbound sem chan)
  send_inbound envelope i = elim (chan.try_reserve_owned i.inbound) [
    | reserved rest ↦ some (record i { inbound = chan.send envelope rest })
    | full ↦ none
    | closed ↦ none
  ]

  -- An envelope that is not queued drops its permit.
  unfoldable pub drop_envelope : InboundEnvelope sem → Inbound sem chan → Inbound sem chan
  drop_envelope envelope i = record i {
    inbound_budget = sem.drop_permit envelope.permit i.inbound_budget;
  }
