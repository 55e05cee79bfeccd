-- ===== src/Driver/View.antt =====
-- The state that the tasks of src/driver.rs share, as they observe it: the values in the watch
-- channels, the atomic flags and the abort handles; and what each call of a program does to it.
use fogws.Prelude.{none, ℕ, ◌+◌, ◌-◌, Bool, true, false, ◌≡◌}
use fogws.Driver.State.{DriverState, open_, ShutdownSignal, running}
use fogws.Driver.Task.{
  Op, Answer, borrow_state, modify_state, modify_state_with, borrow_shutdown, modify_shutdown,
  load_closing, store_closing, swap_closing, swap_timeout_started, borrow_tasks, new_guard,
  drop_guard, abort_reader, abort_writer, state_changed, state_changed_or_timeout, changed, elapsed,
  tasks_changed, OrTimeout, ReaderWake, message, shutdown_changed, WriterWake, signal_changed,
  event, outbound, OrSignal, completed, signalled, reader_select, writer_select, acquire_budget,
  send_inbound, shutdown_signal_changed,
}

pub record View : Type 0 where
  pub state : DriverState
  pub shutdown : ShutdownSignal
  pub closing : Bool
  pub close_timeout_started : Bool
  pub tasks_remaining : ℕ
  -- Whether the abort handles have been used.
  pub reader_aborted : Bool
  pub writer_aborted : Bool

-- After `start`: both tasks have been spawned, each with its guard.
abbrev pub started : View
started = record {
  state = open_;
  shutdown = running;
  closing = false;
  close_timeout_started = false;
  tasks_remaining = 2;
  reader_aborted = false;
  writer_aborted = false;
}

-- The shared state after a call. `DriverTaskGuard::new` and its `drop` change the count of tasks, the
-- latter by a saturating subtraction.
unfoldable pub after : Op → View → View
after (modify_state f) v = record v { state = (f v.state).0 }
after (modify_state_with f) v = record v { state = (f v.state).0 }
after (modify_shutdown f) v = record v { shutdown = (f v.shutdown).0 }
after (store_closing b) v = record v { closing = b }
after (swap_closing b) v = record v { closing = b }
after (swap_timeout_started b) v = record v { close_timeout_started = b }
after new_guard v = record v { tasks_remaining = v.tasks_remaining + 1 }
after drop_guard v = record v { tasks_remaining = v.tasks_remaining - 1 }
after abort_reader v = record v { reader_aborted = true }
after abort_writer v = record v { writer_aborted = true }
after _ v = v

-- `changed()` fails only when every sender of the channel is gone, and whoever waits for a channel in
-- the driver holds a sender of it, so these waits do not fail.
abbrev pub NoError : OrTimeout → Type 0
NoError (changed is_ok) = is_ok ≡ true
NoError elapsed = Unit

abbrev pub ReaderNoError : ReaderWake → Type 0
ReaderNoError (shutdown_changed is_ok) = is_ok ≡ true
ReaderNoError (message _) = Unit

-- The queue of commands is at its end only when every sender of it is gone. The driver holds one, which
-- it drops after its `drop` has run `abort`.
abbrev pub WriterAllowed : View → WriterWake → Type 0
WriterAllowed v (signal_changed is_ok) = is_ok ≡ true
WriterAllowed v (event (outbound none)) = v.shutdown ≡ ShutdownSignal.abort
WriterAllowed v (event _) = Unit

abbrev pub SignalNoError : OrSignal → Type 0
SignalNoError (signalled is_ok) = is_ok ≡ true
SignalNoError (completed _) = Unit

-- The answers that a call can get. Those that the network or the runtime gives are all allowed.
abbrev pub Allowed : (o : Op) → View → Answer o → Type 0
Allowed borrow_state v a = a ≡ v.state
Allowed (modify_state f) v a = a ≡ (f v.state).1
Allowed (modify_state_with f) v a = a ≡ (f v.state).2
Allowed borrow_shutdown v a = a ≡ v.shutdown
Allowed (modify_shutdown f) v a = a ≡ (f v.shutdown).1
Allowed load_closing v a = a ≡ v.closing
Allowed (swap_closing _) v a = a ≡ v.closing
Allowed (swap_timeout_started _) v a = a ≡ v.close_timeout_started
Allowed borrow_tasks v a = a ≡ v.tasks_remaining
Allowed state_changed v a = a ≡ true
Allowed state_changed_or_timeout v a = NoError a
Allowed tasks_changed v a = a ≡ true
Allowed reader_select v a = ReaderNoError a
Allowed writer_select v a = WriterAllowed v a
Allowed (acquire_budget _) v a = SignalNoError a
Allowed (send_inbound _) v a = SignalNoError a
Allowed shutdown_signal_changed v a = a ≡ true
Allowed _ v a = Unit
