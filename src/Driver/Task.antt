-- ===== src/Driver/Task.antt =====
-- The async functions of src/driver.rs as programs. A program is a tree of calls: an access to shared
-- state or an await. A call that depends on the runtime or the network takes its answer from the
-- environment, and a run of a program is one path of answers.
-- A loop has fuel, and a program out of fuel stands at `halt`, which nothing ever answers: a run of
-- the source that passes each loop at most `fuel` times is a run of the program.
use fogws.Prelude.{ℕ, Bool, Option, Result}
use fogws.Error.{DriverError}
use fogws.Driver.Wire.{Message, WsError}
use fogws.Driver.State.{DriverState, ShutdownSignal, InboundMessage, WriterControl}

-- The outcome of the `select!` of `run_reader`.
pub data ReaderWake : Type 0 where
  message : Option (Result Message WsError) → ReaderWake
  shutdown_changed : Bool → ReaderWake

-- `WriterEvent`, with an `OutboundCommand` shown by its message.
pub data WriterEvent : Type 0 where
  control : Option WriterControl → WriterEvent
  outbound : Option Message → WriterEvent

-- The outcome of the `select!` of `run_writer`.
pub data WriterWake : Type 0 where
  signal_changed : Bool → WriterWake
  event : WriterEvent → WriterWake

-- The outcome of a `select!` between an operation and the shutdown signal, in `queue_inbound`.
pub data OrSignal : Type 0 where
  completed : Bool → OrSignal
  signalled : Bool → OrSignal

-- The outcome of waiting for a new state with a time limit.
pub data OrTimeout : Type 0 where
  changed : Bool → OrTimeout
  elapsed : OrTimeout

pub data Op : Type 0 where
  -- Shared state.
  borrow_state : Op
  modify_state : (DriverState → DriverState × Bool) → Op
  modify_state_with : (DriverState → DriverState × Bool × DriverError) → Op
  borrow_shutdown : Op
  modify_shutdown : (ShutdownSignal → ShutdownSignal × Bool) → Op
  load_closing : Op
  store_closing : Bool → Op
  swap_closing : Bool → Op
  swap_timeout_started : Bool → Op
  borrow_tasks : Op
  new_guard : Op
  drop_guard : Op
  abort_reader : Op
  abort_writer : Op
  -- `tokio::spawn` of the close watchdog, whose loops get this fuel; it takes over a task guard.
  spawn_watchdog : ℕ → Op
  -- Awaits.
  reader_select : Op
  writer_select : Op
  acquire_budget : ℕ → Op
  send_inbound : InboundMessage → Op
  state_changed : Op
  state_changed_or_timeout : Op
  shutdown_signal_changed : Op
  tasks_changed : Op
  sink_send : Message → Op
  sink_flush : Op
  -- Messages to other parties.
  respond : Result (Unit {0}) DriverError → Op
  try_flush : Op
  halt : Op

abbrev pub Answer : Op → Type 0
Answer borrow_state = DriverState
Answer (modify_state _) = Bool
Answer (modify_state_with _) = DriverError
Answer borrow_shutdown = ShutdownSignal
Answer (modify_shutdown _) = Bool
Answer load_closing = Bool
Answer (swap_closing _) = Bool
Answer (swap_timeout_started _) = Bool
Answer borrow_tasks = ℕ
Answer reader_select = ReaderWake
Answer writer_select = WriterWake
Answer (acquire_budget _) = OrSignal
Answer (send_inbound _) = OrSignal
Answer state_changed = Bool
Answer state_changed_or_timeout = OrTimeout
Answer shutdown_signal_changed = Bool
Answer tasks_changed = Bool
Answer (sink_send _) = Result (Unit {0}) WsError
Answer sink_flush = Result (Unit {0}) WsError
Answer halt = ⊥
Answer _ = Unit

-- The calls at which a task can be dropped: the awaits.
abbrev pub is_await : Op → Bool
is_await reader_select = Bool.true
is_await writer_select = Bool.true
is_await (acquire_budget _) = Bool.true
is_await (send_inbound _) = Bool.true
is_await state_changed = Bool.true
is_await state_changed_or_timeout = Bool.true
is_await shutdown_signal_changed = Bool.true
is_await tasks_changed = Bool.true
is_await (sink_send _) = Bool.true
is_await sink_flush = Bool.true
is_await _ = Bool.false

pub data Task (R : Type 0) : Type 0 where
  done : R → Task R
  call : (o : Op) → (Answer o → Task R) → Task R

infixl 5 ◌>>=◌ ◌>>◌
abbrev pub ◌>>=◌ : {A B : Type 0} → Task A → (A → Task B) → Task B
done a >>= f = f a
call o k >>= f = call o (λ a. k a >>= f)

abbrev pub ◌>>◌ : {A B : Type 0} → Task A → Task B → Task B
m >> n = m >>= λ _. n

abbrev pub op : (o : Op) → Task (Answer o)
op o = call o done

-- Out of fuel.
abbrev pub out_of_fuel : {R : Type 0} → Task R
out_of_fuel = call halt (λ a. absurd a)
