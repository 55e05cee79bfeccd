-- ===== src/Lib.antt =====
-- FogWS: the Rust core of a WebSocket client for Python (the crate in the repository's root).
--
-- THE PROGRAM. A call of Python's `connect` (src/py.rs) checks the process (src/runtime.rs), converts
-- the limits (src/config.rs), and starts one attempt to connect (src/client.rs), whose stream becomes
-- a connection (src/driver.rs, `ConnectionDriver`). Two tasks drive it, which `start` spawns. The
-- reader takes messages off the socket, queues data for `receive` within a budget of bytes and a
-- number of items, and reacts to the peer's close; the writer owns the sink, sends the commands that
-- were admitted to the outbound queue, within such a budget too, flushes, and runs the close handshake.
-- They share with the calls of the user a watch channel of the connection's state, a watch channel of
-- the shutdown signal, a watch channel that counts the tasks alive, atomic flags, the semaphores of the
-- byte budgets, the two queues and the two abort handles. `close` marks the connection, signals the
-- writer, spawns a watchdog for the close timeout, and waits for the final outcome and for the end of
-- the tasks; `abort` (also what dropping the driver does) publishes the outcome of an abandonment and
-- tears the tasks down. src/error.rs holds the outcomes and errors and their text, which src/py.rs
-- turns into Python's exceptions.
--
-- THE FILES.
--   Prelude        shared types, operators, tests and lemmas on lists and results
--   Error          src/error.rs: `DriverError`, `CloseInfo`, `Display`; Error.Decimal prints numbers
--   Config         src/config.rs: `ConnectionConfig::new`, `websocket_config` and the helpers;
--                  Config.Limits and Config.Buffers are about them
--   Tokio          the interfaces of tokio that the driver uses, with their laws: watch channels, and
--                  in Tokio.Semaphore and Tokio.Mpsc the semaphore and the bounded queue
--   Python         the exceptions, attributes and interpreter objects that the crate uses
--   Runtime        src/runtime.rs: `OWNER_PROCESS` and its checks, `ensure_main_interpreter`,
--                  `validate_import_context`; Runtime.Owner is about them
--   Client         src/client.rs: `connect` and the test of an explicit port; Client.Attempts and
--                  Client.Port are about them
--   Driver.Wire    the names of the WebSocket library that src/driver.rs uses
--   Driver.State   `DriverState`, `ShutdownSignal`, the closures given to `send_if_modified`, and the
--                  functions on outcomes (`classify_close`, `close_result`, `ensure_open`, ...);
--                  State.Outcomes is about them
--   Driver.Task    programs: one call for each access to shared state and each await
--   Driver.Leads   a program at work on a state that it shares with others, for the writer and the
--                  reader over their queues
--   Driver.Publish the `publish_*`, `signal_*` and `wait_for_*` functions
--   Driver.Close   `close`, `begin_close`, its watchdog, `abort`
--   Driver.Reader  `run_reader`, `queue_inbound`, `finish_peer_close`, `finish_reader_failure`
--   Driver.Writer  `run_writer`, `close_writer`
--   Driver.View    what the tasks see of the shared state, and what each call does to it
--   Driver.Store   the shared state over watch channels, and that it is seen as a view
--   Driver.System  the threads of a connection and their interleaving steps; System.Safe to
--                  System.Tasks lead from the single programs to every reachable state;
--                  System.Claims to System.Watchdog follow a call that begins a close;
--                  System.Answering has the writer's responses to the sends
--   Driver.Order, Driver.Logic   the order in which a connection advances, and the rely-guarantee
--                  logic in which each program is proved once, for every behaviour of the others
--   Driver.Solo    runs of one program to its end
--   Driver.Admission   `validate_outbound_message`, `try_admit_outbound`, `send_admitted` and the drops
--                  of permits; Admission.Senders interleaves any number of sends with the writer,
--                  Admission.Ledger is their account, Calls to Conserved keep it; Whole, Results
--                  and Emptied conclude; Admission.Program to Admission.Written take up the
--                  writer's program
--   Driver.Receive `receive` with its guard, the reader's queueing; Receive.Receivers interleaves them,
--                  Receive.Account is the account, Queueing and Kept keep it; Results, Emptied,
--                  Ended and Outcomes conclude; Receive.Program takes up `queue_inbound`, and
--                  Receive.Input to Receive.Delivered the reader's whole program
--   Bindings.Exceptions   `driver_error_to_python`, `attach_close_info` of src/py.rs; Classes is about
--                  them
--   Bindings.Connection   `PyConnection` and `connect` of src/py.rs; Bindings.Guards, Bindings.Sends and
--                  Bindings.Connects are about them
--   Bindings.Futures   what the futures of src/py.rs give to Python; Futures.Outcomes is about
--                  them
--   Module         the initialisation in src/lib.rs, with `register` of src/py.rs and `configure` of
--                  src/runtime.rs; Module.Importing is about it
--   Tests          instances of the interfaces, schedules that drive a connection, and concrete runs
--
-- HOW CODE CORRESPONDS. Of the tasks, an async function is a program, a tree of calls (`Task`): each
-- access to shared state (`borrow`, `send_if_modified`, `load`, `store`, `swap`, `abort()`) and each
-- await is one call, which is one step of the system. The threads interleave between any two calls.
-- What the network or the scheduler decides (which branch of a `select!` is taken, the message
-- received, whether a send fails, whether a time limit passed) is the answer of the call; every answer
-- is allowed that the shared state does not rule out; the queue of commands is at its end only after an
-- abort, since the `drop` of the driver aborts before it drops its sender. A caller's program may be
-- dropped at each await, reader and writer only once their abort handle was used. A `TaskGuard` is counted by `new_guard` and
-- `drop_guard`, and a dropped thread gives back the guards it holds. There the answers on the two
-- queues and their budgets are left open; Driver.Admission and Driver.Receive model them, as steps of
-- their own over the semaphore and the queue: a function that several parties run is cut into one part
-- for each access, and the parts interleave in any order. What Rust drops at the end of a scope (a
-- permit, an envelope, a guard, the reader's sender of the inbound queue) is a call there. A function of src/py.rs that hands a future to the
-- runtime returns what it hands over.
--
-- FUEL. The loops of the driver (`run_reader`, `run_writer`, the `wait_for_*` loops) have no bound in
-- the source, and take one fuel that all the loops of a program share. Out of fuel a program stands at
-- the call `halt`, which nothing answers and at which no thread is dropped, so it neither ends nor
-- changes anything. A run of the source that passes each loop at most `fuel` times is a run of the
-- model, and the statements on reachable states hold for every fuel. The runs of Driver.Solo name
-- the fuel they need, one round. Error.Decimal prints `n` with fuel `suc n`, more than its digits. The
-- two queues' steps need no fuel: a run is a sequence of steps of any length.
--
-- PARAMETERS. `Watch`, `Semaphore` and `Mpsc` are tokio's; Tests.Samples and Tests.Channels have
-- instances. `Tungstenite`: the u16 of a close code, the length of a message, the text of an error.
-- `MeasuresBytes` says that the library's length is the number of payload bytes. `Handshake`: the URI
-- parser and the attempt to connect. `Interpreter`: Python's answers about the interpreter. `Objects`: the
-- objects of received payloads. Python's `setattr` and its conversions of a number are arguments. Numbers of the configuration are naturals,
-- with the width of `usize` and the largest semaphore as arguments; `f64` is a type with the operations
-- that the code uses. An event loop and a process are known by a number.
--
-- NOT MODELLED. The futures' way through pyo3 and the runtime; what else the calls of pyo3 that
-- register a name do; the mutex round the inbound receiver, which only the holder of the guard
-- locks; the fairness of `select!`; panics inside tasks; the Python package in fogws/. `start` is taken
-- up after both tasks are spawned.
pub mod Prelude
pub mod Error
pub mod Config
pub mod Tokio
pub mod Python
pub mod Runtime
pub mod Client
pub mod Driver
pub mod Bindings
pub mod Module
pub mod Tests
