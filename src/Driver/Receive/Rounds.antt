-- ===== src/Driver/Receive/Rounds.antt =====
-- What the reader of src/driver.rs does with a message or an error of the socket.
use mathlib.Core.List.{append-nil}
use fogws.Prelude.{
  ℕ, zero, suc, ◌≡◌, refl, sym, subst, Bool, true, false, some, Result, ok, err, [], ◌++◌,
  if◌then◌else◌,
}
use fogws.Error.{DriverError}
use fogws.Config.{ConnectionConfig}
use fogws.Tokio.Semaphore.{Semaphore}
use fogws.Tokio.Mpsc.{Mpsc}
use fogws.Driver.Wire.{Message, text, binary, ping, pong, close, frame, WsError, Tungstenite}
use fogws.Driver.State.{InboundMessage, is_terminal, classify_close}
use fogws.Driver.Task.{
  Op, Answer, call, Task, done, ◌>>=◌, try_flush, load_closing, store_closing, changed, elapsed,
}
use fogws.Driver.Publish.{
  publish_terminal, publish_peer_closed, signal_abort, signal_peer_close, terminal_or_timeout,
}
use fogws.Driver.Leads.{
  World, Leads, Leads-bind, Leads-weaken, Leads-done, Leads-Quiet, Quiet, Quiet-bind, Quiet-if,
}
use fogws.Driver.Reader.{
  inbound_message, queue_inbound, finish_reader_failure, finish_peer_close, finish_reader,
  is_connection_closed, Round, returned, left, again, after_queue, reader_message, reader_error,
}
use fogws.Driver.Receive.Receivers.{Receivers}
use fogws.Driver.Receive.Input.{Neutral, Neutral-Owed, Neutral-Effect, Input, reading, data_of}
use fogws.Driver.Receive.Delivering.{Idle, Over, Reading, Idle-Stable, Over-Stable, Idle-Over}
use fogws.Driver.Receive.Handling.{Queueing, read_Reading}
use fogws.Driver.Receive.Payload.{queue_inbound-Leads}

terminal_or_timeout-Quiet : (fuel : ℕ) → Quiet Neutral (terminal_or_timeout fuel)
unfolding Quiet terminal_or_timeout
terminal_or_timeout-Quiet zero = (tt, λ a. absurd a)
terminal_or_timeout-Quiet (suc fuel) = (
  tt,
  λ state. Quiet-if Neutral (is_terminal state) _ _ tt (
    tt,
    elim [ changed true ↦ terminal_or_timeout-Quiet fuel | changed false ↦ tt | elapsed ↦ tt ],
  ),
)

finish_reader_failure-Quiet : (e : DriverError) → Quiet Neutral (finish_reader_failure e)
unfolding Quiet finish_reader_failure publish_terminal signal_abort
finish_reader_failure-Quiet e = (tt, λ _. (tt, λ _. (tt, λ _. tt)))

finish_peer_close-Quiet : (fuel : ℕ) (e : DriverError) → Quiet Neutral (finish_peer_close fuel e)
unfolding Quiet finish_peer_close publish_terminal publish_peer_closed signal_peer_close
finish_peer_close-Quiet fuel e = (
  tt,
  λ _. (
    tt,
    λ _.
        Quiet-bind Neutral (terminal_or_timeout fuel) _ (terminal_or_timeout-Quiet fuel)
          (λ late. Quiet-if Neutral late _ _ (tt, λ _. (tt, λ _. tt)) tt),
  ),
)

pub finish_reader-Quiet :
    (fuel : ℕ) (clean : Bool) (e : DriverError) → Quiet Neutral (finish_reader fuel clean e)
unfolding finish_reader
finish_reader-Quiet fuel clean e =
    Quiet-if Neutral clean _ _ (finish_peer_close-Quiet fuel _) (finish_reader_failure-Quiet e)

module _ (sem : Semaphore) (chan : Mpsc) (w : Tungstenite) (config : ConnectionConfig)
    (s : Receivers sem chan) where
  abbrev world : World
  world = reading sem chan w config

  abbrev Queues : Result (Unit {0}) (Unit {0}) → Input sem chan w config → Type 0
  Queues = Queueing sem chan w config s

  -- What a round leaves.
  abbrev pub After : Round → Input sem chan w config → Type 0
  After again x = Idle sem chan w config s x
  After _ x = Over sem chan w config s x

  -- A message that has been read, whose data stands at the end of what was read.
  abbrev pub Before : Message → Input sem chan w config → Type 0
  Before (text payload) x = Reading sem chan w config s (InboundMessage.text payload) x
  Before (binary payload) x = Reading sem chan w config s (InboundMessage.binary payload) x
  Before _ x = Idle sem chan w config s x

  no_data :
      (x : Input sem chan w config)
      → Idle sem chan w config s x
      → Idle sem chan w config s (record x { read = x.read ++ [] })
  no_data x p =
      subst (λ l. Idle sem chan w config s (record x { read = l })) (sym (append-nil x.read)) p

  pub read_Before :
      (payload : Message) (x : Input sem chan w config)
      → Idle sem chan w config s x
      → Before payload (record x { read = x.read ++ data_of (inbound_message payload) })
  read_Before (text payload) x p = read_Reading sem chan w config s _ x p
  read_Before (binary payload) x p = read_Reading sem chan w config s _ x p
  read_Before (ping _) x p = no_data x p
  read_Before (pong _) x p = no_data x p
  read_Before (close _) x p = no_data x p
  read_Before (frame _) x p = no_data x p

  queues-After :
      (payload : Message) (m : InboundMessage) (x : Input sem chan w config)
      → inbound_message payload ≡ some m
      → Reading sem chan w config s m x
      → Leads world (queue_inbound w payload >>= λ outcome. done (after_queue outcome)) After x
  queues-After payload m x converts p = Leads-bind world (queue_inbound w payload) _ After x (
      Leads-weaken world (queue_inbound w payload) Queues _ x
        (elim [
          | ok _ ↦ λ y q. Leads-done world again After y q
          | err _ ↦ λ y q. Leads-done world left After y q
        ])
        ((queue_inbound-Leads sem chan w config s) payload m x converts p))

  -- A program that ends the reader.
  ends-After :
      (m : Task (Unit {0})) (x : Input sem chan w config)
      → Quiet Neutral m
      → Idle sem chan w config s x
      → Leads world (m >>= λ _. done returned) After x
  ends-After m x quiet p = Leads-bind world m _ After x (
      Leads-Quiet world m (Over sem chan w config s) _ x quiet (Over-Stable sem chan w config s)
        (Idle-Over sem chan w config s x p) (λ r y q. Leads-done world returned After y q))

  Neutral-After :
      (o : Op) (k : Answer o → Task Round) (x : Input sem chan w config)
      → Neutral o
      → Idle sem chan w config s x
      → ((a : Answer o) (y : Input sem chan w config)
          → Idle sem chan w config s y
          → Leads world (k a) After y)
      → Leads world (call o k) After x
  unfolding Leads
  Neutral-After o k x n p rest = λ y aside. (
    Neutral-Owed sem chan w config o y n,
    λ a z e. rest a z (
        subst (Idle sem chan w config s) (sym (Neutral-Effect sem chan w config o a y z n e))
          (Idle-Stable sem chan w config s x y aside p)),
  )

  pub reader_message-After :
      (fuel : ℕ) (payload : Message) (x : Input sem chan w config)
      → Before payload x
      → Leads world (reader_message w fuel payload) After x
  unfolding reader_message
  reader_message-After fuel (text payload) x p = queues-After (text payload) _ x refl p
  reader_message-After fuel (binary payload) x p = queues-After (binary payload) _ x refl p
  reader_message-After fuel (ping _) x p =
      Neutral-After try_flush _ x tt p (λ _ y q. Leads-done world again After y q)
  reader_message-After fuel (pong _) x p =
      Neutral-After try_flush _ x tt p (λ _ y q. Leads-done world again After y q)
  reader_message-After fuel (frame _) x p = Leads-done world again After x p
  reader_message-After fuel (close reply) x p = Neutral-After load_closing _ x tt p λ a y q.
      Neutral-After (store_closing true) _ y tt q λ _ z r.
        ends-After (finish_peer_close fuel (classify_close w reply a)) z
          (finish_peer_close-Quiet fuel _) r

  pub reader_error-After :
      (fuel : ℕ) (error : WsError) (x : Input sem chan w config)
      → Idle sem chan w config s x
      → Leads world (reader_error w fuel error) After x
  unfolding reader_error
  reader_error-After fuel error x p = Neutral-After load_closing _ x tt p λ a y q.
      ends-After (finish_reader fuel (if a then is_connection_closed error else false) _) y
        (finish_reader-Quiet fuel _ _) q
