-- ===== src/Driver/Receive/Input.antt =====
-- The reader of src/driver.rs at work on the inbound path: what its calls do to the queue, to what it
-- has read and to what it has been signalled, while the receives go on.
use fogws.Prelude.{
  ℕ, ◌≤◌, ◌≡◌, ◌⊎◌, arith, true, false, Option, none, some, ok, List, [], ◌∷◌, ◌++◌,
}
use fogws.Config.{ConnectionConfig}
use fogws.Tokio.Semaphore.{Semaphore}
use fogws.Tokio.Mpsc.{Mpsc}
use fogws.Driver.Wire.{Tungstenite}
use fogws.Driver.State.{InboundMessage, ShutdownSignal, is_running}
use fogws.Driver.Order.{signal_rank}
use fogws.Driver.Leads.{World}
use fogws.Driver.Task.{
  Op, Answer, borrow_shutdown, reader_select, message, completed, signalled,
  acquire_budget as acquire_op, send_inbound as send_op,
}
use fogws.Driver.Reader.{inbound_message}
use fogws.Driver.Receive.Receivers.{Receivers, Reach}
use fogws.Driver.Receive.Program.{Acquired, Queued, GivenUp}

abbrev pub Neutral : Op → Type 0
Neutral reader_select = ⊥
Neutral (acquire_op _) = ⊥
Neutral (send_op _) = ⊥
Neutral borrow_shutdown = ⊥
Neutral _ = Unit

-- What a message of the socket adds to the data that was read.
abbrev pub data_of : Option InboundMessage → List InboundMessage
data_of none = []
data_of (some m) = m ∷ []

abbrev pub IsSignalled : ShutdownSignal → Type 0
IsSignalled signal = is_running signal ≡ false

pub IsSignalled-later :
    (a b : ShutdownSignal) → signal_rank a ≤ signal_rank b → IsSignalled a → IsSignalled b
IsSignalled-later a b up h = ground arith

module _ (sem : Semaphore) (chan : Mpsc) (w : Tungstenite) (config : ConnectionConfig) where
  -- The inbound path, the data messages that the reader has read, in order, and the signal.
  pub record Input : Type 0 where
    pub path : Receivers sem chan
    pub read : List InboundMessage
    pub signal : ShutdownSignal

  -- The receives move, and a signal may be given, also by the reader itself.
  pub record Aside (x y : Input) : Type 0 where
    pub run : Reach sem chan w config x.path y.path
    pub holding : y.path.holding ≡ x.path.holding
    pub delivered : y.path.delivered ≡ x.path.delivered
    pub read : y.read ≡ x.read
    pub signal_up : signal_rank x.signal ≤ signal_rank y.signal

  -- What was read and is not queued.
  pub record Unqueued (x : Input) : Type 0 where
    pub dropped : List InboundMessage
    pub all : x.read ≡ x.path.delivered ++ dropped

  -- Everything that was read has been queued, unless there has been a signal.
  abbrev pub InOrder : Input → Type 0
  InOrder x = (x.read ≡ x.path.delivered) ⊎ (IsSignalled x.signal × Unqueued x)

  pub record Holding (m : InboundMessage) (x : Input) : Type 0 where
    pub permit : sem.Permit
    pub held : x.path.holding ≡ some (record { message = m; permit = permit })

  -- What a call needs. The reader waits for a message, or for permits, without one in hand, and for a
  -- message only when all before it have been queued, as far as there was no signal.
  abbrev pub Owed : Op → Input → Type 0
  Owed reader_select x = (x.path.holding ≡ none) × InOrder x
  Owed (acquire_op n) x = x.path.holding ≡ none
  Owed (send_op m) x = Holding m x × (x.read ≡ x.path.delivered ++ (m ∷ []))
  Owed _ x = Unit

  -- The permits are for the message that was read last.
  pub record Permitted (n : ℕ) (x y : Input) : Type 0 where
    pub before : List InboundMessage
    pub last : InboundMessage
    pub path : Receivers sem chan
    pub is_last : x.read ≡ before ++ (last ∷ [])
    pub acquired : Acquired sem chan w config n last x.path path
    pub now : y ≡ record x { path = path }

  pub record Moved (P : Receivers sem chan → Receivers sem chan → Type 0) (x y : Input)
      : Type 0 where
    pub path : Receivers sem chan
    pub moved : P x.path path
    pub now : y ≡ record x { path = path }

  -- The value of the channel has changed from its first one only when there was a signal.
  abbrev pub Effect : (o : Op) → Answer o → Input → Input → Type 0
  Effect borrow_shutdown a x y = (a ≡ x.signal) × (y ≡ x)
  Effect reader_select (message (some (ok payload))) x y =
      y ≡ record x { read = x.read ++ data_of (inbound_message payload) }
  Effect (acquire_op n) (completed true) x y = Permitted n x y
  Effect (acquire_op n) (signalled true) x y = IsSignalled x.signal × (y ≡ x)
  Effect (send_op m) (completed true) x y = Moved (Queued sem chan w config m) x y
  Effect (send_op m) (signalled true) x y =
      IsSignalled x.signal × Moved (GivenUp sem chan w config m) x y
  Effect (send_op m) _ x y = Moved (GivenUp sem chan w config m) x y
  Effect _ _ x y = y ≡ x

  pub Neutral-Owed : (o : Op) (x : Input) → Neutral o → Owed o x
  Neutral-Owed reader_select x n = absurd n
  Neutral-Owed (acquire_op k) x n = absurd n
  Neutral-Owed (send_op m) x n = absurd n
  Neutral-Owed borrow_shutdown x n = absurd n
  Neutral-Owed o x n = tt

  pub Neutral-Effect : (o : Op) (a : Answer o) (x y : Input) → Neutral o → Effect o a x y → y ≡ x
  Neutral-Effect reader_select a x y n e = absurd n
  Neutral-Effect (acquire_op k) a x y n e = absurd n
  Neutral-Effect (send_op m) a x y n e = absurd n
  Neutral-Effect borrow_shutdown a x y n e = absurd n
  Neutral-Effect o a x y n e = e

  -- The inbound path as the reader's programs see it.
  abbrev pub reading : World
  reading = record {
    State = Input;
    Aside = Aside;
    Owed = Owed;
    Effect = Effect;
    Neutral = Neutral;
    neutral_owed = Neutral-Owed;
    neutral_effect = Neutral-Effect;
  }
