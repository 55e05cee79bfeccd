-- ===== src/Driver/Receive/Receivers.antt =====
-- The inbound path of src/driver.rs at run time: the reader, and any number of calls of `receive`.
use fogws.Prelude.{ℕ, suc, ◌≤◌, ◌≡◌, Bool, false, Option, none, some, ok, err, List, [], ◌∷◌, ◌++◌}
use fogws.Error.{DriverError}
use fogws.Config.{ConnectionConfig, u32_max}
use fogws.Tokio.Semaphore.{Semaphore}
use fogws.Tokio.Mpsc.{Mpsc}
use fogws.Driver.Wire.{Message, Tungstenite}
use fogws.Driver.State.{DriverState, InboundMessage}
use fogws.Driver.Reader.{inbound_message}
use fogws.Driver.Receive.{
  InboundEnvelope, Inbound, start_inbound, claim, release, receive, acquire_budget, send_inbound,
  drop_envelope, drop_sender,
}

-- The text or the bytes of a message, as they came.
abbrev pub payload_of : InboundMessage → Message
payload_of (InboundMessage.binary bytes) = Message.binary bytes
payload_of (InboundMessage.text s) = Message.text s

module _ (sem : Semaphore) (chan : Mpsc) where
  pub record Receivers : Type 0 where
    pub shared : Inbound sem chan
    -- The receives that have claimed the guard and not ended.
    pub receiving : ℕ
    -- What the reader has permits for and waits to queue.
    pub holding : Option (InboundEnvelope sem)
    -- What went into the queue and what receives returned, in order.
    pub delivered : List InboundMessage
    pub received : List InboundMessage

  module _ (w : Tungstenite) (config : ConnectionConfig) where
    pub data Step (s : Receivers) : Receivers → Type 0 where
      claims :
          {active : Bool}
          → claim s.shared.receive_active ≡ (active, ok tt)
          → Step s (record s {
            shared = record s.shared { receive_active = active };
            receiving = suc s.receiving;
          })
      refuses :
          {active : Bool} {error : DriverError}
          → claim s.shared.receive_active ≡ (active, err error)
          → Step s (record s { shared = record s.shared { receive_active = active } })
      -- A receive that waits is dropped, with its guard.
      cancels :
          {n : ℕ}
          → s.receiving ≡ suc n
          → Step s (record s { shared = release sem chan s.shared; receiving = n })
      receives :
          (state : DriverState) {n : ℕ} {i : Inbound sem chan} {message : InboundMessage}
          → s.receiving ≡ suc n
          → receive sem chan state s.shared ≡ some (i, ok message)
          → Step s (record s { shared = i; receiving = n; received = s.received ++ (message ∷ []) })
      finds_end :
          (state : DriverState) {n : ℕ} {i : Inbound sem chan} {error : DriverError}
          → s.receiving ≡ suc n
          → receive sem chan state s.shared ≡ some (i, err error)
          → Step s (record s { shared = i; receiving = n })
      -- The reader, in `queue_inbound`, while it runs.
      acquires :
          (payload : Message) {message : InboundMessage} {permit : sem.Permit}
          {i : Inbound sem chan}
          → s.shared.sender_dropped ≡ false
          → s.holding ≡ none
          → inbound_message payload ≡ some message
          → w.message_len payload ≤ u32_max
          → acquire_budget sem chan (w.message_len payload) s.shared ≡ some (permit, i)
          → Step s (record s {
            shared = i;
            holding = some (record { message = message; permit = permit });
          })
      queues :
          {envelope : InboundEnvelope sem} {i : Inbound sem chan}
          → s.holding ≡ some envelope
          → send_inbound sem chan envelope s.shared ≡ some i
          → Step s (record s {
            shared = i;
            holding = none;
            delivered = s.delivered ++ (envelope.message ∷ []);
          })
      -- The signal comes first, or the reader is dropped.
      gives_up :
          {envelope : InboundEnvelope sem}
          → s.holding ≡ some envelope
          → Step s (record s { shared = drop_envelope sem chan envelope s.shared; holding = none })
      -- The end of the reader, which has nothing in hand any more.
      reader_ends : s.holding ≡ none → Step s (record s { shared = drop_sender sem chan s.shared })

    pub data Reach (s : Receivers) : Receivers → Type 0 where
      here : Reach s s
      next : {u v : Receivers} → Reach s u → Step u v → Reach s v

    -- After `start`.
    abbrev pub start : Receivers
    start = record {
      shared = start_inbound sem chan config;
      receiving = 0;
      holding = none;
      delivered = [];
      received = [];
    }
