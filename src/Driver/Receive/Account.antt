-- ===== src/Driver/Receive/Account.antt =====
-- The account of the inbound path of src/driver.rs: its guard, its budget and its order, and what each
-- call does to them.
use fogws.Prelude.{
  ℕ, suc, ◌+◌, ◌≡◌, refl, ap, Bool, true, false, Option, none, some, ok, err, arith, List, [], ◌∷◌,
  ◌++◌, map, length, sum_of, All, Option-cases, inl, inr, if◌then◌else◌,
}
use fogws.Error.{DriverError}
use fogws.Config.{ConnectionConfig}
use fogws.Tokio.Semaphore.{Semaphore}
use fogws.Tokio.Mpsc.{Mpsc, Reserve, reserved, full, closed}
use fogws.Driver.Wire.{Message, Tungstenite}
use fogws.Driver.State.{DriverState, InboundMessage}
use fogws.Driver.Reader.{inbound_message}
use fogws.Driver.Receive.{
  InboundEnvelope, Inbound, claim, release, receive, acquire_budget, send_inbound,
}
use fogws.Driver.Receive.Receivers.{payload_of, Receivers, start}

-- The guard is held exactly by the one receive in progress.
abbrev pub guards : Bool → ℕ
guards active = if active then 1 else 0

pub payload_of-message :
    (payload : Message) (m : InboundMessage)
    → inbound_message payload ≡ some m
    → payload_of m ≡ payload
payload_of-message (Message.text s) m h = ground arith
payload_of-message (Message.binary bytes) m h = ground arith
payload_of-message other m h = cc

pub claim-ok : (a : Bool) {b : Bool} → claim a ≡ (b, ok tt) → (a ≡ false) × (b ≡ true)
unfolding claim
claim-ok a h = ground arith

pub claim-err :
    (a : Bool) {b : Bool} {e : DriverError} → claim a ≡ (b, err e) → (a ≡ true) × (b ≡ a)
unfolding claim
claim-err a h = ground arith

module _ (sem : Semaphore) (chan : Mpsc) (w : Tungstenite) (config : ConnectionConfig) where
  open sem use {available_permits, num_permits}
  open chan use {contents, capacity, is_closed}

  abbrev pub envelope_bytes : InboundEnvelope sem → ℕ
  envelope_bytes e = num_permits e.permit

  abbrev pub inbound_len : InboundMessage → ℕ
  inbound_len m = w.message_len (payload_of m)

  abbrev pub IsPaid : InboundEnvelope sem → Type 0
  IsPaid e = envelope_bytes e ≡ inbound_len e.message

  abbrev pub holding_bytes : Option (InboundEnvelope sem) → ℕ
  holding_bytes none = 0
  holding_bytes (some e) = envelope_bytes e

  abbrev pub HoldingPaid : Option (InboundEnvelope sem) → Type 0
  HoldingPaid none = Unit
  HoldingPaid (some e) = IsPaid e

  abbrev pub waiting : Receivers sem chan → List (InboundEnvelope sem)
  waiting s = contents s.shared.inbound

  abbrev pub envelope_message : InboundEnvelope sem → InboundMessage
  envelope_message e = e.message

  pub record Kept (s : Receivers sem chan) : Type 0 where
    pub one_guard : s.receiving ≡ guards s.shared.receive_active
    pub bytes :
        available_permits s.shared.inbound_budget
          + holding_bytes s.holding
          + sum_of envelope_bytes (waiting s)
        ≡ config.max_buffered_bytes
    pub slots : capacity s.shared.inbound + length (waiting s) ≡ config.max_queue
    pub paid : All IsPaid (waiting s)
    pub holding_paid : HoldingPaid s.holding
    pub in_order : s.delivered ≡ s.received ++ map envelope_message (waiting s)

  pub start-Kept : Kept (start sem chan w config)
  start-Kept =
      let (empty, room, _) = chan.channel_lem {A = InboundEnvelope sem} config.max_queue in
      record {
        one_guard = refl;
        bytes = omega (
          arith,
          sem.available_permits-new config.max_buffered_bytes,
          ap (sum_of envelope_bytes) empty,
        );
        slots = omega (arith, room, ap length empty);
        paid = rw empty tt;
        holding_paid = tt;
        in_order = rw empty refl;
      }

  pub receive-ok :
      (state : DriverState) (i : Inbound sem chan) {u : Inbound sem chan} {m : InboundMessage}
      → receive sem chan state i ≡ some (u, ok m)
      → (e : InboundEnvelope sem) × (chan.recv i.inbound ≡ some (e, u.inbound))
        × (e.message ≡ m)
        × (u.receive_active ≡ false)
        × (u.inbound_budget ≡ sem.drop_permit e.permit i.inbound_budget)
  unfolding receive release
  receive-ok state i h = elim (Option-cases (chan.recv i.inbound)) [
    | inl e ↦ ground arith
    | inr ((e, rest), f) ↦ (e, ground arith, ground arith, ground arith, ground arith)
  ]

  pub receive-err :
      (state : DriverState) (i : Inbound sem chan) {u : Inbound sem chan} {e : DriverError}
      → receive sem chan state i ≡ some (u, err e)
      → u ≡ release sem chan i
  unfolding receive
  receive-err state i h = ground arith

  pub acquire_budget-some :
      (n : ℕ) (i : Inbound sem chan) {p : sem.Permit} {u : Inbound sem chan}
      → acquire_budget sem chan n i ≡ some (p, u)
      → (num_permits p ≡ n)
        × (available_permits u.inbound_budget + n ≡ available_permits i.inbound_budget)
        × (u.inbound ≡ i.inbound)
        × (u.receive_active ≡ i.receive_active)
  unfolding acquire_budget
  acquire_budget-some n i {p} {u} h =
      ground (arith, sem.acquired n i.inbound_budget p u.inbound_budget)

  pub send_inbound-some :
      (e : InboundEnvelope sem) (i : Inbound sem chan) {u : Inbound sem chan}
      → send_inbound sem chan e i ≡ some u
      → (contents u.inbound ≡ contents i.inbound ++ (e ∷ []))
        × (capacity i.inbound ≡ suc (capacity u.inbound))
        × (u.inbound_budget ≡ i.inbound_budget)
        × (u.receive_active ≡ i.receive_active)
  unfolding send_inbound
  send_inbound-some e i {u} h = go (chan.try_reserve_owned i.inbound) refl
    where
      go :
          (r : Reserve (chan.Channel (InboundEnvelope sem)))
          → chan.try_reserve_owned i.inbound ≡ r
          → (contents u.inbound ≡ contents i.inbound ++ (e ∷ []))
            × (capacity i.inbound ≡ suc (capacity u.inbound))
            × (u.inbound_budget ≡ i.inbound_budget)
            × (u.receive_active ≡ i.receive_active)
      go (reserved rest) f =
          ground (arith, chan.reserved_lem i.inbound rest f, chan.send_lem e rest)
      go full f = ground arith
      go closed f = ground arith
