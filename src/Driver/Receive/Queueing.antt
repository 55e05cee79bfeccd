-- ===== src/Driver/Receive/Queueing.antt =====
-- The reader's side of the inbound path of src/driver.rs keeps the account.
use fogws.Prelude.{
  ◌≡◌, sym, ap, subst, ◌∙◌, none, some, arith, [], ◌∷◌, ◌++◌, map, length, sum_of, All-append,
  length-append, sum_of-append,
}
use mathlib.Core.List.{append_assoc, map-append}
use fogws.Config.{ConnectionConfig}
use fogws.Tokio.Semaphore.{Semaphore}
use fogws.Tokio.Mpsc.{Mpsc}
use fogws.Driver.Wire.{Message, Tungstenite}
use fogws.Driver.State.{InboundMessage}
use fogws.Driver.Reader.{inbound_message}
use fogws.Driver.Receive.{InboundEnvelope, Inbound, acquire_budget, send_inbound, drop_envelope}
use fogws.Driver.Receive.Receivers.{Receivers}
use fogws.Driver.Receive.Account.{
  guards, payload_of-message, envelope_bytes, HoldingPaid, holding_bytes, waiting, envelope_message,
  Kept, acquire_budget-some, send_inbound-some,
}

module _ (sem : Semaphore) (chan : Mpsc) (w : Tungstenite) (config : ConnectionConfig) where
  open sem use {available_permits, num_permits}
  open chan use {contents, capacity}

  pub acquired_one :
      {s : Receivers sem chan}
      → Kept sem chan w config s
      → (payload : Message) {message : InboundMessage} {permit : sem.Permit} {i : Inbound sem chan}
      → s.holding ≡ none
      → inbound_message payload ≡ some message
      → acquire_budget sem chan (w.message_len payload) s.shared ≡ some (permit, i)
      → Kept sem chan w config
          (record s { shared = i; holding = some (record { message = message; permit = permit }) })
  acquired_one {s} k payload {message} idle converts h =
      let (permits, budget, queue, active) =
        acquire_budget-some sem chan w config (w.message_len payload) s.shared h in
      record {
        one_guard = k.one_guard ∙ ap guards (sym active);
        bytes = omega (
          arith,
          k.bytes,
          ap (holding_bytes sem chan w config) idle,
          permits,
          budget,
          ap (λ q. sum_of (envelope_bytes sem chan w config) (contents q)) queue,
        );
        slots = rw queue k.slots;
        paid = rw queue k.paid;
        holding_paid =
            permits ∙ ap w.message_len (sym (payload_of-message payload message converts));
        in_order = rw queue k.in_order;
      }

  pub queued_one :
      {s : Receivers sem chan}
      → Kept sem chan w config s
      → {envelope : InboundEnvelope sem} {i : Inbound sem chan} → s.holding ≡ some envelope
      → send_inbound sem chan envelope s.shared ≡ some i
      → Kept sem chan w config (record s {
        shared = i;
        holding = none;
        delivered = s.delivered ++ (envelope.message ∷ []);
      })
  queued_one {s} k {envelope} e h =
      let (grown, room, budget, active) = send_inbound-some sem chan w config envelope s.shared h in
      record {
        one_guard = k.one_guard ∙ ap guards (sym active);
        bytes = omega (
          arith,
          k.bytes,
          ap (holding_bytes sem chan w config) e,
          ap available_permits budget,
          ap (sum_of (envelope_bytes sem chan w config)) grown,
          sum_of-append (envelope_bytes sem chan w config) (waiting sem chan w config s)
              (envelope ∷ []),
        );
        slots = omega (
          arith,
          k.slots,
          room,
          ap length grown ∙ length-append (waiting sem chan w config s) (envelope ∷ []),
        );
        paid = rw grown (
            All-append _ (waiting sem chan w config s) (envelope ∷ []) k.paid
              (subst (HoldingPaid sem chan w config) e k.holding_paid, tt));
        holding_paid = tt;
        in_order =
            rw (grown, map-append)
              (ap (λ l. l ++ (envelope.message ∷ [])) k.in_order
                ∙ append_assoc s.received
                    (map (envelope_message sem chan w config) (waiting sem chan w config s))
                    (envelope.message ∷ []));
      }

  pub gave_up :
      {s : Receivers sem chan}
      → Kept sem chan w config s
      → {envelope : InboundEnvelope sem} → s.holding ≡ some envelope
      → Kept sem chan w config
          (record s { shared = drop_envelope sem chan envelope s.shared; holding = none })
  unfolding drop_envelope
  gave_up {s} k {envelope} e = record {
    one_guard = k.one_guard;
    bytes = omega (
      arith,
      k.bytes,
      ap (holding_bytes sem chan w config) e,
      sem.available_permits-drop_permit envelope.permit s.shared.inbound_budget,
    );
    slots = k.slots;
    paid = k.paid;
    holding_paid = tt;
    in_order = k.in_order;
  }
