-- ===== src/Driver/Receive/Kept.antt =====
-- The inbound path of src/driver.rs keeps its account in every order of its accesses.
use fogws.Prelude.{
  ℕ, Bool, suc, ◌≡◌, sym, ap, subst, ◌∙◌, some, ok, arith, [], ◌∷◌, ◌++◌, map, length, sum_of, All,
}
use mathlib.Core.List.{append_assoc}
use fogws.Config.{ConnectionConfig}
use fogws.Tokio.Semaphore.{Semaphore}
use fogws.Tokio.Mpsc.{Mpsc}
use fogws.Driver.Wire.{Tungstenite}
use fogws.Driver.State.{DriverState, InboundMessage}
use fogws.Driver.Receive.{Inbound, claim, release, receive, drop_sender}
use fogws.Driver.Receive.Receivers.{
  Receivers, Step, Reach, claims, refuses, cancels, receives, finds_end, acquires, queues, gives_up,
  reader_ends, here, next,
}
use fogws.Driver.Receive.Account.{
  envelope_bytes, IsPaid, envelope_message, Kept, claim-ok, claim-err, receive-ok, receive-err,
}
use fogws.Driver.Receive.Queueing.{acquired_one, queued_one, gave_up}

module _ (sem : Semaphore) (chan : Mpsc) (w : Tungstenite) (config : ConnectionConfig) where
  open sem use {available_permits, num_permits}
  open chan use {contents, capacity}

  -- A receive that ends without a message leaves the queue, and frees the guard.
  released :
      {s : Receivers sem chan}
      → Kept sem chan w config s
      → {n : ℕ} → s.receiving ≡ suc n
      → Kept sem chan w config (record s { shared = release sem chan s.shared; receiving = n })
  unfolding release
  released {s} k e = record {
    one_guard = ground (arith, k.one_guard);
    bytes = k.bytes;
    slots = k.slots;
    paid = k.paid;
    holding_paid = k.holding_paid;
    in_order = k.in_order;
  }

  claimed :
      {s : Receivers sem chan}
      → Kept sem chan w config s
      → (active : Bool) → claim s.shared.receive_active ≡ (active, ok tt)
      → Kept sem chan w config (record s {
        shared = record s.shared { receive_active = active };
        receiving = suc s.receiving;
      })
  claimed {s} k active e =
      let (free, now) = claim-ok s.shared.receive_active e in
      record {
        one_guard = ground (arith, k.one_guard);
        bytes = k.bytes;
        slots = k.slots;
        paid = k.paid;
        holding_paid = k.holding_paid;
        in_order = k.in_order;
      }

  received_one :
      {s : Receivers sem chan}
      → Kept sem chan w config s
      → (state : DriverState) {n : ℕ} {i : Inbound sem chan} {message : InboundMessage}
      → s.receiving ≡ suc n
      → receive sem chan state s.shared ≡ some (i, ok message)
      → Kept sem chan w config
          (record s { shared = i; receiving = n; received = s.received ++ (message ∷ []) })
  received_one {s} k state {i} {message} e h =
      let (envelope, came, same, free, budget) = receive-ok sem chan w config state s.shared h in
      let (first, room, _) = chan.recv_lem s.shared.inbound envelope i.inbound came in
      let paid = subst (All (IsPaid sem chan w config)) first k.paid in
      record {
        one_guard = ground (arith, k.one_guard);
        bytes = omega (
          arith,
          k.bytes,
          ap available_permits budget,
          sem.available_permits-drop_permit envelope.permit s.shared.inbound_budget,
          ap (sum_of (envelope_bytes sem chan w config)) first,
        );
        slots = omega (arith, k.slots, room, ap length first);
        paid = paid.1;
        holding_paid = k.holding_paid;
        in_order =
            k.in_order
            ∙ ap (λ l. s.received ++ map (envelope_message sem chan w config) l) first
            ∙ ap
                (λ (m : InboundMessage).
                  s.received ++ (m ∷ map (envelope_message sem chan w config) (contents i.inbound)))
                same
            ∙ sym (
                append_assoc s.received (message ∷ [])
                  (map (envelope_message sem chan w config) (contents i.inbound)));
      }

  ended :
      {s : Receivers sem chan}
      → Kept sem chan w config s
      → Kept sem chan w config (record s { shared = drop_sender sem chan s.shared })
  unfolding drop_sender
  ended {s} k = record {
    one_guard = k.one_guard;
    bytes = k.bytes;
    slots = k.slots;
    paid = k.paid;
    holding_paid = k.holding_paid;
    in_order = k.in_order;
  }

  pub Step-Kept :
      {s u : Receivers sem chan}
      → Step sem chan w config s u
      → Kept sem chan w config s
      → Kept sem chan w config u
  Step-Kept (claims {active} e) k = claimed k active e
  Step-Kept {s} (refuses e) k =
      subst
        (λ a. Kept sem chan w config (record s { shared = record s.shared { receive_active = a } }))
        (sym (claim-err s.shared.receive_active e).1) k
  Step-Kept (cancels e) k = released k e
  Step-Kept (receives state e h) k = received_one k state e h
  Step-Kept {s} (finds_end state {n} e h) k =
      subst (λ i. Kept sem chan w config (record s { shared = i; receiving = n }))
        (sym (receive-err sem chan w config state s.shared h)) (released k e)
  Step-Kept (acquires payload runs idle converts word h) k =
      acquired_one sem chan w config k payload idle converts h
  Step-Kept (queues e h) k = queued_one sem chan w config k e h
  Step-Kept (gives_up e) k = gave_up sem chan w config k e
  Step-Kept (reader_ends e) k = ended k

  pub Reach-Kept :
      {s u : Receivers sem chan}
      → Reach sem chan w config s u
      → Kept sem chan w config s
      → Kept sem chan w config u
  Reach-Kept here k = k
  Reach-Kept (next r st) k = Step-Kept st (Reach-Kept r k)
